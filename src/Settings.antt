-- ===== src/Settings.antt =====
-- What class BlitzSession of session.py keeps on the server for the user: the vacation message, the
-- forwarding address, and the identifier of the session.
pub mod Kept
mod Tests
use blitzmail.Common.{
  ℕ, Bytes, codes, eq_bytes, Bool, true, false, length, ◌==◌, List, [], ◌∷◌, ◌++◌, Option, none,
  some, ℤ, if◌then◌else◌,
}
use blitzmail.Common.Decimal.{str, int}
use blitzmail.Errors.{Result, ok, err, key_error, type_error}
use blitzmail.Blitz.{
  Blitz, Call, ◌>>=◌, ◌>>◌, return, raise, expect_value, tell, hear, to_int, read_block,
}
use blitzmail.Prefs.{Dict, read_pref, remove_pref, write_pref}
use blitzmail.SignOn.{Account, on_session}
use blitzmail.Message.{newlines}
use blitzmail.Message.Outbound.{returns}

unfoldable pub set_vacation_msg : Bytes → Call Blitz (Unit {0})
set_vacation_msg text = do
  tell (codes "VDAT " ++ str (length text) ++ codes "\n")
  hear 50
  tell (returns text)
  hear 10
  return tt

-- `none` where the server has no message
unfoldable pub get_vacation_msg : Call Blitz (Option Bytes)
get_vacation_msg = do
  tell (codes "VTXT\n")
  answer ← expect_value (2 ∷ 50 ∷ [])
  if answer.0 == 2 then return none else (do
    n ← raise (to_int answer.1)
    block ← read_block n
    hear 10
    return (some (newlines block)))

unfoldable pub clear_vacation_msg : Call Blitz Bool
clear_vacation_msg = do
  tell (codes "VREM\n")
  answer ← expect_value (2 ∷ 10 ∷ [])
  return (answer.0 == 10)

unfoldable pub keep_alive : Call Blitz (Unit {0})
keep_alive = do tell (codes "NOOP\n"); hear 10; return tt

-- `out[name]`
unfoldable pub at_key : Bytes → Dict → Result (Option Bytes)
at_key name [] = err key_error
at_key name ((k, v) ∷ d) = let rest = at_key name d in if eq_bytes k name then ok v else rest

-- `self.read_pref(name)[name]`
unfoldable pub preference : ℕ → Bytes → Call Blitz (Option Bytes)
preference f name = do out ← read_pref f (name ∷ []); raise (at_key name out)

-- `int(id)`
whole : Option Bytes → Result ℤ
whole none = err type_error
whole (some text) = to_int text

unfoldable pub get_session_id : ℕ → Call Account ℤ
unfolding preference whole
get_session_id f a = elim a.session_id [
  | some id ↦ (ok id, a)
  | none ↦
      (do
        text ← on_session (preference f (codes "SessionId"))
        id ← raise (whole text)
        λ a'. (ok id, record a' { session_id = some id }))
        a
]

unfoldable pub get_last_login : ℕ → Call Blitz (Option Bytes)
unfolding preference
get_last_login f = preference f (codes "LastLogin")

-- an empty address is none
unfoldable pub unless_empty : Option Bytes → Option Bytes
unless_empty none = none
unless_empty (some []) = none
unless_empty (some (c ∷ s)) = some (c ∷ s)

-- `none` for False
unfoldable pub get_forwarding : ℕ → Call Blitz (Option Bytes)
unfolding preference
get_forwarding f = do fw ← preference f (codes "ForwardTo"); return (unless_empty fw)

unfoldable pub set_forwarding : ℕ → Bytes → Call Blitz (Unit {0})
set_forwarding f [] = do remove_pref f (codes "ForwardTo" ∷ []); return tt
set_forwarding f (c ∷ addr) = write_pref (codes "ForwardTo") (c ∷ addr)
