-- ===== src/Prefs.antt =====
-- class BlitzSession of session.py: the preferences that it reads and writes.
pub mod Quote
pub mod Read
mod Tests
use blitzmail.Common.{
  ℕ, zero, suc, ◌-◌, ◌/◌, ◌%◌, Bytes, codes, eq_bytes, Bool, true, false, not, any, ◌==◌, ◌||◌, leb,
  List, [], ◌∷◌, ◌++◌, length, map, Option, none, some, ℤ, pos, negsuc, if◌then◌else◌,
}
use blitzmail.Common.Lines.{join}
use blitzmail.Errors.{Result, ok, err, value_error, index_error, blocked}
use blitzmail.Link.{Link, raw_send}
use blitzmail.Blitz.{Blitz, expect_value}

-- a dictionary, in the order in which its keys were set first
abbrev pub Dict : Type 0
Dict = List (Bytes × Option Bytes)

unfoldable pub put : Bytes → Option Bytes → Dict → Dict
put name v [] = (name, v) ∷ []
put name v ((k, w) ∷ d) =
    let rest = put name v d in if eq_bytes k name then (k, v) ∷ d else (k, w) ∷ rest

-- `names[n]`
unfoldable pub name_at : ℕ → List Bytes → Option Bytes
name_at n [] = none
name_at zero (name ∷ names) = some name
name_at (suc n) (name ∷ names) = name_at n names

-- The loop of _munge_pref, on fuel: an answer for each turn. A dictionary whose keys are as many as
-- the names answers to the next name, and the last answer has the code 0 or 2.
unfoldable pub collect : ℕ → List Bytes → Dict → Blitz → Result Dict × Blitz
collect zero names out b = (err blocked, b)
collect (suc f) names out b =
    let (r, b') = expect_value (0 ∷ 1 ∷ 2 ∷ 3 ∷ []) b in
    elim r [
      | ok answer ↦ elim (name_at (length out) names) [
        | none ↦ (err index_error, b')
        | some name ↦
            (let out' = put name (if leb answer.0 1 then some answer.1 else none) out in
              let more = collect f names out' b' in
              if answer.0 == 0 || answer.0 == 2 then (ok out', b') else more)
      ]
      | err x ↦ (err x, b')
    ]

sent : Result (Unit {0}) × Link → ℕ → List Bytes → Bool → Result Dict × Blitz
unfolding collect
sent (ok _, l) f names warn = collect f names [] (record { link = l; warn_flag = warn })
sent (err x, l) f names warn = (err x, record { link = l; warn_flag = warn })

-- _munge_pref
unfoldable pub munge_pref : ℕ → Bytes → List Bytes → Blitz → Result Dict × Blitz
unfolding sent
munge_pref f op [] b = (err value_error, b)
munge_pref f op (name ∷ names) b =
    sent (raw_send (op ++ codes " " ++ join (codes " ") (name ∷ names) ++ codes "\n") b.link) f
      (name ∷ names) b.warn_flag

-- `s.replace('"', '""')` in quotation marks
unfoldable pub doubled : Bytes → Bytes
doubled [] = []
doubled (c ∷ s) = if c == b'"' then b'"' ∷ b'"' ∷ doubled s else c ∷ doubled s

unfoldable pub quote : Bytes → Bytes
unfolding doubled
quote s = b'"' ∷ (doubled s ++ b'"' ∷ [])

-- `s[1:-1]`
unfoldable pub without_last : Bytes → Bytes
without_last [] = []
without_last (c ∷ []) = []
without_last (c ∷ d ∷ s) = c ∷ without_last (d ∷ s)

unfoldable pub inner : Bytes → Bytes
unfolding without_last
inner [] = []
inner (c ∷ s) = without_last s

-- `s.replace('""', '"')`: the pairs are found from the left; `held` tells of one mark just before
unfoldable pub undoubled : Bool → Bytes → Bytes
undoubled true [] = b'"' ∷ []
undoubled false [] = []
undoubled true (c ∷ s) =
    if c == b'"' then b'"' ∷ undoubled false s else b'"' ∷ c ∷ undoubled false s
undoubled false (c ∷ s) = let rest = undoubled (c == b'"') s in if c == b'"' then rest else c ∷ rest

-- `out[key][1:-1].replace('""', '"')`, where there is a value
unfoldable pub unquote : Option Bytes → Option Bytes
unfolding inner undoubled
unquote none = none
unquote (some v) = some (undoubled false (inner v))

fixed : Result Dict × Blitz → Result Dict × Blitz
unfolding unquote
fixed (ok out, b) = (ok (map (λ kv. (kv.0, unquote kv.1)) out), b)
fixed (err x, b) = (err x, b)

unfoldable pub read_pref : ℕ → List Bytes → Blitz → Result Dict × Blitz
unfolding fixed
read_pref f names b = fixed (munge_pref f (codes "PREF") names b)

unfoldable pub remove_pref : ℕ → List Bytes → Blitz → Result Dict × Blitz
remove_pref f names b = munge_pref f (codes "PREM") names b

written : Result (Unit {0}) × Link → Bool → Result (Unit {0}) × Blitz
written (ok _, l) warn =
    let (r, b) = expect_value (10 ∷ []) (record { link = l; warn_flag = warn }) in
    elim r [ ok _ ↦ (ok tt, b) | err x ↦ (err x, b) ]
written (err x, l) warn = (err x, record { link = l; warn_flag = warn })

unfoldable pub write_pref : Bytes → Bytes → Blitz → Result (Unit {0}) × Blitz
unfolding quote written
write_pref name value b =
    written
      (raw_send (codes "PDEF " ++ quote name ++ codes " " ++ quote value ++ codes "\n") b.link)
      b.warn_flag
