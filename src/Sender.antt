-- ===== src/Sender.antt =====
-- notify/session.py: what a session sends to the TCP server to post and clear notices and to add a
-- client. Its answer is awaited by _expect, which is not part of these definitions.
pub mod Line
pub mod Post
mod Tests
use blitzmail.Common.{
  ℕ, Bytes, codes, Bool, true, false, not, ltb, List, [], ◌∷◌, ◌++◌, map, length, Option, none,
  some, ℤ, pos, eq_ℤ, if◌then◌else◌,
}
use blitzmail.Common.Decimal.{str}
use blitzmail.Common.Lines.{str_ℤ, join}
use blitzmail.Errors.{Result, ok, err, value_error, type_error, not_connected, ◌>>=◌}
use blitzmail.Packet.Service.{Key, name, code, resolve}

-- the connection, and the entry 'uid' of the user's data, if there are any
pub record Session : Type 0 where
  pub is_connected : Bool
  pub user_info : Option (Option Bytes)

-- `NOTIFY_SERVICE[type]`, or else an integer
unfoldable pub service : Key → Result ℤ
service k = elim (resolve k) [ name s ↦ err value_error | code z ↦ ok z ]

-- `(uid is None and self.user_info.get('uid')) or int(uid)`, after the check that precedes it
unfoldable pub sender_id : Option ℤ → Option (Option Bytes) → Result Bytes
sender_id (some z) user = ok (str_ℤ z)
sender_id none none = err value_error
sender_id none (some none) = err type_error
sender_id none (some (some [])) = err type_error
sender_id none (some (some (c ∷ s))) = ok (c ∷ s)

-- Session._rawsend, on what a method sends up to the answer it expects
unfoldable pub rawsend : Session → Bytes → Result Bytes
rawsend s text = if s.is_connected then ok text else err not_connected

-- _cmd1
unfoldable pub cmd1 : Bytes → Bytes → Bytes
cmd1 cmd arg = cmd ++ codes " " ++ arg ++ codes "\n"

-- _cmd2
unfoldable pub cmd2 : Bytes → Bytes → Bytes → Bytes
cmd2 cmd arg1 arg2 = cmd ++ codes " " ++ arg1 ++ codes "," ++ arg2 ++ codes "\n"

-- The data of a notice: a Pascal string, but for control notices.
unfoldable pub post_data : ℤ → Option Bytes → Result Bytes
post_data type none = ok (0 ∷ [])
post_data type (some d) =
    if eq_ℤ type (pos 0)
    then ok d
    else if ltb 255 (length d)
    then err value_error
    else ok (length d ∷ d)

-- the message identifier, or the time of day
abbrev pub message : ℕ → Option ℤ → ℤ
message now none = pos now
message now (some m) = m

unfoldable pub post_notify :
    ℕ → Key → Option Bytes → Option ℤ → Option ℤ → Bool → Session → Result Bytes
unfolding service sender_id post_data rawsend cmd1
post_notify now type data' uid msg_id sticky s = do
  id ← sender_id uid s.user_info
  svc ← service type
  d ← post_data svc data'
  rawsend s (
      cmd1 (codes "NOTIFY") (
        join (codes ",") (
          str (length d)
          ∷ id
          ∷ str_ℤ svc
          ∷ str_ℤ (message now msg_id)
          ∷ (if sticky then codes "1" else codes "0")
          ∷ []))
      ++ d)

unfoldable pub post_reset : ℕ → Option ℤ → Session → Result Bytes
unfolding post_notify
post_reset now uid s =
    post_notify now (name "reset") (some (0 ∷ 0 ∷ 0 ∷ 1 ∷ [])) uid (some (pos 0)) false s

unfoldable pub clear_sticky : Key → Option ℤ → Session → Result Bytes
unfolding service sender_id rawsend cmd2
clear_sticky type uid s = do
  id ← sender_id uid s.user_info
  svc ← service type
  rawsend s (cmd2 (codes "CLEAR") id (str_ℤ svc))

services : List Key → Result (List ℤ)
unfolding service
services [] = ok []
services (k ∷ ks) = do z ← service k; zs ← services ks; ok (z ∷ zs)

unfoldable pub add_client : ℤ → Bytes → ℤ → List Key → Session → Result Bytes
unfolding services rawsend cmd1
add_client uid ip port svcs s = do
  zs ← services svcs
  rawsend s (cmd1 (codes "CLIENT") (join (codes ",") (str_ℤ uid ∷ ip ∷ str_ℤ port ∷ map str_ℤ zs)))
