-- ===== src/Link.antt =====
-- class Session of session.py: the lines that a session sends and the answers that it reads.
-- The peer's whole output is at hand as the input, so a read waits only for its end.
pub mod Answer
use blitzmail.Common.{
  ℕ, zero, suc, Bytes, codes, eq_bytes, eq_ℤ, Bool, true, false, any, List, [], ◌∷◌, ◌++◌, length,
  Option, none, some, ℤ, if◌then◌else◌,
}
use blitzmail.Common.Decimal.{int, rstrip}
use blitzmail.Common.Lines.{readline, split_space, join}
use blitzmail.Errors.{
  Result, ok, err, not_connected, lost_connection, value_error, attribute_error, protocol_error,
  blocked,
}

-- the socket and its file: what the peer sent and is still to be read, and what was sent to it
pub record Link : Type 0 where
  pub is_connected : Bool
  pub input : Bytes
  pub sent : Bytes

-- _close, which also drops what was not read
unfoldable pub shut : Link → Link
shut l = record l { is_connected = false; input = [] }

-- _rawsend
unfoldable pub raw_send : Bytes → Link → Result (Unit {0}) × Link
raw_send text l =
    if l.is_connected then (ok tt, record l { sent = l.sent ++ text }) else (err not_connected, l)

-- _cmd0 and _cmd3
unfoldable pub cmd0 : Bytes → Link → Result (Unit {0}) × Link
unfolding raw_send
cmd0 cmd = raw_send (cmd ++ codes "\n")

unfoldable pub cmd3 : Bytes → Bytes → Bytes → Bytes → Link → Result (Unit {0}) × Link
unfolding raw_send
cmd3 cmd a b c = raw_send (cmd ++ codes " " ++ join (codes ",") (a ∷ b ∷ c ∷ []) ++ codes "\n")

-- `key, data = line.split(' ', 1)`, and then `int(key), data.rstrip()`
answer_of : Option ℤ → Option Bytes → Result (ℤ × Bytes)
answer_of (some key) (some text) = ok (key, rstrip text)
answer_of key text = err value_error

unfoldable pub answer : Bytes → Result (ℤ × Bytes)
unfolding answer_of
answer line = let (key, text) = split_space line in answer_of (int key) text

-- _readline; the empty line is the end of the input
read_answer : Bytes × Bytes → Link → Result (ℤ × Bytes) × Link
unfolding shut
read_answer ([], rest) l = (err lost_connection, shut l)
read_answer (c ∷ line, rest) l = (answer (c ∷ line), record l { input = rest })

unfoldable pub next_answer : Link → Result (ℤ × Bytes) × Link
unfolding read_answer
next_answer l = if l.is_connected then read_answer (readline l.input) l else (err not_connected, l)

-- _expect
wanted : List ℤ → Result (ℤ × Bytes) → Result (ℤ × Bytes)
wanted keys (ok (key, text)) =
    if any (λ k. eq_ℤ k key) keys then ok (key, text) else err (protocol_error key text)
wanted keys (err x) = err x

unfoldable pub expect : List ℤ → Link → Result (ℤ × Bytes) × Link
unfolding wanted
expect keys l = let (r, l') = next_answer l in (wanted keys r, l')

-- _readlines on fuel: `none` where the loop goes on after that many lines
unfoldable pub lines_up_to : ℕ → Bytes → Option (List Bytes × Bytes)
lines_up_to zero input = none
lines_up_to (suc f) input =
    let (line, rest) = readline input in
    let more = lines_up_to f rest in
    if eq_bytes (rstrip line) (codes ".")
    then some ([], rest)
    else (elim more [ none ↦ none | some r ↦ some (rstrip line ∷ r.0, r.1) ])

-- _readlines: each line takes a byte or more of the input, and at its end the loop goes on for ever
unfoldable pub read_lines : Link → Result (List Bytes) × Link
read_lines l =
    if l.is_connected
    then (elim (lines_up_to (suc (length l.input)) l.input) [
      | some (ls, rest) ↦ (ok ls, record l { input = rest })
      | none ↦ (err blocked, l)
    ])
    else (err attribute_error, l)
