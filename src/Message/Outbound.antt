-- ===== src/Message/Outbound.antt =====
-- class BlitzOutboundMessage of bmesg.py: a message that is composed on the server.
pub mod Composed
use blitzmail.Common.{
  ℕ, Bytes, codes, Bool, any, ◌==◌, ◌||◌, List, [], ◌∷◌, ◌++◌, length, map, if◌then◌else◌,
}
use blitzmail.Common.Decimal.{str}
use blitzmail.Errors.{Result, ok}
use blitzmail.Blitz.{Blitz, Call, go_on, ◌>>=◌, ◌>>◌, return, expect_value, tell, hear, until}

-- what becomes of a recipient
pub data Outcome : Type 0 where
  okay ambig none_found loop perm : Outcome

-- the codes of _read_response, and those that end the expansion of a recipient
abbrev pub rcpt_codes : List ℕ
rcpt_codes = 28 ∷ 29 ∷ 40 ∷ 41 ∷ 42 ∷ 43 ∷ 44 ∷ 45 ∷ 46 ∷ 47 ∷ []

unfoldable pub is_end : ℕ → Bool
is_end key = any (λ k. k == key) (28 ∷ 40 ∷ 41 ∷ 42 ∷ 43 ∷ [])

-- the outcome of a code; of those that are accepted, the last case takes 41 and 45
unfoldable pub outcome : ℕ → Outcome
outcome key =
    if key == 40 || key == 44
    then okay
    else if key == 43 || key == 47
    then ambig
    else if key == 42 || key == 46
    then none_found
    else if key == 28 || key == 29
    then loop
    else perm

-- _read_response, on fuel for the answers
unfoldable pub read_response : ℕ → Call Blitz (List (Outcome × Bytes))
read_response f = do
  answer ← expect_value rcpt_codes
  until f rcpt_codes is_end (λ a. ok (outcome a.0, a.1)) answer

-- a command that the server answers with 10
abbrev pub command : Bytes → Call Blitz (Bytes)
command text = do tell text; hear 10

-- reset, reset_rcpt, request_receipt, hide_recipients and send
unfoldable pub reset : Call Blitz Bytes
reset = command (codes "CLEA\n")

unfoldable pub reset_rcpt : Call Blitz Bytes
reset_rcpt = command (codes "CLER\n")

unfoldable pub request_receipt : Call Blitz Bytes
request_receipt = command (codes "RTRN\n")

unfoldable pub hide_recipients : Call Blitz Bytes
hide_recipients = command (codes "HIDE\n")

unfoldable pub send : Call Blitz Bytes
send = command (codes "SEND\n")

-- set_audit, set_subject and set_reply_to
unfoldable pub set_audit : ℕ → Call Blitz Bytes
set_audit folder_id = command (codes "AUDT " ++ str folder_id ++ codes "\n")

unfoldable pub set_subject : Bytes → Call Blitz Bytes
set_subject subject = command (codes "TOPC " ++ subject ++ codes "\n")

unfoldable pub set_reply_to : Bytes → Call Blitz Bytes
set_reply_to addr = command (codes "RPL2 " ++ addr ++ codes "\n")

-- `s.replace('\n', '\r')`
unfoldable pub returns : Bytes → Bytes
returns = map (λ c. if c == 10 then 13 else c)

-- set_plain_body and set_mime_body, by the type of the message
unfoldable pub set_body : Bytes → Bytes → Call Blitz Bytes
set_body mtype text = do
  let body = returns text
  tell (codes "MDAT " ++ str (length body) ++ codes " " ++ mtype ++ codes "\n")
  hear 50
  tell body
  hear 10

unfoldable pub set_plain_body : Bytes → Call Blitz Bytes
unfolding set_body
set_plain_body = set_body (codes "1")

unfoldable pub set_mime_body : Bytes → Call Blitz Bytes
unfolding set_body
set_mime_body = set_body (codes "2")

-- add_to_recipient, add_cc_recipient and add_bcc_recipient
unfoldable pub add_recipient : Bytes → ℕ → Bytes → Call Blitz (List (Outcome × Bytes))
add_recipient cmd f who = do tell (cmd ++ codes " " ++ who ++ codes "\n"); read_response f

unfoldable pub add_to_recipient : ℕ → Bytes → Call Blitz (List (Outcome × Bytes))
unfolding add_recipient
add_to_recipient = add_recipient (codes "RCPT")

unfoldable pub add_cc_recipient : ℕ → Bytes → Call Blitz (List (Outcome × Bytes))
unfolding add_recipient
add_cc_recipient = add_recipient (codes "RCCC")

unfoldable pub add_bcc_recipient : ℕ → Bytes → Call Blitz (List (Outcome × Bytes))
unfolding add_recipient
add_bcc_recipient = add_recipient (codes "RBCC")
