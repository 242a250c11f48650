-- ===== src/Message/Outbound/Composed.antt =====
-- What the server hears of a message that is composed, and what becomes of its recipients.
use blitzmail.Common.{
  ℕ, suc, ◌<◌, ◌≡◌, ◌≢◌, refl, ap, ◌∙◌, arith, Bytes, codes, Bool, true, false, not, All, length,
  take, ◌==◌, List, [], ◌∷◌, ◌++◌, append_assoc, map, none,
}
use blitzmail.Common.Decimal.{str}
use blitzmail.Errors.{ok}
use blitzmail.Link.Answer.{IsLine}
use blitzmail.Blitz.Online.{online, says, tell-online, hear-says, expect_value-says}
use blitzmail.Blitz.Listing.{says_all, IsAnswer, Made, until_lem, settle}
use blitzmail.Message.{Summary, newlines, asked, get_body}
use blitzmail.Message.Served.{served}
use blitzmail.Message.Body.{get_body_lem}
use blitzmail.Message.Outbound.{
  Outcome, rcpt_codes, is_end, outcome, read_response, add_recipient, returns, set_body,
}

-- the answers about a recipient: the last of them alone ends the expansion
abbrev pub Ends : ℕ × Bytes → List (ℕ × Bytes) → Type 0
Ends a [] = is_end a.0 ≡ true
Ends a (b ∷ more) = (is_end a.0 ≡ false) × IsAnswer rcpt_codes b × Ends b more

labelled : ℕ × Bytes → Outcome × Bytes
labelled a = (outcome a.0, a.1)

Made-Ends :
    (a : ℕ × Bytes) (more : List (ℕ × Bytes))
    → Ends a more
    → Made rcpt_codes is_end (λ a. ok (labelled a)) a more (map labelled (a ∷ more))
Made-Ends a [] h = (refl, h)
Made-Ends a (b ∷ more) h = (refl, h.0, h.1, Made-Ends b more h.2)

-- Adding a recipient returns an outcome for each answer of the server, in their order, up to the one
-- that ends the expansion, and reads no further: however many members a list expands to, a turn for
-- each answer is enough.
pub add_recipient_lem :
    (cmd who : Bytes) (w : ℕ) (a : ℕ × Bytes) (more : List (ℕ × Bytes)) (rest sent : Bytes)
    (warn : Bool)
    → w < 10
    → IsAnswer rcpt_codes a
    → Ends a more
    → add_recipient cmd (suc (length more)) who (online (says_all w (a ∷ more) ++ rest) sent warn)
      ≡ (
        ok (map (λ a. (outcome a.0, a.1)) (a ∷ more)),
        online rest (sent ++ (cmd ++ codes " " ++ who ++ codes "\n")) (not (w == 0)),
      )
unfolding add_recipient read_response labelled
add_recipient_lem cmd who w a more rest sent warn hw first ends =
    let line = cmd ++ codes " " ++ who ++ codes "\n" in
    rw (
      append_assoc (says w a.0 a.1) (says_all w more) rest,
      tell-online,
      expect_value-says rcpt_codes w a.0 a.1 (says_all w more ++ rest) (sent ++ line) warn hw
          first.0 first.1 first.2,
      until_lem rcpt_codes is_end (λ a. ok (labelled a)) w a more (map labelled (a ∷ more)) rest
          (sent ++ line) (not (w == 0)) hw (Made-Ends a more ends),
      settle w more,
    )

set_body_lem :
    (mtype text go done : Bytes) (w : ℕ) (rest sent : Bytes) (warn : Bool)
    → w < 10
    → IsLine go
    → IsLine done
    → set_body mtype text (online (says w 50 go ++ (says w 10 done ++ rest)) sent warn) ≡ (
      ok done,
      online rest
          ((sent
              ++ (codes "MDAT " ++ str (length (returns text)) ++ codes " " ++ mtype ++ codes "\n"))
            ++ returns text)
          (not (w == 0)),
    )
unfolding set_body
set_body_lem mtype text go done w rest sent warn hw hgo hdone =
    let mdat = codes "MDAT " ++ str (length (returns text)) ++ codes " " ++ mtype ++ codes "\n" in
    rw (
      tell-online,
      hear-says w 50 go (says w 10 done ++ rest) (sent ++ mdat) warn hw (omega arith) hgo refl,
      tell-online,
      hear-says w 10 done rest ((sent ++ mdat) ++ returns text) (not (w == 0)) hw (omega arith)
          hdone refl,
    )

pub newlines-returns : (s : Bytes) → All (λ c. c ≢ 13) s → newlines (returns s) ≡ s
unfolding newlines returns
newlines-returns [] h = refl
newlines-returns (c ∷ s) h = ground (arith, newlines-returns s h.1, h.0)

take-all : (xs : Bytes) → take (length xs) xs ≡ xs
take-all [] = refl
take-all (x ∷ xs) = ap (λ t. x ∷ t) (take-all xs)

-- The body of a message that is composed goes to the server after its length, with returns for the
-- ends of lines, and where the server keeps those bytes as the body of a message, get_body returns
-- the text as it was written, if there is no return in it and the cache is not used. The summary's size must be the length.
pub get_body-set_body :
    (mtype text go done : Bytes) (w : ℕ) (rest sent : Bytes) (warn : Bool) (m : Summary)
    → w < 10
    → IsLine go
    → IsLine done
    → All (λ c. c ≢ 13) text
    → m.size ≡ length (returns text)
    → (set_body mtype text (online (says w 50 go ++ (says w 10 done ++ rest)) sent warn) ≡ (
      ok done,
      online rest
          ((sent
              ++ (codes "MDAT " ++ str (length (returns text)) ++ codes " " ++ mtype ++ codes "\n"))
            ++ returns text)
          (not (w == 0)),
    ))
      × ((get_body none none true (record m {
        session = online (served w done (returns text) false ((0, m.size) ∷ []) ++ rest) sent warn;
      })).0
          ≡ ok text)
unfolding asked
get_body-set_body mtype text go done w rest sent warn m hw hgo hdone plain size = (
  set_body_lem mtype text go done w rest sent warn hw hgo hdone,
  ap (λ r. r.0)
        ((get_body_lem w done (returns text) m none none true rest sent warn hw hdone size
          (λ unforced. cc)).0)
      ∙ ap (λ s. ok (newlines s)) (rw size (take-all (returns text)))
      ∙ ap ok (newlines-returns text plain),
)
