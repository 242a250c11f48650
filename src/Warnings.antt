-- ===== src/Warnings.antt =====
-- The warnings of bwarn.py, and check_warnings of class BlitzSession of session.py.
pub mod Checked
mod Tests
use blitzmail.Common.{
  ℕ, zero, suc, Bytes, codes, Bool, any, ◌==◌, List, [], ◌∷◌, ◌++◌, Option, none, some, pos,
  if◌then◌else◌,
}
use blitzmail.Common.Match
use blitzmail.Common.Match.{Match, number, shaped, at_end}
use blitzmail.Errors.{Result, ok, err, protocol_text, blocked}
use blitzmail.Blitz.{Blitz, Call, go_on, ◌>>=◌, ◌>>◌, return, raise, expect_value, tell}

-- the subclasses of BlitzWarning, each with its text; a new mail with what is read off that
pub data Warning : Type 0 where
  unread : (message : Bytes) → Warning
  message : (message : Bytes) → Warning
  shutdown : (message : Bytes) → Warning
  new_mail : (message : Bytes) (message_id folder_id position : ℕ) → Warning

-- `(\d+) (\d+) (\d+)$`
unfoldable pub mail_re : Match (ℕ × ℕ × ℕ)
mail_re s =
    (Match.◌>>=◌ number (λ id. Match.◌>>◌ (shaped (codes " ")) (
        Match.◌>>=◌ number (λ folder. Match.◌>>◌ (shaped (codes " ")) (
          Match.◌>>=◌ number
            (λ position. Match.◌>>◌ at_end (Match.matched (id, folder, position))))))))
      s

mail_of : Bytes → Option ((ℕ × ℕ × ℕ) × Bytes) → Result Warning
mail_of info (some ((id, folder, position), rest)) = ok (new_mail info id folder position)
mail_of info none = err (protocol_text (codes "invalid new mail warning \"" ++ info ++ codes "\""))

-- BlitzNewMailWarning
unfoldable pub new_mail_of : Bytes → Result Warning
unfolding mail_of
new_mail_of info = mail_of info (mail_re info)

-- `warn_map`; of the codes that are accepted, the last case takes 66
unfoldable pub warning_of : ℕ → Bytes → Result Warning
warning_of key text =
    if key == 61
    then ok (unread text)
    else if key == 62
    then ok (message text)
    else if key == 63
    then ok (shutdown text)
    else new_mail_of text

abbrev pub warn_codes : List ℕ
warn_codes = 60 ∷ 61 ∷ 62 ∷ 63 ∷ 66 ∷ []

-- the loop of check_warnings, on fuel for the answers
unfoldable pub warnings : ℕ → Call Blitz (List Warning)
warnings zero = raise (err blocked)
warnings (suc f) = do
  answer ← expect_value warn_codes
  if answer.0 == 60
      then return []
      else (do w ← raise (warning_of answer.0 answer.1); ws ← warnings f; return (w ∷ ws))

unfoldable pub check_warnings : ℕ → Call Blitz (List Warning)
check_warnings f = do tell (codes "WARN\n"); warnings f
