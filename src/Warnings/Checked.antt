-- ===== src/Warnings/Checked.antt =====
-- The warnings that the server has are those that are returned.
use blitzmail.Common.{
  ℕ, suc, ◌<◌, ◌≡◌, refl, arith, Bytes, codes, Bool, true, false, not, any, All, length, ◌%◌, ◌==◌,
  List, [], ◌∷◌, ◌++◌, append_assoc, map, some,
}
use blitzmail.Common.Decimal.{str}
use blitzmail.Common.Match.{number-str, number-str_end, shaped, at_end, is_digit}
use blitzmail.Errors.{ok}
use blitzmail.Link.Answer.{IsLine}
use blitzmail.Blitz.Online.{online, says, tell-online, expect_value-says}
use blitzmail.Warnings.{
  Warning, mail_re, new_mail_of, warning_of, warn_codes, warnings, check_warnings,
}

-- what the server has to tell
pub data Notice : Type 0 where
  unread message shutdown : (text : Bytes) → Notice
  mail : (id folder position : ℕ) → Notice

abbrev mail_text : ℕ → ℕ → ℕ → Bytes
mail_text id folder position = str id ++ 32 ∷ (str folder ++ 32 ∷ str position)

abbrev pub key_of : Notice → ℕ
key_of (unread text) = 61
key_of (message text) = 62
key_of (shutdown text) = 63
key_of (mail id folder position) = 66

abbrev pub text_of : Notice → Bytes
text_of (unread text) = text
text_of (message text) = text
text_of (shutdown text) = text
text_of (mail id folder position) = mail_text id folder position

abbrev pub warning : Notice → Warning
warning (unread text) = Warning.unread text
warning (message text) = Warning.message text
warning (shutdown text) = Warning.shutdown text
warning (mail id folder position) =
    Warning.new_mail (mail_text id folder position) id folder position

abbrev pub notices : ℕ → List Notice → Bytes → Bytes
notices w [] done = says w 60 done
notices w (n ∷ ns) done = says w (key_of n) (text_of n) ++ notices w ns done

space : (rest : Bytes) → shaped (codes " ") (32 ∷ rest) ≡ some (codes " ", rest)
unfolding shaped
space rest = refl

space_lem : is_digit 32 ≡ false
unfolding is_digit
space_lem = refl

mail_re-text :
    (id folder position : ℕ)
    → mail_re (mail_text id folder position) ≡ some ((id, folder, position), [])
unfolding mail_re at_end
mail_re-text id folder position = rw (
  number-str id 32 (str folder ++ 32 ∷ str position) space_lem,
  space (str folder ++ 32 ∷ str position),
  number-str folder 32 (str position) space_lem,
  space (str position),
  number-str_end position,
)

warning_of-notice : (n : Notice) → warning_of (key_of n) (text_of n) ≡ ok (warning n)
unfolding warning_of new_mail_of
warning_of-notice (unread text) = refl
warning_of-notice (message text) = refl
warning_of-notice (shutdown text) = refl
warning_of-notice (mail id folder position) = rw (mail_re-text id folder position)

key_lem :
    (n : Notice)
    → (key_of n < 100)
      × (any (λ k. k % 100 == key_of n) warn_codes ≡ true)
      × ((key_of n == 60) ≡ false)
key_lem (unread text) = (omega arith, refl, refl)
key_lem (message text) = (omega arith, refl, refl)
key_lem (shutdown text) = (omega arith, refl, refl)
key_lem (mail id folder position) = (omega arith, refl, refl)

warnings_lem :
    (w : ℕ) (ns : List Notice) (done rest sent : Bytes) (warn : Bool)
    → w < 10
    → IsLine done
    → All (λ n. IsLine (text_of n)) ns
    → warnings (suc (length ns)) (online (notices w ns done ++ rest) sent warn)
      ≡ (ok (map warning ns), online rest sent (not (w == 0)))
unfolding warnings
warnings_lem w [] done rest sent warn hw hd h =
    rw (expect_value-says warn_codes w 60 done rest sent warn hw (omega arith) hd refl)
warnings_lem w (n ∷ ns) done rest sent warn hw hd h =
    let keys = key_lem n in
    let after = notices w ns done ++ rest in
    rw
      (
        append_assoc (says w (key_of n) (text_of n)) (notices w ns done) rest,
        expect_value-says warn_codes w (key_of n) (text_of n) after sent warn hw keys.0 h.0 keys.1,
        keys.2,
        warning_of-notice n,
      )
      (rw (warnings_lem w ns done rest sent (not (w == 0)) hw hd h.1))

-- check_warnings returns one warning for each that the server tells of before its answer 60, in their
-- order and of their kinds, a new mail with the numbers of the message, of its folder and of its
-- place; it reads no further, and a turn of its loop for each answer is enough.
pub check_warnings-notices :
    (w : ℕ) (ns : List Notice) (done rest sent : Bytes) (warn : Bool)
    → w < 10
    → IsLine done
    → All (λ n. IsLine (text_of n)) ns
    → check_warnings (suc (length ns)) (online (notices w ns done ++ rest) sent warn)
      ≡ (ok (map warning ns), online rest (sent ++ codes "WARN\n") (not (w == 0)))
unfolding check_warnings
check_warnings-notices w ns done rest sent warn hw hd h =
    rw (tell-online, warnings_lem w ns done rest (sent ++ codes "WARN\n") warn hw hd h)
