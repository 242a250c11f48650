-- ===== src/Warnings/Tests.antt =====
-- New mail, and nothing more.
use blitzmail.Common.{◌≡◌, refl, arith, codes, false, [], ◌∷◌, ◌++◌}
use blitzmail.Common.Decimal.{rstrip, str}
use blitzmail.Errors.{ok}
use blitzmail.Link.Answer.{IsLine}
use blitzmail.Blitz.Online.{online}
use blitzmail.Warnings.{check_warnings}
use blitzmail.Warnings.Checked.{Notice, text_of, notices, warning, check_warnings-notices}

mail-IsLine : IsLine (text_of (Notice.mail 7 5 2))
unfolding rstrip str
mail-IsLine = record { inside = ground arith; trimmed = refl }

done-IsLine : IsLine (codes "Ok")
unfolding rstrip
done-IsLine = record { inside = ground arith; trimmed = refl }

check_warnings-notices_example :
    check_warnings 2 (online (notices 0 (Notice.mail 7 5 2 ∷ []) (codes "Ok") ++ []) [] false)
    ≡ (ok (warning (Notice.mail 7 5 2) ∷ []), online [] (codes "WARN\n") false)
check_warnings-notices_example =
    check_warnings-notices 0 (Notice.mail 7 5 2 ∷ []) (codes "Ok") [] [] false (omega arith)
      done-IsLine (mail-IsLine, tt)
