-- ===== src/Common/Fields.antt =====
-- Numbers joined by commas, and cut apart again.
use blitzmail.Common.Lists.{All}
use blitzmail.Common.Text.{Bytes, codes}
use blitzmail.Common.Int.{ℤ, pos, negsuc}
use blitzmail.Common.Decimal.{str, IsDigit, str-All, str-nonempty}
use blitzmail.Common.Lines.{str_ℤ, commas, join}
use Prim.Native.Nat.{ℕ, suc, ◌≤◌}
use mathlib.Core.Path.{◌≡◌, refl, ◌∙◌}
use mathlib.Core.List.{List, [], ◌∷◌, ◌++◌}
use native.Mathlib.Omega.{arith}

-- a character of a number: neither a comma nor a space of any kind
abbrev pub IsPlain : ℕ → Type 0
IsPlain c = 45 ≤ c

abbrev pub IsNumeral : Bytes → Type 0
IsNumeral s = All IsPlain s × ((c : ℕ) × (t : Bytes) × (s ≡ c ∷ t))

pub digits-IsPlain : (s : Bytes) → All IsDigit s → All IsPlain s
digits-IsPlain [] h = tt
digits-IsPlain (c ∷ s) h = (ground arith, digits-IsPlain s h.1)

pub str-IsNumeral : (n : ℕ) → IsNumeral (str n)
str-IsNumeral n = (digits-IsPlain (str n) (str-All n), str-nonempty n)

pub str_ℤ-IsNumeral : (z : ℤ) → IsNumeral (str_ℤ z)
unfolding str_ℤ
str_ℤ-IsNumeral (pos n) = str-IsNumeral n
str_ℤ-IsNumeral (negsuc n) = ((ground arith, (str-IsNumeral (suc n)).0), (45, str (suc n), refl))

pub commas-numeral : (s : Bytes) → All IsPlain s → commas s ≡ (s, [])
unfolding commas
commas-numeral [] h = refl
commas-numeral (c ∷ s) h = ground (arith, commas-numeral s h.1)

commas-append :
    (s rest : Bytes)
    → All IsPlain s
    → commas (s ++ b',' ∷ rest) ≡ (s, (commas rest).0 ∷ (commas rest).1)
unfolding commas
commas-append [] rest h = refl
commas-append (c ∷ s) rest h = ground (arith, commas-append s rest h.1)

pub commas-join :
    (w : Bytes) (ws : List Bytes)
    → All IsPlain w
    → All (All IsPlain) ws
    → commas (join (codes ",") (w ∷ ws)) ≡ (w, ws)
unfolding join
commas-join w [] h hs = commas-numeral w h
commas-join w (v ∷ ws) h hs =
    commas-append w (join (codes ",") (v ∷ ws)) h ∙ rw (commas-join v ws hs.0 hs.1)
