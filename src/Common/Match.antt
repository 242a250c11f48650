-- ===== src/Common/Match.antt =====
-- The parts of regular expressions that the program matches its lines with.
use blitzmail.Common.Tests.{leb, ◌==◌, if◌then◌else◌}
use blitzmail.Common.Lists.{All}
use blitzmail.Common.Text.{Bytes}
use blitzmail.Common.Decimal.{natural, natural-str, str, str-All, IsDigit}
use Prim.Native.Nat.{ℕ}
use mathlib.Core.Path.{◌≡◌, refl}
use mathlib.Core.Bool.{Bool, false, ◌&&◌}
use mathlib.Core.Option.{Option, none, some}
use mathlib.Core.List.{[], ◌∷◌, ◌++◌}
use native.Mathlib.Omega.{arith}

-- what a part of an expression matches at the start of a text, and the text after it
abbrev pub Match : Type 0 → Type 0
Match A = Bytes → Option (A × Bytes)

abbrev pub then_match : {A B : Type 0} → (A → Match B) → Option (A × Bytes) → Option (B × Bytes)
then_match rest none = none
then_match rest (some (a, s)) = rest a s

infixl 5 ◌>>=◌ ◌>>◌
abbrev pub ◌>>=◌ : {A B : Type 0} → Match A → (A → Match B) → Match B
◌>>=◌ m rest s = then_match rest (m s)

abbrev pub ◌>>◌ : {A B : Type 0} → Match A → Match B → Match B
◌>>◌ m rest s = then_match (λ _. rest) (m s)

abbrev pub matched : {A : Type 0} → A → Match A
matched a s = some (a, s)

unfoldable pub is_digit : ℕ → Bool
is_digit c = leb b'0' c && leb c b'9'

-- `\d*`
unfoldable pub digits_cut : Bytes → Bytes × Bytes
digits_cut [] = ([], [])
digits_cut (c ∷ s) =
    let (ds, rest) = digits_cut s in if is_digit c then (c ∷ ds, rest) else ([], c ∷ s)

abbrev counted : Option ℕ → Match ℕ
counted none rest = none
counted (some n) rest = some (n, rest)

abbrev pub before : Bytes → Option (Bytes × Bytes) → Option (Bytes × Bytes)
before t none = none
before t (some (u, rest)) = some (t ++ u, rest)

-- `(\d+)`, and the `int` of it
unfoldable pub number : Match ℕ
number s = let (ds, rest) = digits_cut s in counted (natural ds) rest

-- A text of a given shape: `d` in the shape stands for a digit, other characters for themselves.
unfoldable pub shaped : Bytes → Match Bytes
shaped [] s = some ([], s)
shaped (p ∷ ps) [] = none
shaped (p ∷ ps) (c ∷ s) =
    let rest = before (c ∷ []) (shaped ps s) in
    if (if p == b'd' then is_digit c else p == c) then rest else none

-- `((?:[^"]|"")*)"`: up to a quotation mark that is not doubled
unfoldable pub quoted : Match Bytes
quoted [] = none
quoted (c ∷ []) = if c == b'"' then some ([], []) else none
quoted (c ∷ d ∷ s) =
    let pair = before (c ∷ d ∷ []) (quoted s) in
    let one = before (c ∷ []) (quoted (d ∷ s)) in
    if c == b'"' then (if d == b'"' then pair else some ([], d ∷ s)) else one

-- `$` at the end of a text with no newline at its end
unfoldable pub at_end : Match (Unit {0})
at_end [] = some (tt, [])
at_end (c ∷ s) = none

digits_cut-append :
    (s rest : Bytes) (c : ℕ)
    → All IsDigit s
    → is_digit c ≡ false
    → digits_cut (s ++ c ∷ rest) ≡ (s, c ∷ rest)
unfolding digits_cut is_digit
digits_cut-append [] rest c h e = rw e
digits_cut-append (d ∷ s) rest c h e = ground (arith, digits_cut-append s rest c h.1 e)

digits_cut-all : (s : Bytes) → All IsDigit s → digits_cut s ≡ (s, [])
unfolding digits_cut is_digit
digits_cut-all [] h = refl
digits_cut-all (d ∷ s) h = ground (arith, digits_cut-all s h.1)

pub number-str :
    (n c : ℕ) (rest : Bytes) → is_digit c ≡ false → number (str n ++ c ∷ rest) ≡ some (n, c ∷ rest)
unfolding number
number-str n c rest e = rw (digits_cut-append (str n) rest c (str-All n) e, natural-str n)

pub number-str_end : (n : ℕ) → number (str n) ≡ some (n, [])
unfolding number
number-str_end n = rw (digits_cut-all (str n) (str-All n), natural-str n)

pub shaped-append :
    (shape s rest : Bytes)
    → shaped shape s ≡ some (s, [])
    → shaped shape (s ++ rest) ≡ some (s, rest)
unfolding shaped
shaped-append [] [] rest h = refl
shaped-append [] (c ∷ s) rest h = ground arith
shaped-append (p ∷ ps) [] rest h = ground arith
shaped-append (p ∷ ps) (c ∷ s) rest h = ground (arith, same (shaped ps s), shaped-append ps s rest)
  where
    same : (o : Option (Bytes × Bytes)) → before (c ∷ []) o ≡ some (c ∷ s, []) → o ≡ some (s, [])
    same none h = cc
    same (some (t, u)) h = cc
