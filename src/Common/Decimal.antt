-- ===== src/Common/Decimal.antt =====
-- `str(n)` and `int(s)` of Python.
use blitzmail.Common.Tests.{ltb, leb, ◌==◌, if◌then◌else◌, Bool-cases}
use blitzmail.Common.Lists.{All}
use blitzmail.Common.Text.{Bytes, codes}
use blitzmail.Common.Int.{ℤ, pos, negsuc}
use Prim.Native.Nat.{ℕ, zero, suc, ◌+◌, ◌-◌, ◌*◌, ◌/◌, ◌%◌, ◌≤◌, ◌<◌}
use mathlib.Core.Path.{◌≡◌, refl, ap, ◌∙◌}
use mathlib.Core.Logic.{◌≢◌, inl, inr}
use mathlib.Core.Bool.{Bool, true, ◌&&◌, ◌||◌}
use mathlib.Core.Option
use mathlib.Core.Option.{Option, none, some}
use mathlib.Core.List.{[], ◌∷◌, ◌++◌}
use native.Mathlib.Omega.{arith}

-- the digits of `n`, least significant last; the fuel is more than the number of digits
digits : ℕ → ℕ → Bytes → Bytes
digits zero n out = out
digits (suc f) n out =
    let rest = digits f (n / 10) ((b'0' + n % 10) ∷ out) in
    if ltb n 10 then (b'0' + n) ∷ out else rest

unfoldable pub str : ℕ → Bytes
unfolding digits
str n = digits (suc n) n []

-- the value of a run of digits after the value `n` of those already read
unfoldable pub scan : Bytes → ℕ → Option ℕ
scan [] n = some n
scan (c ∷ s) n = if leb b'0' c && leb c b'9' then scan s (n * 10 + (c - b'0')) else none

unfoldable pub natural : Bytes → Option ℕ
unfolding scan
natural [] = none
natural (c ∷ s) = scan (c ∷ s) 0

scan-digits : (f n : ℕ) (out : Bytes) → n < f → scan (digits f n out) 0 ≡ scan out n
unfolding scan digits
scan-digits zero n out h = elim h [ ]
scan-digits (suc f) n out h = ground (arith, scan-digits f (n / 10) ((b'0' + n % 10) ∷ out))

digits-nonempty : (f n : ℕ) (out : Bytes) → n < f → (c : ℕ) × (s : Bytes) × (digits f n out ≡ c ∷ s)
unfolding digits
digits-nonempty zero n out h = elim h [ ]
digits-nonempty (suc f) n out h = elim (Bool-cases (ltb n 10)) [
  | inl small ↦ (b'0' + n, out, rw small)
  | inr large ↦ rw large (digits-nonempty f (n / 10) ((b'0' + n % 10) ∷ out) (ground arith))
]

-- `int` reads back what `str` wrote.
pub natural-str : (n : ℕ) → natural (str n) ≡ some n
unfolding natural str
natural-str n = ground (arith, scan-digits (suc n) n [], digits-nonempty (suc n) n [])

unfoldable pub is_space : ℕ → Bool
is_space c = c == 32 || leb 9 c && leb c 13

all_space : Bytes → Bool
unfolding is_space
all_space [] = true
all_space (c ∷ s) = is_space c && all_space s

-- `s.lstrip()`, `s.rstrip()`
unfoldable pub lstrip : Bytes → Bytes
unfolding is_space
lstrip [] = []
lstrip (c ∷ s) = if is_space c then lstrip s else c ∷ s

unfoldable pub rstrip : Bytes → Bytes
unfolding all_space
rstrip [] = []
rstrip (c ∷ s) = let rest = rstrip s in if all_space (c ∷ s) then [] else c ∷ rest

negate : ℕ → ℤ
negate zero = pos 0
negate (suc n) = negsuc n

signed : Bytes → Option ℤ
unfolding natural negate
signed [] = none
signed (c ∷ s) =
    if c == b'-'
    then Option.map negate (natural s)
    else if c == b'+'
    then Option.map pos (natural s)
    else Option.map pos (natural (c ∷ s))

-- `int(s)`; `none` stands for the ValueError
unfoldable pub int : Bytes → Option ℤ
unfolding signed lstrip rstrip
int s = signed (rstrip (lstrip s))

int_tests :
    (int (codes " 12\r\n") ≡ some (pos 12))
    × (int (codes "-3") ≡ some (negsuc 2))
    × (int (codes "1 2") ≡ none)
    × (int [] ≡ none)
unfolding int
int_tests = (refl, refl, refl, refl)

abbrev pub IsDigit : ℕ → Type 0
IsDigit c = (b'0' ≤ c) × (c ≤ b'9')

digits-All : (f n : ℕ) (out : Bytes) → n < f → All IsDigit out → All IsDigit (digits f n out)
unfolding digits
digits-All zero n out h d = d
digits-All (suc f) n out h d = elim (Bool-cases (ltb n 10)) [
  | inl small ↦ rw small ((ground arith, ground arith), d)
  | inr large ↦
      rw large (
        digits-All f (n / 10) ((b'0' + n % 10) ∷ out) (ground arith)
          ((omega arith, omega arith), d))
]

pub str-All : (n : ℕ) → All IsDigit (str n)
unfolding str
str-All n = digits-All (suc n) n [] (omega arith) tt

pub str-nonempty : (n : ℕ) → (c : ℕ) × (s : Bytes) × (str n ≡ c ∷ s)
unfolding str
str-nonempty n = digits-nonempty (suc n) n [] (omega arith)

-- A digit is no space and no sign, so digits are read as they stand.
lstrip-digits : (s : Bytes) → All IsDigit s → lstrip s ≡ s
unfolding lstrip
lstrip-digits [] d = refl
lstrip-digits (c ∷ s) d = ground arith

pub rstrip-digits : (s : Bytes) → All IsDigit s → rstrip s ≡ s
unfolding rstrip
rstrip-digits [] d = refl
rstrip-digits (c ∷ s) d = ground (arith, rstrip-digits s d.1)

signed-digits : (c : ℕ) (s : Bytes) → IsDigit c → signed (c ∷ s) ≡ Option.map pos (natural (c ∷ s))
unfolding signed
signed-digits c s d = ground arith

pub int-digits : (s : Bytes) → All IsDigit s → s ≢ [] → int s ≡ Option.map pos (natural s)
unfolding int
int-digits [] d h = absurd (h refl)
int-digits (c ∷ s) d h =
    rw (lstrip-digits (c ∷ s) d, rstrip-digits (c ∷ s) d) (signed-digits c s d.0)

-- `int(str(n)) == n`
pub int-str : (n : ℕ) → int (str n) ≡ some (pos n)
int-str n =
    let (c, s, e) = str-nonempty n in
    int-digits (str n) (str-All n) (λ h. cc) ∙ ap (Option.map pos) (natural-str n)

-- a sign before digits is read as a sign
int-minus : (s : Bytes) → All IsDigit s → int (b'-' ∷ s) ≡ Option.map negate (natural s)
unfolding int signed lstrip rstrip
int-minus s d = ground (arith, rstrip-digits s d)

-- `int(str(-n)) == -n` for a negative number
pub int-negative : (n : ℕ) → int (b'-' ∷ str (suc n)) ≡ some (negsuc n)
unfolding negate
int-negative n = rw (int-minus (str (suc n)) (str-All (suc n)), natural-str (suc n))

all_space-crlf : (s : Bytes) → all_space (s ++ 13 ∷ 10 ∷ []) ≡ all_space s
unfolding all_space is_space
all_space-crlf [] = refl
all_space-crlf (c ∷ s) = rw (all_space-crlf s)

-- the end of a line goes with the spaces at its end
pub rstrip-crlf : (s : Bytes) → rstrip (s ++ 13 ∷ 10 ∷ []) ≡ rstrip s
unfolding rstrip all_space is_space
rstrip-crlf [] = refl
rstrip-crlf (c ∷ s) = rw (rstrip-crlf s, all_space-crlf s)
