-- ===== src/Common/Slices.antt =====
-- Parts of lists: a prefix of a list, and a part of a prefix.
use Prim.Native.Nat.{ℕ, zero, suc, ◌+◌, ◌-◌, min, ◌≤◌}
use mathlib.Core.Path.{◌≡◌, refl, ap}
use mathlib.Core.List.{List, [], ◌∷◌, ◌++◌}
use native.Mathlib.Omega.{arith}
use blitzmail.Common.Lists.{length, take, drop}

module _ {ℓ} {A : Type ℓ} where
  abbrev pub IsPrefix : List A → List A → Type ℓ
  IsPrefix t xs = t ≡ take (length t) xs

  pub length-take : (n : ℕ) (xs : List A) → length (take n xs) ≡ min n (length xs)
  length-take zero xs = omega arith
  length-take (suc n) [] = omega arith
  length-take (suc n) (x ∷ xs) = omega (arith, length-take n xs)

  pub length-drop : (n : ℕ) (xs : List A) → length (drop n xs) ≡ length xs - n
  length-drop zero xs = omega arith
  length-drop (suc n) [] = omega arith
  length-drop (suc n) (x ∷ xs) = omega (arith, length-drop n xs)

  pub take-nil : (n : ℕ) → take {A = A} n [] ≡ []
  take-nil zero = refl
  take-nil (suc n) = refl

  pub drop-nil : (n : ℕ) → drop {A = A} n [] ≡ []
  drop-nil zero = refl
  drop-nil (suc n) = refl

  pub drop-drop : (i j : ℕ) (xs : List A) → drop i (drop j xs) ≡ drop (j + i) xs
  drop-drop i zero xs = ap (λ k. drop k xs) (omega arith)
  drop-drop i (suc j) [] = let next : suc j + i ≡ suc (j + i) = omega arith in rw next (drop-nil i)
  drop-drop i (suc j) (x ∷ xs) =
      let next : suc j + i ≡ suc (j + i) = omega arith in rw next (drop-drop i j xs)

  pub drop-all : (n : ℕ) (xs : List A) → length xs ≤ n → drop n xs ≡ []
  drop-all zero [] h = refl
  drop-all zero (x ∷ xs) h = absurd (omega arith)
  drop-all (suc n) [] h = refl
  drop-all (suc n) (x ∷ xs) h = drop-all n xs (omega arith)

  pub IsPrefix-take : (n : ℕ) (xs : List A) → IsPrefix (take n xs) xs
  IsPrefix-take zero xs = refl
  IsPrefix-take (suc n) [] = refl
  IsPrefix-take (suc n) (x ∷ xs) = ap (λ t. x ∷ t) (IsPrefix-take n xs)

  -- a prefix of what is left after the first `k`, put behind those
  pub IsPrefix-before :
      (k : ℕ) (xs t : List A) → IsPrefix t (drop k xs) → IsPrefix (take k xs ++ t) xs
  IsPrefix-before zero xs t h = h
  IsPrefix-before (suc k) [] t h = h
  IsPrefix-before (suc k) (x ∷ xs) t h = ap (λ t. x ∷ t) (IsPrefix-before k xs t h)

  -- a prefix continued by what comes next
  pub IsPrefix-after :
      (k : ℕ) (t xs : List A) → IsPrefix t xs → IsPrefix (t ++ take k (drop (length t) xs)) xs
  IsPrefix-after k [] xs h = IsPrefix-take k xs
  IsPrefix-after k (y ∷ t) [] h = cc
  IsPrefix-after k (y ∷ t) (x ∷ xs) h =
      let tail : t ≡ take (length t) xs = cc in
      let head : y ≡ x = cc in rw head (ap (λ t. x ∷ t) (IsPrefix-after k t xs tail))

  take-prefix :
      (n : ℕ) (t xs : List A) → IsPrefix t xs → min n (length xs) ≤ length t → take n t ≡ take n xs
  take-prefix zero t xs h le = refl
  take-prefix (suc n) [] [] h le = refl
  take-prefix (suc n) [] (x ∷ xs) h le = absurd (omega arith)
  take-prefix (suc n) (y ∷ t) [] h le = cc
  take-prefix (suc n) (y ∷ t) (x ∷ xs) h le =
      let tail : t ≡ take (length t) xs = cc in
      let head : y ≡ x = cc in rw head (ap (λ t. x ∷ t) (take-prefix n t xs tail (omega arith)))

  -- A part of a prefix that reaches as far as the part, or to the end, is that part of the whole.
  pub take-drop-prefix :
      (n i : ℕ) (t xs : List A)
      → IsPrefix t xs
      → min (i + n) (length xs) ≤ length t
      → take n (drop i t) ≡ take n (drop i xs)
  take-drop-prefix n zero t xs h le = take-prefix n t xs h (omega arith)
  take-drop-prefix n (suc i) [] [] h le = refl
  take-drop-prefix zero (suc i) [] (x ∷ xs) h le = refl
  take-drop-prefix (suc n) (suc i) [] (x ∷ xs) h le = absurd (omega arith)
  take-drop-prefix n (suc i) (y ∷ t) [] h le = cc
  take-drop-prefix n (suc i) (y ∷ t) (x ∷ xs) h le =
      let tail : t ≡ take (length t) xs = cc in take-drop-prefix n i t xs tail (omega arith)
