-- ===== src/Blitz/Listing.antt =====
-- A run of answers is read to its end.
use blitzmail.Common.{
  ℕ, suc, ◌<◌, ◌≡◌, refl, Bytes, Bool, true, false, not, any, length, ◌%◌, ◌==◌, List, [], ◌∷◌,
  ◌++◌, append_assoc,
}
use blitzmail.Errors.{Result, ok}
use blitzmail.Link.Answer.{IsLine}
use blitzmail.Blitz.{until}
use blitzmail.Blitz.Online.{online, says, expect_value-says}

-- the answers of the server, one after the other
abbrev pub says_all : ℕ → List (ℕ × Bytes) → Bytes
says_all w [] = []
says_all w ((n, text) ∷ more) = says w n text ++ says_all w more

abbrev pub IsAnswer : List ℕ → ℕ × Bytes → Type 0
IsAnswer wanted a = (a.0 < 100) × IsLine a.1 × (any (λ k. k % 100 == a.0) wanted ≡ true)

-- the flag of warnings after these
abbrev pub flag_of : ℕ → List (ℕ × Bytes) → Bool → Bool
flag_of w [] warn = warn
flag_of w (a ∷ more) warn = not (w == 0)

pub settle : (w : ℕ) (more : List (ℕ × Bytes)) → flag_of w more (not (w == 0)) ≡ not (w == 0)
settle w [] = refl
settle w (a ∷ more) = refl

module _ {A : Type 0} (wanted : List ℕ) (last : ℕ → Bool) (make : ℕ × Bytes → Result A) where
  -- What is made of the answers that follow the one at hand, of which just the last ends the loop.
  abbrev pub Made : ℕ × Bytes → List (ℕ × Bytes) → List A → Type 0
  Made a more [] = ⊥
  Made a [] (x ∷ []) = (make a ≡ ok x) × (last a.0 ≡ true)
  Made a [] (x ∷ y ∷ xs) = ⊥
  Made a (b ∷ more) (x ∷ xs) =
      (make a ≡ ok x) × (last a.0 ≡ false) × IsAnswer wanted b × Made b more xs

  pub until_lem :
      (w : ℕ) (a : ℕ × Bytes) (more : List (ℕ × Bytes)) (xs : List A) (rest sent : Bytes)
      (warn : Bool)
      → w < 10
      → Made a more xs
      → until (suc (length more)) wanted last make a (online (says_all w more ++ rest) sent warn)
        ≡ (ok xs, online rest sent (flag_of w more warn))
  unfolding until
  until_lem w a [] [] rest sent warn hw h = absurd h
  until_lem w a [] (x ∷ []) rest sent warn hw h = rw (h.0, h.1)
  until_lem w a [] (x ∷ y ∷ xs) rest sent warn hw h = absurd h
  until_lem w a (b ∷ more) [] rest sent warn hw h = absurd h
  until_lem w a (b ∷ more) (x ∷ xs) rest sent warn hw h =
      let says_b = says w b.0 b.1 in
      let says_more = says_all w more in
      rw
        (
          h.0,
          h.1,
          append_assoc says_b says_more rest,
          expect_value-says wanted w b.0 b.1 (says_more ++ rest) sent warn hw h.2.0 h.2.1 h.2.2,
        )
        (rw (until_lem w b more xs rest sent (not (w == 0)) hw h.3, settle w more))
