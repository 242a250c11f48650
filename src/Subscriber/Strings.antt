-- ===== src/Subscriber/Strings.antt =====
-- The strings in a notification: each is preceded by its length.
use blitzmail.Common.{
  ℕ, zero, suc, ◌≤◌, ◌≡◌, refl, ap, arith, Bytes, List, [], ◌∷◌, ◌++◌, length, length-append,
  take-length-append, drop-length-append,
}
use blitzmail.Subscriber.{strings, data_strings}

-- the strings, written one after another
pub pack : List Bytes → Bytes
pack [] = []
pack (d ∷ ds) = length d ∷ (d ++ pack ds)

-- enough fuel is the number of strings
strings-pack : (f : ℕ) (ds : List Bytes) → length ds ≤ f → strings f (pack ds) ≡ ds
unfolding strings pack
strings-pack zero [] h = refl
strings-pack zero (d ∷ ds) h = ground arith
strings-pack (suc f) [] h = refl
strings-pack (suc f) (d ∷ ds) h =
    rw (take-length-append d (pack ds), drop-length-append d (pack ds))
      (ap (λ t. d ∷ t) (strings-pack f ds (omega (arith, h))))

length-pack : (ds : List Bytes) → length ds ≤ length (pack ds)
unfolding pack
length-pack [] = omega arith
length-pack (d ∷ ds) = omega (arith, length-pack ds, length-append d (pack ds))

-- Strings that are written as Pascal strings one after another are what data() returns.
pub data_strings-pack : (ds : List Bytes) → data_strings (pack ds) ≡ ds
unfolding data_strings
data_strings-pack ds = strings-pack (length (pack ds)) ds (length-pack ds)
