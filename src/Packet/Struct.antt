-- ===== src/Packet/Struct.antt =====
-- The formats of Python's `struct` that the packets use: B, H and I, big-endian. `pack` raises on a
-- value out of range, `unpack` on a text of another size than the format's.
use blitzmail.Common.{
  ◌≤◌, ◌⊎◌, inl, inr, Bool-cases, refl, AreBytes, length, ℕ, ◌+◌, ◌*◌, ◌/◌, ◌%◌, ◌^◌, ◌<◌, ◌≡◌,
  arith, Bytes, [], ◌∷◌, ◌++◌, List, ltb, if◌then◌else◌, ℤ, pos, negsuc,
}
use blitzmail.Errors.{Result, ok, err, struct_error, ◌>>=◌}

unfoldable pub be16 : ℕ → Bytes
be16 n = n / 256 ∷ n % 256 ∷ []

unfoldable pub be32 : ℕ → Bytes
be32 n = n / 2 ^ 24 ∷ n / 2 ^ 16 % 256 ∷ n / 2 ^ 8 % 256 ∷ n % 256 ∷ []

unfoldable pub of_be16 : ℕ → ℕ → ℕ
of_be16 a b = a * 256 + b

unfoldable pub of_be32 : ℕ → ℕ → ℕ → ℕ → ℕ
of_be32 a b c d = a * 2 ^ 24 + b * 2 ^ 16 + c * 2 ^ 8 + d

-- `struct.pack('>B', n)`, `'>H'`, `'>I'`
unfoldable pub pack_b : ℤ → Result Bytes
pack_b (pos n) = if ltb n 256 then ok (n ∷ []) else err struct_error
pack_b (negsuc n) = err struct_error

unfoldable pub pack_h : ℤ → Result Bytes
unfolding be16
pack_h (pos n) = if ltb n (2 ^ 16) then ok (be16 n) else err struct_error
pack_h (negsuc n) = err struct_error

unfoldable pub pack_i : ℤ → Result Bytes
unfolding be32
pack_i (pos n) = if ltb n (2 ^ 32) then ok (be32 n) else err struct_error
pack_i (negsuc n) = err struct_error

-- the fields of a format are packed in turn
unfoldable pub pack_is : List ℤ → Result Bytes
unfolding pack_i
pack_is [] = ok []
pack_is (n ∷ ns) = do head ← pack_i n; rest ← pack_is ns; ok (head ++ rest)

-- One field is read off the front; the caller sees to it that nothing is left over.
unfoldable pub read_h : Bytes → Result (ℕ × Bytes)
unfolding of_be16
read_h (a ∷ b ∷ rest) = ok (of_be16 a b, rest)
read_h (a ∷ []) = err struct_error
read_h [] = err struct_error

unfoldable pub read_i : Bytes → Result (ℕ × Bytes)
unfolding of_be32
read_i (a ∷ b ∷ c ∷ d ∷ rest) = ok (of_be32 a b c d, rest)
read_i (a ∷ b ∷ c ∷ []) = err struct_error
read_i (a ∷ b ∷ []) = err struct_error
read_i (a ∷ []) = err struct_error
read_i [] = err struct_error

unfoldable pub read_end : Bytes → Result (Unit {0})
read_end [] = ok tt
read_end (b ∷ rest) = err struct_error

pub read_i-be32 : (n : ℕ) (rest : Bytes) → n < 2 ^ 32 → read_i (be32 n ++ rest) ≡ ok (n, rest)
unfolding read_i be32
read_i-be32 n rest h = ground arith

pub read_h-be16 : (n : ℕ) (rest : Bytes) → n < 2 ^ 16 → read_h (be16 n ++ rest) ≡ ok (n, rest)
unfolding read_h be16
read_h-be16 n rest h = ground arith

pub pack_i-eq-ok : (n : ℕ) → n < 2 ^ 32 → pack_i (pos n) ≡ ok (be32 n)
unfolding pack_i
pack_i-eq-ok n h = ground arith

pub pack_h-eq-ok : (n : ℕ) → n < 2 ^ 16 → pack_h (pos n) ≡ ok (be16 n)
unfolding pack_h
pack_h-eq-ok n h = ground arith

pub be32-of_be32 :
    (a b c d : ℕ)
    → a < 256
    → b < 256
    → c < 256
    → d < 256
    → be32 (of_be32 a b c d) ≡ a ∷ b ∷ c ∷ d ∷ []
unfolding be32 of_be32
be32-of_be32 a b c d ha hb hc hd = ground arith

pub be16-of_be16 : (a b : ℕ) → a < 256 → b < 256 → be16 (of_be16 a b) ≡ a ∷ b ∷ []
unfolding be16 of_be16
be16-of_be16 a b ha hb = ground arith

pub of_be32-lt : (a b c d : ℕ) → a < 256 → b < 256 → c < 256 → d < 256 → of_be32 a b c d < 2 ^ 32
unfolding of_be32
of_be32-lt a b c d ha hb hc hd = omega arith

pub of_be16-lt : (a b : ℕ) → a < 256 → b < 256 → of_be16 a b < 2 ^ 16
unfolding of_be16
of_be16-lt a b ha hb = omega arith

pub pack_i-length : (n : ℤ) (b : Bytes) → pack_i n ≡ ok b → length b ≡ 4
unfolding pack_i
pack_i-length (pos n) b h = ground arith
pack_i-length (negsuc n) b h = cc

-- What was packed was a number that fits.
pub pack_i-inv : (z : ℤ) (b : Bytes) → pack_i z ≡ ok b → (n : ℕ) × (z ≡ pos n) × (n < 2 ^ 32)
unfolding pack_i
pack_i-inv (pos n) b h = (n, refl, ground arith)
pack_i-inv (negsuc n) b h = cc

pub length-be32 : (n : ℕ) → length (be32 n) ≡ 4
unfolding be32
length-be32 n = refl

pub be32-AreBytes : (n : ℕ) → n < 2 ^ 32 → AreBytes (be32 n)
unfolding be32
be32-AreBytes n h = omega arith

pub be16-AreBytes : (n : ℕ) → n < 2 ^ 16 → AreBytes (be16 n)
unfolding be16
be16-AreBytes n h = omega arith

pub of_be32-digits :
    (n : ℕ) → n < 2 ^ 32 → of_be32 (n / 2 ^ 24) (n / 2 ^ 16 % 256) (n / 2 ^ 8 % 256) (n % 256) ≡ n
unfolding of_be32
of_be32-digits n h = omega arith

pub of_be16-digits : (n : ℕ) → of_be16 (n / 256) (n % 256) ≡ n
unfolding of_be16
of_be16-digits n = omega arith

-- packing an integer fails in one way only
pub pack_i-cases : (z : ℤ) → ((b : Bytes) × (pack_i z ≡ ok b)) ⊎ (pack_i z ≡ err struct_error)
unfolding pack_i
pack_i-cases (negsuc n) = inr refl
pack_i-cases (pos n) = elim (Bool-cases (ltb n (2 ^ 32))) [
  | inl e ↦ inl (be32 n, rw e)
  | inr e ↦ inr (rw e)
]

pub pack_i_too_large : (n : ℕ) → 2 ^ 32 ≤ n → pack_i (pos n) ≡ err struct_error
unfolding pack_i
pack_i_too_large n h = ground arith
