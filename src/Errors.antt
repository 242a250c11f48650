-- ===== src/Errors.antt =====
-- berror.py, and the exceptions of the language that the code raises or lets pass.
use blitzmail.Common.{◌⊎◌, inl, inr, ◌≡◌, refl, Bytes, ℤ, Bool, if◌then◌else◌}

pub data Error : Type 0 where
  value_error type_error index_error key_error name_error attribute_error struct_error : Error
  socket_error directory_error : Error
  -- no exception: the call waits for a mutex that no thread will give back
  blocked : Error
  session_error lost_connection not_connected : Error
  -- of the answer of a peer, and of a text alone
  protocol_error : ℤ → Bytes → Error
  protocol_text : Bytes → Error

-- how a call ends: with its value, or with what it raised
pub data Result {ℓ} (A : Type ℓ) : Type ℓ where
  ok : (value : A) → Result A
  err : (raised : Error) → Result A

module _ {ℓ} {A : Type ℓ} where
  pub Result-cases : (r : Result A) → ((value : A) × (r ≡ ok value)) ⊎ ((x : Error) × (r ≡ err x))
  Result-cases (ok value) = inl (value, refl)
  Result-cases (err x) = inr (x, refl)

  pub ok-injective : {v w : A} → ok v ≡ ok w → v ≡ w
  ok-injective same = cc

module _ {ℓ κ} {A : Type ℓ} {B : Type κ} where
  infixl 5 ◌>>=◌
  -- the rest of a body, which an exception skips
  abbrev pub ◌>>=◌ : Result A → (A → Result B) → Result B
  ok value >>= rest = rest value
  err x >>= rest = err x

  pub >>=-eq-ok :
      (r : Result A) (rest : A → Result B) {w : B}
      → (r >>= rest) ≡ ok w
      → (value : A) × (r ≡ ok value) × (rest value ≡ ok w)
  >>=-eq-ok (ok value) rest done = (value, refl, done)
  >>=-eq-ok (err x) rest done = cc

infixl 5 ◌>>◌
abbrev pub ◌>>◌ {κ} : {B : Type κ} → Result (Unit {0}) → Result B → Result B
check >> rest = check >>= λ passed. rest

-- `if not test: raise x`
abbrev pub require : Bool → Error → Result (Unit {0})
require test x = if test then ok tt else err x
