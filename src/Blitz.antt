-- ===== src/Blitz.antt =====
-- class BlitzSession of session.py: its answers, with the flag of warnings in them, and the steps
-- of which the methods of the mail classes are made.
pub mod Online
pub mod Listing
use blitzmail.Common.{
  ℕ, zero, suc, ◌-◌, ◌/◌, ◌%◌, Bytes, codes, Bool, true, not, any, take, drop, ◌==◌, List, [], ◌∷◌,
  Option, none, some, ℤ, pos, negsuc, if◌then◌else◌,
}
use blitzmail.Common.Decimal.{int}
use blitzmail.Errors.{Result, ok, err, value_error, not_connected, protocol_error, blocked}
use blitzmail.Link.{Link, raw_send, next_answer}

pub record Blitz : Type 0 where
  pub link : Link
  pub warn_flag : Bool

-- `key % 100`, and is `key / 100` other than 0? Both round down.
unfoldable pub value_of : ℤ → ℕ
value_of (pos n) = n % 100
value_of (negsuc n) = 99 - n % 100

unfoldable pub is_flagged : ℤ → Bool
is_flagged (pos n) = not (n / 100 == 0)
is_flagged (negsuc n) = true

accepted : List ℕ → Result (ℤ × Bytes) × Link → Bool → Result (ℕ × Bytes) × Blitz
unfolding value_of is_flagged
accepted wanted (ok (key, text), l) warn =
    if any (λ k. k % 100 == value_of key) wanted
    then (ok (value_of key, text), record { link = l; warn_flag = is_flagged key })
    else (err (protocol_error key text), record { link = l; warn_flag = warn })
accepted wanted (err x, l) warn = (err x, record { link = l; warn_flag = warn })

-- _expect
unfoldable pub expect_value : List ℕ → Blitz → Result (ℕ × Bytes) × Blitz
unfolding accepted
expect_value wanted b = accepted wanted (next_answer b.link) b.warn_flag

-- a method on an object `S`: it ends with a value or an exception, and leaves the object changed
abbrev pub Call : Type 0 → Type 0 → Type 0
Call S A = S → Result A × S

abbrev pub go_on : {S A B : Type 0} → (A → Call S B) → Result A × S → Result B × S
go_on rest (ok a, s) = rest a s
go_on rest (err x, s) = (err x, s)

infixl 5 ◌>>=◌ ◌>>◌
abbrev pub ◌>>=◌ : {S A B : Type 0} → Call S A → (A → Call S B) → Call S B
◌>>=◌ m rest s = go_on rest (m s)

abbrev pub ◌>>◌ : {S A B : Type 0} → Call S A → Call S B → Call S B
◌>>◌ m rest s = go_on (λ _. rest) (m s)

abbrev pub return : {S A : Type 0} → A → Call S A
return a s = (ok a, s)

abbrev pub raise : {S A : Type 0} → Result A → Call S A
raise r s = (r, s)

-- _rawsend, _cmd0 and the like: the text goes out as it is
unfoldable pub tell : Bytes → Call Blitz (Unit {0})
tell text b = let (r, l) = raw_send text b.link in (r, record { link = l; warn_flag = b.warn_flag })

-- _expect with one code, where the text of the answer is all that is used
unfoldable pub hear : ℕ → Call Blitz Bytes
hear n = do answer ← expect_value (n ∷ []); return answer.1

-- `int(data)`
unfoldable pub to_int : Bytes → Result ℤ
to_int text = elim (int text) [ some z ↦ ok z | none ↦ err value_error ]

-- _read: a file's `read` stops at the end of the input, and a negative size reads to the end
unfoldable pub read_block : ℤ → Call Blitz Bytes
read_block size b =
    let input = b.link.input in
    let done : Bytes × Bytes = elim size [
      | pos n ↦ (take n input, drop n input)
      | negsuc _ ↦ (input, [])
    ] in
    if b.link.is_connected
    then (ok done.0, record b { link = record b.link { input = done.1 } })
    else (err not_connected, b)

-- An answer 50 with a size, a block of that size, and an answer 10: how the server gives a text.
unfoldable pub hear_block : Call Blitz Bytes
hear_block = do size ← hear 50; n ← raise (to_int size); block ← read_block n; hear 10; return block

-- The loops over answers, on fuel, an answer for each turn: of each answer something is made, and
-- the loop goes on until one is the last.
unfoldable pub until :
    {A : Type 0}
    → ℕ
    → List ℕ
    → (ℕ → Bool)
    → (ℕ × Bytes → Result A)
    → ℕ × Bytes
    → Call Blitz (List A)
until zero wanted last make answer = raise (err blocked)
until (suc f) wanted last make answer = do
  x ← raise (make answer)
  if last answer.0
      then return (x ∷ [])
      else (do next ← expect_value wanted; xs ← until f wanted last make next; return (x ∷ xs))

-- `while key != 0`, where the answers are 0 or 1 and their texts are what is made of
unfoldable pub listing : {A : Type 0} → ℕ → (Bytes → Result A) → ℕ × Bytes → Call Blitz (List A)
unfolding until
listing f make = until f (0 ∷ 1 ∷ []) (λ n. n == 0) (λ a. make a.1)
