-- ===== src/Link/Answer.antt =====
-- What the peer writes is what a session reads.
use blitzmail.Common.{
  ℕ, zero, suc, ◌≤◌, ◌<◌, ◌≡◌, ◌≢◌, refl, sym, ap, ◌∙◌, arith, Bytes, codes, eq_bytes, eq_ℤ, Bool,
  true, false, any, All, All-append, eq_bytes→eq, List, [], ◌∷◌, ◌++◌, append_assoc, length,
  length-append, some, ℤ, if◌then◌else◌, Bool-cases, inl, inr,
}
use blitzmail.Common.Decimal.{int, IsDigit, rstrip, rstrip-crlf}
use blitzmail.Common.Lines.{readline, split_space}
use blitzmail.Errors.{ok, err, protocol_error, not_connected}
use blitzmail.Link.{
  Link, answer, answer_of, read_answer, next_answer, wanted, expect, lines_up_to, read_lines,
}

-- a line without its end: no newline in it, and no space of any kind at its end
pub record IsLine (s : Bytes) : Type 0 where
  pub inside : All (λ c. c ≢ 10) s
  pub trimmed : rstrip s ≡ s

abbrev crlf : Bytes
crlf = 13 ∷ 10 ∷ []

readline-crlf :
    (s rest : Bytes)
    → All (λ c. c ≢ 10) s
    → readline (s ++ 13 ∷ 10 ∷ rest) ≡ (s ++ 13 ∷ 10 ∷ [], rest)
unfolding readline
readline-crlf [] rest h = refl
readline-crlf (c ∷ s) rest h = ground (arith, readline-crlf s rest h.1)

split_space-digits :
    (s rest : Bytes) → All IsDigit s → split_space (s ++ 32 ∷ rest) ≡ (s, some rest)
unfolding split_space
split_space-digits [] rest h = refl
split_space-digits (c ∷ s) rest h = ground (arith, split_space-digits s rest h.1)

-- a code of digits, a space and a text, as a line
pub reply : Bytes → Bytes → Bytes
reply code text = code ++ 32 ∷ (text ++ 13 ∷ 10 ∷ [])

pub inside_digits : (s : Bytes) → All IsDigit s → All (λ c. c ≢ 10) s
inside_digits [] h = tt
inside_digits (c ∷ s) h = (λ e. ground (arith, h.0, e), inside_digits s h.1)

readline-reply :
    (code text rest : Bytes)
    → All IsDigit code
    → IsLine text
    → readline (reply code text ++ rest) ≡ (reply code text, rest)
unfolding reply
readline-reply code text rest d t =
    let a = code ++ 32 ∷ text in
    let inside : All (λ c. c ≢ 10) a =
      All-append (λ c. c ≢ 10) code (32 ∷ text) (inside_digits code d)
        (λ e. ground (arith, e), t.inside) in
    rw (sym (append_assoc code (32 ∷ text) crlf), append_assoc a crlf rest)
      (readline-crlf a rest inside)

read_answer-reply :
    (code text rest : Bytes) (l : Link)
    → read_answer (reply code text, rest) l ≡ (answer (reply code text), record l { input = rest })
unfolding read_answer reply
read_answer-reply [] text rest l = refl
read_answer-reply (c ∷ code) text rest l = refl

answer-reply :
    (code text : Bytes) (key : ℤ)
    → All IsDigit code
    → int code ≡ some key
    → IsLine text
    → answer (reply code text) ≡ ok (key, text)
unfolding answer answer_of reply
answer-reply code text key d e t =
    rw (split_space-digits code (text ++ 13 ∷ 10 ∷ []) d, e, rstrip-crlf text, t.trimmed)

next_answer-reply :
    (l : Link) (code text rest : Bytes)
    → l.is_connected ≡ true
    → l.input ≡ reply code text ++ rest
    → All IsDigit code
    → IsLine text
    → next_answer l ≡ (answer (reply code text), record l { input = rest })
unfolding next_answer
next_answer-reply l code text rest up e d t =
    go l.is_connected (readline l.input) up (ap readline e ∙ readline-reply code text rest d t)
  where
    go :
        (b : Bool) (r : Bytes × Bytes)
        → b ≡ true
        → r ≡ (reply code text, rest)
        → (if b then read_answer r l else (err not_connected, l))
          ≡ (answer (reply code text), record l { input = rest })
    go b r up e = rw (up, e) (read_answer-reply code text rest l)

pub next_answer-ok :
    (l : Link) (code text rest : Bytes) (key : ℤ)
    → l.is_connected ≡ true
    → l.input ≡ reply code text ++ rest
    → All IsDigit code
    → int code ≡ some key
    → IsLine text
    → next_answer l ≡ (ok (key, text), record l { input = rest })
next_answer-ok l code text rest key up e d i t =
    rw (next_answer-reply l code text rest up e d t, answer-reply code text key d i t)

-- An answer of the peer, a code and a text, is what `_expect` returns if the code is one of those it
-- is given, and else the ProtocolError that it raises; the input goes on after the line.
pub expect-reply :
    (keys : List ℤ) (l : Link) (code text rest : Bytes) (key : ℤ)
    → l.is_connected ≡ true
    → l.input ≡ reply code text ++ rest
    → All IsDigit code
    → int code ≡ some key
    → IsLine text
    → expect keys l ≡ (
      if any (λ k. eq_ℤ k key) keys then ok (key, text) else err (protocol_error key text),
      record l { input = rest },
    )
unfolding expect wanted
expect-reply keys l code text rest key up e d i t =
    rw (next_answer-ok l code text rest key up e d i t)

-- the lines of a text, closed by a line with a dot
pub write_lines : List Bytes → Bytes
write_lines [] = b'.' ∷ 13 ∷ 10 ∷ []
write_lines (s ∷ ss) = s ++ 13 ∷ 10 ∷ write_lines ss

dot_lem : rstrip (codes ".") ≡ codes "."
unfolding rstrip
dot_lem = refl

not_dot : (s : Bytes) → s ≢ codes "." → eq_bytes s (codes ".") ≡ false
not_dot s h = elim (Bool-cases (eq_bytes s (codes "."))) [
  | inl e ↦ absurd (h (eq_bytes→eq s (codes ".") e))
  | inr e ↦ e
]

-- one turn of the loop, on a line that is no dot
next_line :
    (f : ℕ) (s more input : Bytes) (ss : List Bytes) (rest : Bytes)
    → readline input ≡ (s ++ crlf, more)
    → IsLine s
    → s ≢ codes "."
    → lines_up_to f more ≡ some (ss, rest)
    → lines_up_to (suc f) input ≡ some (s ∷ ss, rest)
unfolding lines_up_to
next_line f s more input ss rest read h dot later =
    rw (read, rstrip-crlf s, h.trimmed, not_dot s dot, later) (rw (read, rstrip-crlf s, h.trimmed))

-- Lines that are no single dot are read back by `_readlines`, and the input goes on after the dot: a
-- turn of its loop for each line and one for the dot are enough.
lines_up_to-write_lines :
    (f : ℕ) (ss : List Bytes) (rest : Bytes)
    → length ss < f
    → All IsLine ss
    → All (λ s. s ≢ codes ".") ss
    → lines_up_to f (write_lines ss ++ rest) ≡ some (ss, rest)
unfolding lines_up_to write_lines
lines_up_to-write_lines zero ss rest enough h dots = absurd (omega (arith, enough))
lines_up_to-write_lines (suc f) [] rest enough h dots =
    rw (
      readline-crlf (codes ".") rest (λ e. ground (arith, e), tt),
      rstrip-crlf (codes "."),
      dot_lem,
    )
lines_up_to-write_lines (suc f) (s ∷ ss) rest enough h dots =
    let read : readline (write_lines (s ∷ ss) ++ rest) ≡ (s ++ crlf, write_lines ss ++ rest) =
      rw (append_assoc s (13 ∷ 10 ∷ write_lines ss) rest)
        (readline-crlf s (write_lines ss ++ rest) h.0.inside) in
    next_line f s (write_lines ss ++ rest) (write_lines (s ∷ ss) ++ rest) ss rest read h.0 dots.0
      (lines_up_to-write_lines f ss rest (omega (arith, enough)) h.1 dots.1)

length-write_lines : (ss : List Bytes) (rest : Bytes) → length ss ≤ length (write_lines ss ++ rest)
unfolding write_lines
length-write_lines [] rest = omega arith
length-write_lines (s ∷ ss) rest =
    rw
      (
        append_assoc s (13 ∷ 10 ∷ write_lines ss) rest,
        length-append s (13 ∷ 10 ∷ (write_lines ss ++ rest)),
      )
      (omega (arith, length-write_lines ss rest))

-- a connection that is up: what is to be read, and what was sent
abbrev pub up : Bytes → Bytes → Link
up input sent = record { is_connected = true; input = input; sent = sent }

-- Lines that are no single dot are what `_readlines` returns.
pub read_lines-write_lines :
    (ss : List Bytes) (rest sent : Bytes)
    → All IsLine ss
    → All (λ s. s ≢ codes ".") ss
    → read_lines (up (write_lines ss ++ rest) sent) ≡ (ok ss, up rest sent)
unfolding read_lines
read_lines-write_lines ss rest sent h dots =
    let input = write_lines ss ++ rest in
    rw (
      lines_up_to-write_lines (suc (length input)) ss rest
        (omega (arith, length-write_lines ss rest)) h dots)
