-- ===== src/Blitz/Online.antt =====
-- A session whose server answers: what the steps of a method make of the lines that it sends.
use blitzmail.Common.{
  ℕ, ◌+◌, ◌*◌, ◌/◌, ◌%◌, ◌<◌, ◌≡◌, refl, ◌∙◌, arith, Bytes, Bool, true, false, not, any, All,
  length, take-length-append, drop-length-append, ◌==◌, eq_ℤ, if◌then◌else◌, List, [], ◌∷◌, ◌++◌,
  append_assoc, some, pos,
}
use blitzmail.Common.Decimal.{
  int, int-digits, int-str, IsDigit, natural, str, str-All, rstrip-digits, scan,
}
use blitzmail.Errors.{ok, err, protocol_error}
use blitzmail.Link.{raw_send, expect}
use blitzmail.Link.Answer.{IsLine, inside_digits, reply, next_answer-ok, up, expect-reply}
use blitzmail.Blitz.{
  Blitz, value_of, is_flagged, accepted, expect_value, tell, hear, to_int, read_block, hear_block,
}

-- a connected session: what is to be read, what was sent, and the flag
abbrev pub online : Bytes → Bytes → Bool → Blitz
online input sent warn = record {
  link = record { is_connected = true; input = input; sent = sent };
  warn_flag = warn;
}

-- three digits: the first tells of warnings
abbrev pub code : ℕ → ℕ → Bytes
code w n = (b'0' + w) ∷ (b'0' + n / 10) ∷ (b'0' + n % 10) ∷ []

-- an answer of the server as it stands on the line
pub says : ℕ → ℕ → Bytes → Bytes
says w n text = reply (code w n) text

code-digits : (w n : ℕ) → w < 10 → n < 100 → All IsDigit (code w n)
code-digits w n hw hn =
    ((omega arith, omega arith), ((omega arith, omega arith), ((omega arith, omega arith), tt)))

natural-code : (w n : ℕ) → w < 10 → n < 100 → natural (code w n) ≡ some (w * 100 + n)
unfolding natural scan
natural-code w n hw hn = ground arith

int-code : (w n : ℕ) → w < 10 → n < 100 → int (code w n) ≡ some (pos (w * 100 + n))
int-code w n hw hn =
    int-digits (code w n) (code-digits w n hw hn) (λ e. cc) ∙ rw (natural-code w n hw hn)

value-lem : (w n : ℕ) → n < 100 → value_of (pos (w * 100 + n)) ≡ n
unfolding value_of
value-lem w n hn = omega arith

flag-lem : (w n : ℕ) → n < 100 → is_flagged (pos (w * 100 + n)) ≡ not (w == 0)
unfolding is_flagged
flag-lem w n hn = ground arith

-- An answer that is wanted is returned, and its first digit sets the flag.
pub expect_value-says :
    (wanted : List ℕ) (w n : ℕ) (text rest sent : Bytes) (warn : Bool)
    → w < 10
    → n < 100
    → IsLine text
    → any (λ k. k % 100 == n) wanted ≡ true
    → expect_value wanted (online (says w n text ++ rest) sent warn)
      ≡ (ok (n, text), online rest sent (not (w == 0)))
unfolding expect_value accepted says
expect_value-says wanted w n text rest sent warn hw hn t e = rw (
  next_answer-ok (record { is_connected = true; input = says w n text ++ rest; sent = sent })
      (code w n) text rest (pos (w * 100 + n)) refl refl (code-digits w n hw hn)
      (int-code w n hw hn) t,
  value-lem w n hn,
  flag-lem w n hn,
  e,
)

-- Any other answer is raised, with its whole code, and leaves the flag.
pub hear-unwanted :
    (k w n : ℕ) (text rest sent : Bytes) (warn : Bool)
    → w < 10
    → n < 100
    → IsLine text
    → (k % 100 == n) ≡ false
    → hear k (online (says w n text ++ rest) sent warn)
      ≡ (err (protocol_error (pos (w * 100 + n)) text), online rest sent warn)
unfolding hear expect_value accepted says
hear-unwanted k w n text rest sent warn hw hn t e = rw (
  next_answer-ok (record { is_connected = true; input = says w n text ++ rest; sent = sent })
      (code w n) text rest (pos (w * 100 + n)) refl refl (code-digits w n hw hn)
      (int-code w n hw hn) t,
  value-lem w n hn,
  e,
)

-- what was sent grows by what a method tells
pub tell-online :
    (text input sent : Bytes) (warn : Bool)
    → tell text (online input sent warn) ≡ (ok tt, online input (sent ++ text) warn)
unfolding tell raw_send
tell-online text input sent warn = refl

pub hear-says :
    (w n : ℕ) (text rest sent : Bytes) (warn : Bool)
    → w < 10
    → n < 100
    → IsLine text
    → (n % 100 == n) ≡ true
    → hear n (online (says w n text ++ rest) sent warn) ≡ (ok text, online rest sent (not (w == 0)))
unfolding hear
hear-says w n text rest sent warn hw hn t e =
    rw (expect_value-says (n ∷ []) w n text rest sent warn hw hn t (ground (arith, e)))

pub str-IsLine : (n : ℕ) → IsLine (str n)
str-IsLine n = record {
  inside = inside_digits (str n) (str-All n);
  trimmed = rstrip-digits (str n) (str-All n);
}

-- a text as the server gives it
pub gives : ℕ → Bytes → Bytes → Bytes
gives w block done = says w 50 (str (length block)) ++ (block ++ says w 10 done)

pub to_int-str : (n : ℕ) → to_int (str n) ≡ ok (pos n)
unfolding to_int
to_int-str n = rw (to_int, int-str n)

pub read_block-online :
    (block rest sent : Bytes) (warn : Bool)
    → read_block (pos (length block)) (online (block ++ rest) sent warn)
      ≡ (ok block, online rest sent warn)
unfolding read_block
read_block-online block rest sent warn =
    rw (take-length-append block rest, drop-length-append block rest)

pub hear_block-gives :
    (w : ℕ) (block done rest sent : Bytes) (warn : Bool)
    → w < 10
    → IsLine done
    → hear_block (online (gives w block done ++ rest) sent warn)
      ≡ (ok block, online rest sent (not (w == 0)))
unfolding hear_block gives
hear_block-gives w block done rest sent warn hw hd =
    let size = str (length block) in
    let after = says w 10 done ++ rest in
    let flag = not (w == 0) in
    rw
      (
        append_assoc (says w 50 size) (block ++ says w 10 done) rest,
        append_assoc block (says w 10 done) rest,
        hear-says w 50 size (block ++ after) sent warn hw (omega arith) (str-IsLine (length block))
            refl,
        to_int-str (length block),
      )
      (rw (
        read_block-online block after sent flag,
        hear-says w 10 done rest sent flag hw (omega arith) hd refl,
      ))

same_code : (n k : ℕ) → any (λ j. eq_ℤ j (pos k)) (pos n ∷ []) ≡ (n == k)
same_code n k = ground arith

-- what class Session expects: one code, as it stands
pub expect-says :
    (k w n : ℕ) (text rest sent : Bytes)
    → w < 10
    → n < 100
    → IsLine text
    → expect (pos k ∷ []) (up (says w n text ++ rest) sent) ≡ (
      if k == w * 100 + n
          then ok (pos (w * 100 + n), text)
          else err (protocol_error (pos (w * 100 + n)) text),
      up rest sent,
    )
unfolding says
expect-says k w n text rest sent hw hn line =
    expect-reply (pos k ∷ []) (up (says w n text ++ rest) sent) (code w n) text rest
      (pos (w * 100 + n)) refl refl (code-digits w n hw hn) (int-code w n hw hn) line
    ∙ rw (same_code k (w * 100 + n))
