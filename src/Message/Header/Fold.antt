-- ===== src/Message/Header/Fold.antt =====
-- A header as it is written, with lines folded, is read.
use blitzmail.Common.{
  ℕ, ◌≡◌, ◌≢◌, refl, ap, ◌∙◌, arith, Bytes, codes, true, false, All, All-append, List, [], ◌∷◌,
  ◌++◌, append-nil, append_assoc, map, Option, none, some,
}
use blitzmail.Common.Decimal.{is_space, lstrip}
use blitzmail.Common.Lines.{join}
use blitzmail.Errors.{ok, ◌>>=◌}
use blitzmail.Message.Header.{
  newline_cut, lines, line_before, unfold_from, is_letter, is_name_char, name_cut, value_of,
  after_name, field_of, fields_of, header, get,
}
use blitzmail.Message.Header.Index.{named, as_first, get-add_lines}

-- a header line with the pieces that follow on lines of their own
pub record Field : Type 0 where
  pub initial : ℕ
  pub letters : Bytes
  pub start : ℕ
  pub text : Bytes
  pub more : List Bytes

abbrev pub name : Field → Bytes
name f = f.initial ∷ f.letters

abbrev tails : List Bytes → Bytes
tails [] = []
tails (p ∷ ps) = 32 ∷ (p ++ tails ps)

-- the data of the line: the pieces with a space between
abbrev pub content : Field → Bytes
content f = f.start ∷ (f.text ++ tails f.more)

abbrev whole : Field → Bytes
whole f = name f ++ b':' ∷ 32 ∷ content f

abbrev folded : List Bytes → List Bytes → List Bytes
folded [] ls = ls
folded (p ∷ ps) ls = (9 ∷ p) ∷ folded ps ls

abbrev head_line : Field → Bytes
head_line f = name f ++ b':' ∷ 32 ∷ f.start ∷ f.text

abbrev line_list : List Field → List Bytes
line_list [] = []
line_list (f ∷ fs) = head_line f ∷ folded f.more (line_list fs)

abbrev pub IsPiece : Bytes → Type 0
IsPiece p = (lstrip p ≡ p) × All (λ c. c ≢ 10) p

-- The name is of letters, digits and dashes, the data begins with no space, and so do the pieces.
pub record IsField (f : Field) : Type 0 where
  pub letter_first : is_letter f.initial ≡ true
  pub name_chars : All (λ c. is_name_char c ≡ true) f.letters
  pub begins : is_space f.start ≡ false
  pub inside : All (λ c. c ≢ 10) f.text
  pub pieces : All IsPiece f.more

letter_lem : (c : ℕ) → is_letter c ≡ true → (is_space c ≡ false) × (c ≢ 10)
unfolding is_letter is_space
letter_lem c h = (ground arith, λ e. ground arith)

unfold_folded :
    (last : Bytes) (ps ls : List Bytes)
    → All IsPiece ps
    → unfold_from (folded ps ls) (some last) ≡ unfold_from ls (some (last ++ tails ps))
unfolding unfold_from is_space lstrip
unfold_folded last [] ls h = rw (append-nil last)
unfold_folded last (p ∷ ps) ls h = rw (h.0.0) (
    unfold_folded (last ++ 32 ∷ p) ps ls h.1
    ∙ ap (λ t. unfold_from ls (some t)) (append_assoc last (32 ∷ p) (tails ps)))

whole_lem : (f : Field) → head_line f ++ tails f.more ≡ whole f
whole_lem f = append_assoc (name f) (b':' ∷ 32 ∷ f.start ∷ f.text) (tails f.more)

new_line :
    (c : ℕ) (s : Bytes) (ls : List Bytes) (last : Option Bytes)
    → is_space c ≡ false
    → unfold_from ((c ∷ s) ∷ ls) last ≡ line_before last (unfold_from ls (some (c ∷ s)))
unfolding unfold_from
new_line c s ls none h = rw h
new_line c s ls (some last) h = rw h

new_field :
    (f : Field) (ls : List Bytes) (last : Option Bytes)
    → IsField f
    → unfold_from (head_line f ∷ folded f.more ls) last
      ≡ line_before last (unfold_from ls (some (whole f)))
new_field f ls last h =
    new_line f.initial (f.letters ++ b':' ∷ 32 ∷ f.start ∷ f.text) (folded f.more ls) last
      (letter_lem f.initial h.letter_first).0
    ∙ ap (line_before last) (
        unfold_folded (head_line f) f.more ls h.pieces
        ∙ ap (λ t. unfold_from ls (some t)) (whole_lem f))

unfold_lines :
    (fs : List Field) (last : Option Bytes)
    → All IsField fs
    → unfold_from (line_list fs) last ≡ line_before last (ok (map whole fs))
unfolding unfold_from
unfold_lines [] last h = refl
unfold_lines (f ∷ fs) last h =
    new_field f (line_list fs) last h.0
    ∙ ap (line_before last) (unfold_lines fs (some (whole f)) h.1)

colon_lem : is_name_char b':' ≡ false
unfolding is_name_char
colon_lem = refl

name_cut-colon :
    (s rest : Bytes)
    → All (λ c. is_name_char c ≡ true) s
    → name_cut (s ++ b':' ∷ rest) ≡ (s, b':' ∷ rest)
unfolding name_cut
name_cut-colon [] rest h = rw colon_lem
name_cut-colon (c ∷ s) rest h = rw (h.0, name_cut-colon s rest h.1)

value_of-space : (c : ℕ) (s : Bytes) → is_space c ≡ false → value_of (32 ∷ c ∷ s) ≡ some (c ∷ s)
unfolding value_of is_space
value_of-space c [] h = refl
value_of-space c (d ∷ s) h = rw h

field_of-whole : (f : Field) → IsField f → field_of (whole f) ≡ some (name f, content f)
unfolding field_of after_name
field_of-whole f h = rw (
  name_cut-colon f.letters (32 ∷ content f) h.name_chars,
  h.letter_first,
  value_of-space f.start (f.text ++ tails f.more) h.begins,
)

abbrev pub entry : Field → Bytes × Bytes
entry f = (name f, content f)

fields_of-whole : (fs : List Field) → All IsField fs → fields_of (map whole fs) ≡ map entry fs
unfolding fields_of
fields_of-whole [] h = refl
fields_of-whole (f ∷ fs) h =
    next (fields_of-whole fs h.1) (field_of (whole f)) (field_of-whole f h.0)
  where
    next :
        fields_of (map whole fs) ≡ map entry fs
        → (found : Option (Bytes × Bytes)) → found ≡ some (entry f)
        → (elim found [ some g ↦ g ∷ fields_of (map whole fs) | none ↦ fields_of (map whole fs) ])
          ≡ entry f ∷ map entry fs
    next rest found e = rw (e, rest)

newline_cut-line : (s : Bytes) → All (λ c. c ≢ 10) s → newline_cut s ≡ (s, [])
unfolding newline_cut
newline_cut-line [] h = refl
newline_cut-line (c ∷ s) h = ground (arith, newline_cut-line s h.1, h.0)

newline_cut-append :
    (s rest : Bytes) → All (λ c. c ≢ 10) s → newline_cut (s ++ 10 ∷ rest) ≡ (s, lines rest)
unfolding newline_cut lines
newline_cut-append [] rest h = refl
newline_cut-append (c ∷ s) rest h = ground (arith, newline_cut-append s rest h.1, h.0)

lines-join :
    (s : Bytes) (ls : List Bytes)
    → All (λ c. c ≢ 10) s
    → All (All (λ c. c ≢ 10)) ls
    → lines (join (codes "\n") (s ∷ ls)) ≡ s ∷ ls
unfolding lines join
lines-join s [] h hs = rw (newline_cut-line s h)
lines-join s (t ∷ ls) h hs =
    rw (newline_cut-append s (join (codes "\n") (t ∷ ls)) h)
      (ap (λ r. s ∷ r) (lines-join t ls hs.0 hs.1))

name_char_lem : (c : ℕ) → is_name_char c ≡ true → c ≢ 10
unfolding is_name_char
name_char_lem c h e = ground arith

no_newline : (c : ℕ) → is_space c ≡ false → c ≢ 10
unfolding is_space
no_newline c h e = ground arith

head-inside : (f : Field) → IsField f → All (λ c. c ≢ 10) (head_line f)
head-inside f h = (
  (letter_lem f.initial h.letter_first).1,
  All-append (λ c. c ≢ 10) f.letters (b':' ∷ 32 ∷ f.start ∷ f.text) (chars f.letters h.name_chars)
      (λ e. omega (arith, e), (λ e. omega (arith, e), (no_newline f.start h.begins, h.inside))),
)
  where
    chars : (s : Bytes) → All (λ c. is_name_char c ≡ true) s → All (λ c. c ≢ 10) s
    chars [] h = tt
    chars (c ∷ s) h = (name_char_lem c h.0, chars s h.1)

folded-inside :
    (ps ls : List Bytes)
    → All IsPiece ps
    → All (All (λ c. c ≢ 10)) ls
    → All (All (λ c. c ≢ 10)) (folded ps ls)
folded-inside [] ls h hs = hs
folded-inside (p ∷ ps) ls h hs = (((λ e. omega (arith, e)), h.0.1), folded-inside ps ls h.1 hs)

lines-inside : (fs : List Field) → All IsField fs → All (All (λ c. c ≢ 10)) (line_list fs)
lines-inside [] h = tt
lines-inside (f ∷ fs) h =
    (head-inside f h.0, folded-inside f.more (line_list fs) h.0.pieces (lines-inside fs h.1))

-- the text of a header
abbrev pub write_fields : List Field → Bytes
write_fields fs = join (codes "\n") (line_list fs)

unfold_written :
    (fs : List Field)
    → All IsField fs
    → unfold_from (lines (write_fields fs)) none ≡ ok (map whole fs)
unfolding lines newline_cut unfold_from join
unfold_written [] h = refl
unfold_written (f ∷ fs) h =
    let inside = lines-inside (f ∷ fs) h in
    ap (λ ls. unfold_from ls none)
      (lines-join (head_line f) (folded f.more (line_list fs)) inside.0 inside.1)
    ∙ unfold_lines (f ∷ fs) none h

-- What is found in a header that was written line by line, each line perhaps folded into several: for
-- any name, in whatever case, the data of the lines of that name in their order, the folded pieces
-- joined by one space each, each with the name as the first of the lines writes it; and KeyError
-- where no line has the name.
pub get-header :
    (fs : List Field) (wanted : Bytes)
    → All IsField fs
    → (header (write_fields fs) >>= get wanted) ≡ as_first (named wanted (map entry fs))
unfolding header
get-header fs wanted h =
    rw (unfold_written fs h, fields_of-whole fs h)
      (get-add_lines wanted (write_fields fs) (map entry fs))
