-- ===== src/Bulletins/Articles/Summary.antt =====
-- The summary of an article, as the server writes it, is read.
use blitzmail.Common.{
  ℕ, ◌≡◌, ◌≢◌, refl, ap, ◌∙◌, arith, Bytes, codes, eq_bytes, Bool, true, false, All, Bool-cases,
  inl, inr, eq_bytes→eq, List, [], ◌∷◌, ◌++◌, append-nil, append_assoc, map, Option, none, some,
  if◌then◌else◌,
}
use blitzmail.Common.Lines.{lower}
use blitzmail.Link.Answer.{IsLine}
use blitzmail.Bulletins.Articles.{
  Xhead, Article, is_word, word_cut, value_of, after_word, field_of, put, parse_xhead, find,
  summary, article_of, split,
}

-- a field of a summary: its name and its text
abbrev pub Field : Type 0
Field = Bytes × Bytes

-- an article that the server lists
pub record Entry : Type 0 where
  pub id : Bytes
  pub fields : List Field

abbrev pub write_field : Field → Bytes
write_field (name, v) = name ++ b':' ∷ 32 ∷ v

abbrev pub write_fields : List Field → List Bytes
write_fields [] = []
write_fields (f ∷ fs) = write_field f ∷ write_fields fs

-- the answer to XHEAD
abbrev pub write_entries : List Entry → List Bytes
write_entries [] = []
write_entries (e ∷ es) = (e.id ∷ write_fields e.fields) ++ [] ∷ write_entries es

-- The name is one or more letters, digits, dashes and underlines, and the text does not begin with a
-- space.
pub record IsField (f : Field) : Type 0 where
  pub initial : ℕ
  pub letters : Bytes
  pub start : ℕ
  pub text : Bytes
  pub name_lem : f.0 ≡ initial ∷ letters
  pub value_lem : f.1 ≡ start ∷ text
  pub words : All (λ c. is_word c ≡ true) f.0
  pub begins : start ≢ 32
  pub line : IsLine (write_field f)

pub record IsEntry (e : Entry) : Type 0 where
  pub initial : ℕ
  pub digits : Bytes
  pub id_lem : e.id ≡ initial ∷ digits
  pub not_dot : e.id ≢ codes "."
  pub line : IsLine e.id
  pub all_fields : All IsField e.fields

-- the fields are entered one after the other
abbrev pub enter_all : List Field → Xhead → Xhead
enter_all [] out = out
enter_all ((name, v) ∷ fs) out = enter_all fs (put (lower name) v out)

abbrev pub listed : Entry → Article
listed e = record { id = e.id; xhead = enter_all e.fields [] }

colon_lem : is_word b':' ≡ false
unfolding is_word
colon_lem = refl

word_cut-colon :
    (s rest : Bytes)
    → All (λ c. is_word c ≡ true) s
    → word_cut (s ++ b':' ∷ rest) ≡ (s, b':' ∷ rest)
unfolding word_cut
word_cut-colon [] rest h = rw colon_lem
word_cut-colon (c ∷ s) rest h = rw (h.0, word_cut-colon s rest h.1)

value_of-start : (c : ℕ) (s : Bytes) → c ≢ 32 → value_of (32 ∷ c ∷ s) ≡ some (c ∷ s)
unfolding value_of
value_of-start c [] h = refl
value_of-start c (d ∷ s) h = ground (arith, h)

after_word-colon :
    (c : ℕ) (word v : Bytes)
    → value_of (32 ∷ v) ≡ some v
    → after_word (c ∷ word) (b':' ∷ 32 ∷ v) ≡ some (c ∷ word, v)
unfolding after_word
after_word-colon c word v e = rw e

field_of-write : (f : Field) → IsField f → field_of (write_field f) ≡ some f
unfolding field_of
field_of-write (name, v) h = rw (word_cut-colon name (32 ∷ v) h.words) (
    rw (h.name_lem, h.value_lem)
      (after_word-colon h.initial h.letters (h.start ∷ h.text)
        (value_of-start h.start h.text h.begins)))

parse_xhead-write :
    (fs : List Field) (out : Xhead)
    → All IsField fs
    → parse_xhead (write_fields fs) out ≡ enter_all fs out
unfolding parse_xhead
parse_xhead-write [] out h = refl
parse_xhead-write ((name, v) ∷ fs) out h =
    next (field_of (write_field (name, v))) (field_of-write (name, v) h.0)
    ∙ parse_xhead-write fs (put (lower name) v out) h.1
  where
    next :
        (found : Option Field)
        → found ≡ some (name, v)
        → (elim found [
          | some (n, u) ↦ parse_xhead (write_fields fs) (put (lower n) u out)
          | none ↦ parse_xhead (write_fields fs) out
        ])
          ≡ parse_xhead (write_fields fs) (put (lower name) v out)
    next found e = rw e

-- lines that are not empty go into the block at hand
abbrev IsFilled : Bytes → Type 0
IsFilled s = (c : ℕ) × (t : Bytes) × (s ≡ c ∷ t)

split-block :
    (block ls more : List Bytes)
    → All IsFilled ls
    → split block (ls ++ [] ∷ more) ≡ article_of (block ++ ls) ∷ split [] more
unfolding split
split-block block [] more h = rw (append-nil block)
split-block block (s ∷ ls) more h =
    let (c, t, e) = h.0 in
    rw e (
      split-block (block ++ (c ∷ t) ∷ []) ls more h.1
      ∙ ap (λ b. article_of b ∷ split [] more) (append_assoc block ((c ∷ t) ∷ []) ls))

fields-IsFilled : (fs : List Field) → All IsField fs → All IsFilled (write_fields fs)
fields-IsFilled [] h = tt
fields-IsFilled ((name, v) ∷ fs) h =
    ((h.0.initial, h.0.letters ++ b':' ∷ 32 ∷ v, rw h.0.name_lem), fields-IsFilled fs h.1)

article_of-write : (e : Entry) → IsEntry e → article_of (e.id ∷ write_fields e.fields) ≡ listed e
unfolding article_of
article_of-write e h = rw (parse_xhead-write e.fields [] h.all_fields)

pub split-write : (es : List Entry) → All IsEntry es → split [] (write_entries es) ≡ map listed es
unfolding split
split-write [] h = refl
split-write (e ∷ es) h =
    let lines_filled : All IsFilled (e.id ∷ write_fields e.fields) =
      ((h.0.initial, h.0.digits, h.0.id_lem), fields-IsFilled e.fields h.0.all_fields) in
    split-block [] (e.id ∷ write_fields e.fields) (write_entries es) lines_filled
    ∙ rw (article_of-write e h.0, split-write es h.1)

-- the last of the fields of a name, in whatever case
abbrev pub latest : Bytes → List Field → Option Bytes
latest name [] = none
latest name ((n, v) ∷ fs) = elim (latest name fs) [
  | some u ↦ some u
  | none ↦ (if eq_bytes (lower n) (lower name) then some v else none)
]

find-put :
    (key n v : Bytes) (out : Xhead)
    → find key (put n v out) ≡ (if eq_bytes n key then some v else find key out)
unfolding find put
find-put key n v [] = refl
find-put key n v ((m, u) ∷ out) = elim (Bool-cases (eq_bytes m n)) [
  | inl e ↦ rw (find, put, e) (replaced (eq_bytes→eq m n e) (eq_bytes n key) refl)
  | inr e ↦ rw (find, put, e, find-put key n v out) (other e (eq_bytes n key) refl)
]
  where
    replaced :
        m ≡ n
        → (b : Bool) → eq_bytes n key ≡ b
        → (if eq_bytes m key then some v else find key out)
          ≡ (if b then some v else (if eq_bytes m key then some u else find key out))
    replaced same true e = rw (same, e)
    replaced same false e = rw (same, e)

    other :
        eq_bytes m n ≡ false
        → (b : Bool) → eq_bytes n key ≡ b
        → (if eq_bytes m key then some u else (if b then some v else find key out))
          ≡ (if b then some v else (if eq_bytes m key then some u else find key out))
    other differ true e =
        let untrue : eq_bytes m key ≡ false = rw (eq_bytes→eq n key e) at differ in rw untrue
    other differ false e = refl

abbrev or_kept : Option Bytes → Option Bytes → Option Bytes
or_kept (some u) kept = some u
or_kept none kept = kept

find-enter_all :
    (name : Bytes) (fs : List Field) (out : Xhead)
    → find (lower name) (enter_all fs out) ≡ or_kept (latest name fs) (find (lower name) out)
find-enter_all name [] out = refl
find-enter_all name ((n, v) ∷ fs) out =
    find-enter_all name fs (put (lower n) v out)
    ∙ rw (find-put (lower name) (lower n) v out)
        (kept (latest name fs) (eq_bytes (lower n) (lower name)))
  where
    kept :
        (o : Option Bytes) (b : Bool)
        → or_kept o (if b then some v else find (lower name) out)
          ≡ or_kept
              (elim o [ some u ↦ some u | none ↦ (if b then some v else none) ])
              (find (lower name) out)
    kept (some u) b = refl
    kept none true = refl
    kept none false = refl

-- What is found under a name is the last field of that name.
pub summary-listed : (e : Entry) (name : Bytes) → summary (listed e) name ≡ latest name e.fields
unfolding summary find
summary-listed e name = find-enter_all name e.fields [] ∙ whole (latest name e.fields)
  where
    whole : (o : Option Bytes) → or_kept o none ≡ o
    whole (some u) = refl
    whole none = refl
