-- ===== src/Bulletins/Tests.antt =====
-- A topic with some articles read.
use blitzmail.Common.{
  ℕ, ◌≡◌, ◌≢◌, refl, arith, Bytes, true, false, any, All, Bool-cases, inl, inr, none, some, pos,
  codes, not, ltb, ◌&&◌, ◌==◌, List, [], ◌∷◌, select,
}
use blitzmail.Common.Decimal.{str, rstrip}
use blitzmail.Common.Lines.{join, lower}
use blitzmail.Errors.{ok, err, protocol_error}
use blitzmail.Link.Answer.{IsLine, up}
use blitzmail.Blitz.{◌>>=◌, return}
use blitzmail.Bulletins.{
  Topic, sort, runs, show_run, or_none, make_read_list, read_ids, insert_all, is_read,
}
use blitzmail.Bulletins.Articles.{Board, is_word, articles, item, summary}
use blitzmail.Bulletins.Articles.Summary.{Entry, IsField, IsEntry}
use blitzmail.Bulletins.Articles.Listed.{
  asking, told, refusing, refused, summary-item, articles_after_refusal,
}
use blitzmail.Bulletins.Members.{is_read-make_read_list}

abbrev topic : Topic
topic = record {
  name = codes "local.news";
  title = codes "News";
  watch = codes "Y";
  post = codes "N";
  id_low = 3;
  id_high = 20;
  last_id = 12;
  info = [];
  rcache = 7 ∷ 2 ∷ 5 ∷ 6 ∷ 12 ∷ [];
}

make_read_list_lem : (make_read_list topic).0 ≡ codes "5-7,12"
unfolding make_read_list select sort runs show_run or_none join str
make_read_list_lem = refl

is_read-make_read_list_example :
    (ids : List ℕ) × (read_ids (make_read_list topic).0 ≡ ok ids)
    × (is_read 6 (record topic { rcache = insert_all ids [] })
        ≡ ((is_read 6 topic && not (ltb 6 3)) && not (6 == 0)))
is_read-make_read_list_example = is_read-make_read_list topic 6

-- a server that lists two articles
abbrev entries : List Entry
entries =
    record {
      id = codes "7";
      fields = (codes "Subject", codes "Hello") ∷ (codes "From", codes "Ann") ∷ [];
    }
    ∷ record { id = codes "12"; fields = (codes "Subject", codes "Hello") ∷ [] }
    ∷ []

inside_lem : (s : Bytes) → any (λ c. c == 10) s ≡ false → All (λ c. c ≢ 10) s
inside_lem [] h = tt
inside_lem (c ∷ s) h = ((λ e. ground (arith, e)), inside_lem s (ground (arith, h)))

line_of : (s : Bytes) → any (λ c. c == 10) s ≡ false → rstrip s ≡ s → IsLine s
line_of s inside trimmed = record { inside = inside_lem s inside; trimmed = trimmed }

words_lem : (s : Bytes) → any (λ c. not (is_word c)) s ≡ false → All (λ c. is_word c ≡ true) s
words_lem [] h = tt
words_lem (c ∷ s) h = elim (Bool-cases (is_word c)) [
  | inl e ↦ (e, words_lem s (rw e at h))
  | inr e ↦ cc
]

subject-IsField : IsField (codes "Subject", codes "Hello")
unfolding rstrip is_word
subject-IsField = record {
  initial = b'S';
  letters = codes "ubject";
  start = b'H';
  text = codes "ello";
  name_lem = refl;
  value_lem = refl;
  words = words_lem (codes "Subject") refl;
  begins = λ e. omega (arith, e);
  line = line_of (codes "Subject: Hello") refl refl;
}

from-IsField : IsField (codes "From", codes "Ann")
unfolding rstrip is_word
from-IsField = record {
  initial = b'F';
  letters = codes "rom";
  start = b'A';
  text = codes "nn";
  name_lem = refl;
  value_lem = refl;
  words = words_lem (codes "From") refl;
  begins = λ e. omega (arith, e);
  line = line_of (codes "From: Ann") refl refl;
}

entries-IsEntry : All IsEntry entries
unfolding rstrip
entries-IsEntry = (
  record {
    initial = b'7';
    digits = [];
    id_lem = refl;
    not_dot = λ e. cc;
    line = line_of (codes "7") refl refl;
    all_fields = (subject-IsField, (from-IsField, tt));
  },
  (
    record {
      initial = b'1';
      digits = codes "2";
      id_lem = refl;
      not_dot = λ e. cc;
      line = line_of (codes "12") refl refl;
      all_fields = (subject-IsField, tt);
    },
    tt,
  ),
)

line_ok : IsLine (codes "Ok")
unfolding rstrip
line_ok = line_of (codes "Ok") refl refl

abbrev board : Board
board = record { link = up [] []; g_select = none; topic = topic; bcache = none }

summary-item_example :
    (do a ← item 7; return (summary a (codes "FROM")))
      (asking board entries (codes "Ok") (codes "Ok") [] [])
    ≡ (ok (some (codes "Ann")), told board entries (codes "Ok") (codes "Ok") [] [])
unfolding lower str
summary-item_example =
    summary-item board entries (codes "Ok") (codes "Ok") [] [] entries-IsEntry line_ok line_ok 7
      (codes "FROM") refl

articles_after_refusal_example :
    (articles false (refusing board 4 12 (codes "Ok") (codes "Ok") [] []) ≡ (
      err (protocol_error (pos 412) (codes "Ok")),
      refused board 4 12 (codes "Ok") (codes "Ok") [] [],
    ))
    × (articles false (refused board 4 12 (codes "Ok") (codes "Ok") [] [])
        ≡ (ok [], refused board 4 12 (codes "Ok") (codes "Ok") [] []))
articles_after_refusal_example =
    articles_after_refusal board 4 12 (codes "Ok") (codes "Ok") [] [] (omega arith) (omega arith)
      line_ok line_ok refl
