-- ===== src/Bulletins/Articles/Listed.antt =====
-- The articles that the server lists are those of the topic.
use blitzmail.Common.{
  ℕ, ◌+◌, ◌*◌, ◌<◌, ◌≡◌, ◌≢◌, refl, ap, ◌∙◌, arith, Bytes, codes, eq_bytes, Bool-cases, inl, inr,
  Bool, true, false, All, All-append, List, [], ◌∷◌, ◌++◌, map, ◌==◌, Option, none, some, pos,
  if◌then◌else◌,
}
use blitzmail.Common.Decimal.{str, rstrip}
use blitzmail.Errors.{Result, ok, err, protocol_error, index_error}
use blitzmail.Blitz.{go_on, ◌>>=◌, return}
use blitzmail.Link.Answer.{IsLine, write_lines, up}
use blitzmail.Blitz.Online.{says, expect-says}
use blitzmail.Bulletins.Articles.{
  Article, Board, lines_of, is_word, span, load_articles, articles, item, search_in, summary,
}
use blitzmail.Bulletins.Articles.Summary.{
  Entry, Field, IsEntry, IsField, write_field, write_fields, write_entries, listed, split-write,
  latest, summary-listed,
}
use blitzmail.Bulletins.Articles.Selected.{
  command, cmd1-up, lines_of-says, selecting, selects, select-up,
}

-- a line that may stand in an answer of several lines
IsSent : Bytes → Type 0
IsSent s = IsLine s × (s ≢ codes ".")

no_dot : (c : ℕ) (s : Bytes) → is_word c ≡ true → (c ∷ s) ≢ codes "."
unfolding is_word
no_dot c s h e = let same : c ≡ 46 = cc in ground (arith, same)

field-IsSent : (f : Field) → IsField f → IsSent (write_field f)
unfolding IsSent
field-IsSent (name, v) h = (
  h.line,
  λ e.
      no_dot h.initial (h.letters ++ b':' ∷ 32 ∷ v) (rw h.name_lem at h.words).0
        (rw h.name_lem at e),
)

fields-IsSent : (fs : List Field) → All IsField fs → All IsSent (write_fields fs)
fields-IsSent [] h = tt
fields-IsSent (f ∷ fs) h = (field-IsSent f h.0, fields-IsSent fs h.1)

empty-IsSent : IsSent []
unfolding IsSent rstrip
empty-IsSent = (record { inside = tt; trimmed = refl }, λ e. cc)

entries-IsSent : (es : List Entry) → All IsEntry es → All IsSent (write_entries es)
unfolding IsSent
entries-IsSent [] h = tt
entries-IsSent (e ∷ es) h =
    All-append IsSent (e.id ∷ write_fields e.fields) ([] ∷ write_entries es)
      ((h.0.line, h.0.not_dot), fields-IsSent e.fields h.0.all_fields)
      (empty-IsSent, entries-IsSent es h.1)

both : (ss : List Bytes) → All IsSent ss → All IsLine ss × All (λ s. s ≢ codes ".") ss
unfolding IsSent
both [] h = (tt, tt)
both (s ∷ ss) h = let (lines, dots) = both ss h.1 in ((h.0.0, lines), (h.0.1, dots))

load_articles-up :
    (b : Board) (es : List Entry) (text text' rest sent : Bytes)
    → All IsEntry es
    → IsLine text
    → IsLine text'
    → load_articles (record b {
      link =
          up
            (selecting b text ++ (says 2 21 text' ++ (write_lines (write_entries es) ++ rest)))
            sent;
    })
      ≡ (
        ok (map listed es),
        record b {
          link = up rest ((sent ++ selects b) ++ command (codes "XHEAD") (span b.topic));
          g_select = some b.topic.name;
          bcache = some (map listed es);
        },
      )
unfolding load_articles
load_articles-up b es text text' rest sent h line line' =
    let after = says 2 21 text' ++ (write_lines (write_entries es) ++ rest) in
    let (lines_h, dots_h) = both (write_entries es) (entries-IsSent es h) in
    rw (select-up (record b { bcache = some [] }) text after sent line) (
      rw (
        lines_of-says 2 21 (codes "XHEAD") (span b.topic) text' (write_entries es) rest
            (sent ++ selects b) (omega arith) (omega arith) line' lines_h dots_h,
        split-write es h,
      ))

module _ (b : Board) (es : List Entry) (text text' rest sent : Bytes) where
  -- the topic whose server lists the articles, and the topic afterwards
  abbrev pub asking : Board
  asking = record b {
    link =
        up (selecting b text ++ (says 2 21 text' ++ (write_lines (write_entries es) ++ rest))) sent;
  }

  abbrev pub told : Board
  told = record b {
    link = up rest ((sent ++ selects b) ++ command (codes "XHEAD") (span b.topic));
    g_select = some b.topic.name;
    bcache = some (map listed es);
  }

-- the entry of a number
abbrev pub entry_at : Bytes → List Entry → Option Entry
entry_at key [] = none
entry_at key (e ∷ others) =
    let rest = entry_at key others in if eq_bytes e.id key then some e else rest

abbrev pub found : Bytes → Option Entry → Result (Option Bytes)
found name (some e) = ok (latest name e.fields)
found name none = err index_error

module _ (b : Board) (es : List Entry) (text text' rest sent : Bytes) (entries : All IsEntry es)
    (line : IsLine text) (line' : IsLine text') where
  -- The articles of a topic are those that the server lists, each with its number and the fields of
  -- its summary entered one by one in lower case, whether they are asked for the first time or, by
  -- force, again; the topic is selected first, unless it was the last to be. They are kept: a second
  -- call returns them and sends nothing.
  pub articles_lem :
      (force : Bool)
      → (force ≡ false → b.bcache ≡ none)
      → (articles force (asking b es text text' rest sent)
          ≡ (ok (map listed es), (told b es text text' rest sent)))
        × (articles false (told b es text text' rest sent)
            ≡ (ok (map listed es), (told b es text text' rest sent)))
  unfolding articles
  articles_lem force first = (loads b.bcache force first, refl)
    where
      loads :
          (kept : Option (List Article)) (force : Bool)
          → (force ≡ false → kept ≡ none)
          → articles force (record (asking b es text text' rest sent) { bcache = kept })
            ≡ (ok (map listed es), (told b es text text' rest sent))
      loads none force h =
          load_articles-up (record b { bcache = none }) es text text' rest sent entries line line'
      loads (some as') true h =
          load_articles-up (record b { bcache = some as' }) es text text' rest sent entries line
            line'
      loads (some as') false h = cc (h refl)

  search_lem :
      (key name : Bytes) (listing : List Entry)
      → (elim (search_in key (map listed listing)) [ ok a ↦ ok (summary a name) | err x ↦ err x ])
        ≡ found name (entry_at key listing)
  unfolding search_in
  search_lem key name [] = refl
  search_lem key name (e ∷ listing) = elim (Bool-cases (eq_bytes e.id key)) [
    | inl same ↦ rw (search_in, same) (ap ok (summary-listed e name))
    | inr other ↦ rw (search_in, other) (search_lem key name listing)
  ]

  -- A summary header that is looked up, in whatever case, in the article of a number of a topic whose
  -- articles were not asked for before is the last field of that name in the first article that the
  -- server lists under the number, or None; where no article has the number, IndexError is raised.
  pub summary-item :
      (n : ℕ) (name : Bytes)
      → b.bcache ≡ none
      → (do a ← item n; return (summary a name)) (asking b es text text' rest sent)
        ≡ (found name (entry_at (str n) es), (told b es text text' rest sent))
  unfolding item
  summary-item n name first = rw ((articles_lem false (λ _. first)).0) (
      shown (search_in (str n) (map listed es))
      ∙ ap (λ r. (r, (told b es text text' rest sent))) (search_lem (str n) name es))
    where
      shown :
          (r : Result Article)
          → go_on (λ a. return (summary a name)) (r, (told b es text text' rest sent)) ≡ (
            elim r [ ok a ↦ ok (summary a name) | err x ↦ err x ],
            (told b es text text' rest sent),
          )
      shown (ok a) = refl
      shown (err x) = refl

module _ (b : Board) (w n : ℕ) (text text' rest sent : Bytes) where
  -- the topic whose server refuses to list the articles
  abbrev pub refusing : Board
  refusing = record b {
    link = up (selecting b text ++ (says w n text' ++ rest)) sent;
    bcache = none;
  }

  abbrev pub refused : Board
  refused = record b {
    link = up rest ((sent ++ selects b) ++ command (codes "XHEAD") (span b.topic));
    g_select = some b.topic.name;
    bcache = some [];
  }

module _ (b : Board) (w n : ℕ) (text text' rest sent : Bytes) (hw : w < 10) (hn : n < 100)
    (line : IsLine text) (line' : IsLine text') where
  -- Where the server answers XHEAD with another code than 221, ProtocolError is raised, and the topic
  -- then has an empty list of articles: the next call returns it and asks for nothing.
  pub articles_after_refusal :
      (221 == w * 100 + n) ≡ false
      → (articles false (refusing b w n text text' rest sent)
          ≡ (err (protocol_error (pos (w * 100 + n)) text'), (refused b w n text text' rest sent)))
        × (articles false (refused b w n text text' rest sent)
            ≡ (ok [], (refused b w n text text' rest sent)))
  unfolding articles load_articles lines_of
  articles_after_refusal other = (
    rw (select-up (record b { bcache = some [] }) text (says w n text' ++ rest) sent line) (
        rw (
          cmd1-up,
          expect-says 221 w n text' rest
              ((sent ++ selects b) ++ command (codes "XHEAD") (span b.topic)) hw hn line',
          other,
        )),
    refl,
  )
