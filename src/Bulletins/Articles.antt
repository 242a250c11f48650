-- ===== src/Bulletins/Articles.antt =====
-- class Article and Topic.articles of bulls.py: the articles of a topic that is loaded, their summary
-- headers and their texts, over the session that the topic belongs to.
pub mod Summary
pub mod Selected
pub mod Listed
pub mod Texts
use blitzmail.Common.{
  ℕ, suc, ◌+◌, Bytes, codes, eq_bytes, Bool, true, false, not, leb, length, ◌==◌, ◌&&◌, ◌||◌, List,
  [], ◌∷◌, ◌++◌, Option, none, some, pos, if◌then◌else◌,
}
use blitzmail.Common.Decimal.{str}
use blitzmail.Common.Lines.{lower, join}
use blitzmail.Errors.{Result, ok, err, index_error}
use blitzmail.Link.{Link, raw_send, expect, read_lines}
use blitzmail.Blitz.{Call, ◌>>=◌, ◌>>◌, return, raise}
use blitzmail.Bulletins.{Topic}

-- `_xhead`: names in lower case with their texts, in the order in which they were first set
abbrev pub Xhead : Type 0
Xhead = List (Bytes × Bytes)

pub record Article : Type 0 where
  pub id : Bytes
  pub xhead : Xhead

-- A topic with its session: the connection, the name last sent in GROUP, and the articles kept.
pub record Board : Type 0 where
  pub link : Link
  pub g_select : Option Bytes
  pub topic : Topic
  pub bcache : Option (List Article)

-- `[-\w]`
unfoldable pub is_word : ℕ → Bool
is_word c =
    leb b'a' c && leb c b'z'
    || leb b'A' c && leb c b'Z'
    || leb b'0' c && leb c b'9'
    || c == b'_'
    || c == b'-'

unfoldable pub word_cut : Bytes → Bytes × Bytes
word_cut [] = ([], [])
word_cut (c ∷ s) =
    let (word, rest) = word_cut s in if is_word c then (c ∷ word, rest) else ([], c ∷ s)

-- ` *(.+)$`: where all the text is spaces, the last of them is the value
unfoldable pub value_of : Bytes → Option Bytes
value_of [] = none
value_of (c ∷ []) = some (c ∷ [])
value_of (c ∷ d ∷ s) = let rest = value_of (d ∷ s) in if c == 32 then rest else some (c ∷ d ∷ s)

after_word : Bytes → Bytes → Option (Bytes × Bytes)
unfolding value_of
after_word [] rest = none
after_word (w ∷ word) [] = none
after_word (w ∷ word) (c ∷ s) =
    if c == b':' then elim (value_of s) [ some v ↦ some (w ∷ word, v) | none ↦ none ] else none

-- `re.match('^([-\w]+): *(.+)$', line)`
unfoldable pub field_of : Bytes → Option (Bytes × Bytes)
unfolding after_word
field_of line = let (word, rest) = word_cut line in after_word word rest

-- `out[name] = value`
unfoldable pub put : Bytes → Bytes → Xhead → Xhead
put name v [] = (name, v) ∷ []
put name v ((n, u) ∷ xs) =
    let rest = put name v xs in if eq_bytes n name then (n, v) ∷ xs else (n, u) ∷ rest

-- _parse_xhead
unfoldable pub parse_xhead : List Bytes → Xhead → Xhead
parse_xhead [] out = out
parse_xhead (line ∷ ls) out = elim (field_of line) [
  | some (name, v) ↦ parse_xhead ls (put (lower name) v out)
  | none ↦ parse_xhead ls out
]

find : Bytes → Xhead → Option Bytes
find name [] = none
find name ((n, u) ∷ xs) = let rest = find name xs in if eq_bytes n name then some u else rest

-- Article.__getitem__
unfoldable pub summary : Article → Bytes → Option Bytes
unfolding find
summary a name = find (lower name) a.xhead

-- the lines of an article before the empty one: its number and its summary; without any, the empty
-- line is taken for the number
unfoldable pub article_of : List Bytes → Article
article_of [] = record { id = []; xhead = [] }
article_of (id ∷ ls) = record { id = id; xhead = parse_xhead ls [] }

-- The articles in the answer to XHEAD, after the lines at hand; lines that no empty line follows are
-- dropped.
unfoldable pub split : List Bytes → List Bytes → List Article
split block [] = []
split block ([] ∷ ls) = article_of block ∷ split [] ls
split block ((c ∷ s) ∷ ls) = split (block ++ (c ∷ s) ∷ []) ls

-- a step of the session
abbrev pub on_link : {A : Type 0} → (Link → Result A × Link) → Call Board A
on_link m b = let (r, l) = m b.link in (r, record b { link = l })

-- _cmd1
unfoldable pub cmd1 : Bytes → Bytes → Call Link (Unit {0})
cmd1 cmd arg = raw_send (cmd ++ 32 ∷ (arg ++ codes "\n"))

-- a command, an answer with the code, and the lines after it
unfoldable pub lines_of : ℕ → Bytes → Bytes → Call Link (List Bytes)
unfolding cmd1
lines_of code cmd arg = do cmd1 cmd arg; expect (pos code ∷ []); read_lines

pub is_selected : Bytes → Option Bytes → Bool
is_selected name none = false
is_selected name (some n) = eq_bytes n name

-- Topic.select, without force, and Article.select
unfoldable pub select : Call Board (Unit {0})
unfolding is_selected cmd1
select b =
    (if is_selected b.topic.name b.g_select then return tt else (do
      on_link (cmd1 (codes "GROUP") b.topic.name)
      on_link (expect (pos 211 ∷ []))
      λ b'. (ok tt, record b' { g_select = some b.topic.name })))
      b

-- `'%d-%d' % (self.id_low, self.id_high)`
abbrev pub span : Topic → Bytes
span t = str t.id_low ++ b'-' ∷ str t.id_high

load_articles : Call Board (List Article)
unfolding select lines_of split
load_articles b =
    (do
      select
      ls ← on_link (lines_of 221 (codes "XHEAD") (span b.topic))
      λ b'. (ok (split [] ls), record b' { bcache = some (split [] ls) }))
      (record b { bcache = some [] })

-- Topic.articles
unfoldable pub articles : Bool → Call Board (List Article)
unfolding load_articles
articles force b = elim b.bcache [
  | some kept ↦ (if force then load_articles b else (ok kept, b))
  | none ↦ load_articles b
]

pub search_in : Bytes → List Article → Result Article
search_in key [] = err index_error
search_in key (a ∷ others) =
    let rest = search_in key others in if eq_bytes a.id key then ok a else rest

-- Topic.__getitem__
unfoldable pub item : ℕ → Call Board Article
unfolding articles search_in
item n = do all ← articles false; raise (search_in (str n) all)

-- Article.header and Article.body, and Article.get_message as a text
unfoldable pub fetch : ℕ → Bytes → Article → Call Board (List Bytes)
unfolding select lines_of
fetch code cmd a = do select; on_link (lines_of code cmd a.id)

unfoldable pub header : Article → Call Board (List Bytes)
unfolding fetch
header = fetch 221 (codes "HEAD")

unfoldable pub body : Article → Call Board (List Bytes)
unfolding fetch
body = fetch 222 (codes "BODY")

unfoldable pub get_message : Article → Call Board Bytes
unfolding fetch
get_message a = do ls ← fetch 220 (codes "ARTICLE") a; return (join (codes "\n") ls)
