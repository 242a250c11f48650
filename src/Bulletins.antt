-- ===== src/Bulletins.antt =====
-- class Topic and class Article of bulls.py: which articles of a topic were read.
-- The numbers of articles are natural: a text with a sign has no place in a list of them.
pub mod ReadList
pub mod Members
pub mod Order
pub mod Articles
mod Tests
use blitzmail.Common.{
  ℕ, zero, suc, ◌+◌, ◌-◌, Bytes, codes, Bool, true, false, not, any, select, leb, ltb, ◌==◌, List,
  [], ◌∷◌, ◌++◌, map, Option, none, some, ℤ, pos, negsuc, if◌then◌else◌,
}
use blitzmail.Common.Decimal.{str, int}
use blitzmail.Common.Lines.{commas, join}
use blitzmail.Errors.{Result, ok, err, value_error, ◌>>=◌}

-- A topic, once it is loaded. `rcache` holds the keys of the dictionary of the same name.
pub record Topic : Type 0 where
  pub name : Bytes
  pub title : Bytes
  pub watch : Bytes
  pub post : Bytes
  pub id_low : ℕ
  pub id_high : ℕ
  pub last_id : ℕ
  pub info : Bytes
  pub rcache : List ℕ

-- `int(s)`, for a text without a minus sign
natural_of : Option ℤ → Result ℕ
natural_of (some (pos n)) = ok n
natural_of (some (negsuc n)) = err value_error
natural_of none = err value_error

unfoldable pub index : Bytes → Result ℕ
unfolding natural_of
index s = natural_of (int s)

-- `self._rcache[id] = True`
unfoldable pub insert : ℕ → List ℕ → List ℕ
insert n keys = if any (λ k. k == n) keys then keys else keys ++ n ∷ []

unfoldable pub insert_all : List ℕ → List ℕ → List ℕ
unfolding insert
insert_all [] keys = keys
insert_all (n ∷ ns) keys = insert_all ns (insert n keys)

-- Article.mark_read, mark_unread and is_read, for the article with this number
unfoldable pub mark_read : ℕ → Topic → Topic
unfolding insert
mark_read id t = record t { rcache = insert id t.rcache }

unfoldable pub mark_unread : ℕ → Topic → Topic
mark_unread id t = record t { rcache = select (λ k. not (k == id)) t.rcache }

unfoldable pub is_read : ℕ → Topic → Bool
is_read id t = any (λ k. k == id) t.rcache

-- `id.sort()`
place : ℕ → List ℕ → List ℕ
place n [] = n ∷ []
place n (k ∷ ks) = let rest = place n ks in if leb n k then n ∷ k ∷ ks else k ∷ rest

unfoldable pub sort : List ℕ → List ℕ
unfolding place
sort [] = []
sort (n ∷ ns) = place n (sort ns)

-- The runs of consecutive numbers, each by its first and last.
extend : ℕ → ℕ → List ℕ → List (ℕ × ℕ)
extend lo hi [] = (lo, hi) ∷ []
extend lo hi (n ∷ ns) =
    let rest = extend (if n == suc hi then lo else n) n ns in
    if n == suc hi then rest else (lo, hi) ∷ rest

unfoldable pub runs : List ℕ → List (ℕ × ℕ)
unfolding extend
runs [] = []
runs (n ∷ ns) = extend n n ns

unfoldable pub show_run : ℕ × ℕ → Bytes
show_run (lo, hi) = if lo == hi then str lo else str lo ++ (b'-' ∷ str hi)

-- `out or ['0-0']`
unfoldable pub or_none : List Bytes → List Bytes
or_none [] = codes "0-0" ∷ []
or_none (w ∷ ws) = w ∷ ws

-- _make_read_list: what it returns, and the topic without the articles that are gone
unfoldable pub make_read_list : Topic → Bytes × Topic
unfolding sort runs show_run or_none
make_read_list t =
    let kept = select (λ k. not (ltb k t.id_low)) t.rcache in
    (join (codes ",") (or_none (map show_run (runs (sort kept)))), record t { rcache = kept })

-- `s.split('-')`
unfoldable pub dashes : Bytes → Bytes × List Bytes
dashes [] = ([], [])
dashes (c ∷ s) =
    let (word, more) = dashes s in if c == b'-' then ([], word ∷ more) else (c ∷ word, more)

-- `xrange(lo, lo + count)`
unfoldable pub range : ℕ → ℕ → List ℕ
range lo zero = []
range lo (suc count) = lo ∷ range (suc lo) count

-- the articles that one part of a list stands for: `a-b`, `a`, or nothing
part : Bytes × List Bytes → Result (List ℕ)
unfolding index range
part ([], []) = ok []
part (c ∷ s, []) = do n ← index (c ∷ s); ok (n ∷ [])
part (a, b ∷ []) = do lo ← index a; hi ← index b; ok (range lo (suc hi - lo))
part (a, b ∷ c ∷ more) = err value_error

parts : List Bytes → Result (List ℕ)
unfolding part dashes
parts [] = ok []
parts (w ∷ ws) = do a ← part (dashes w); b ← parts ws; ok (a ++ b)

-- the numbers in a list of read articles, of which 0 is none
unfoldable pub read_ids : Bytes → Result (List ℕ)
unfolding parts
read_ids s = do ids ← parts ((commas s).0 ∷ (commas s).1); ok (select (λ n. not (n == 0)) ids)

-- `update`: what is sent, and the topic afterwards
unfoldable pub update : Option ℕ → Topic → Bytes × Topic
unfolding make_read_list
update id t =
    let last : ℕ = elim id [ none ↦ t.last_id | some n ↦ n ] in
    let (read, t') = make_read_list (record t { last_id = last }) in
    let info : Bytes = elim t.info [ [] ↦ read | ◌∷◌ c s ↦ read ++ (b';' ∷ c ∷ s) ] in
    (
      codes "UPDT "
          ++ (t.name ++ (codes "," ++ (str last ++ (codes ",\"" ++ (info ++ codes "\"\n"))))),
      t',
    )

-- `data[6].split(';', 1)`
unfoldable pub semicolon : Bytes → Bytes × Bytes
semicolon [] = ([], [])
semicolon (c ∷ s) =
    let (read, info) = semicolon s in if c == b';' then ([], s) else (c ∷ read, info)

range_of : Bytes × List Bytes → Result (ℕ × ℕ)
unfolding index
range_of (a, b ∷ []) = do lo ← index a; hi ← index b; ok (lo, hi)
range_of (a, []) = err value_error
range_of (a, b ∷ c ∷ more) = err value_error

-- parseinfo, on the seven fields that csv.reader finds; the articles read are added to those known
unfoldable pub parseinfo :
    Bytes → Bytes → Bytes → Bytes → Bytes → Bytes → Bytes → List ℕ → Result Topic
unfolding range_of index insert_all read_ids semicolon
parseinfo name title watch post ids last read rcache = do
  (low, high) ← range_of (dashes ids)
  last_id ← index last
  new ← read_ids (semicolon read).0
  ok (record {
    name = name;
    title = title;
    watch = watch;
    post = post;
    id_low = low;
    id_high = high;
    last_id = last_id;
    info = (semicolon read).1;
    rcache = insert_all new rcache;
  })
