-- ===== src/Folder.antt =====
-- class BlitzFolder of bfold.py: a folder on the server, and the summaries of its messages. What
-- `time` makes of the date of a message is the argument `delivered`.
pub mod Loaded
pub mod Item
mod Tests
use blitzmail.Common.{
  ℕ, zero, suc, ◌+◌, ◌-◌, Bytes, codes, Bool, true, false, ltb, leb, take, length, ◌==◌, eq_ℤ, List,
  [], ◌∷◌, ◌++◌, Option, none, some, ℤ, pos, negsuc, if◌then◌else◌,
}
use blitzmail.Common.Decimal.{str}
use blitzmail.Common.Lines.{str_ℤ}
use blitzmail.Common.Match
use blitzmail.Common.Match.{Match, number, shaped}
use blitzmail.Errors.{Result, ok, err, value_error, type_error, index_error, attribute_error}
use blitzmail.Blitz.{
  Blitz, Call, go_on, ◌>>=◌, ◌>>◌, return, raise, expect_value, tell, hear, to_int, listing,
}
use blitzmail.Message.Info.{Info, parse_response}

-- what the server knows of a folder
pub record Facts : Type 0 where
  pub count : ℕ
  pub name : Bytes
  pub size : ℕ

-- A folder that was made of a number alone has no facts yet, and is to be loaded.
pub record Folder : Type 0 where
  pub session : Blitz
  pub id : ℕ
  pub need_rl : Bool
  pub facts : Option Facts

-- a method of the session, called on the folder's one
abbrev pub on_session : {A : Type 0} → Call Blitz A → Call Folder A
on_session c fd = let (r, b) = c fd.session in (r, record fd { session = b })

-- `",(\d+)` at the start of a text
unfoldable pub size_at : Bytes → Option ℕ
size_at s = elim (shaped (codes "\",") s) [
  | some (t, rest) ↦ elim (number rest) [ some (n, rest') ↦ some n | none ↦ none ]
  | none ↦ none
]

abbrev pub longer : ℕ → Option ℕ → Option (Bytes × ℕ) → Option (Bytes × ℕ)
longer c here (some (name, size)) = some (c ∷ name, size)
longer c (some size) none = some ([], size)
longer c none none = none

-- `(.*)",(\d+)`: the name goes on to the last place on its line where the rest matches
unfoldable pub name_cut : Bytes → Option (Bytes × ℕ)
name_cut [] = none
name_cut (c ∷ s) =
    let found = longer c (size_at (c ∷ s)) (name_cut s) in if c == 10 then none else found

-- `(.+)",(\d+)`
unfoldable pub name_and_size : Match (Bytes × ℕ)
name_and_size [] = none
name_and_size (c ∷ s) =
    if c == 10
    then none
    else (elim (name_cut s) [ some (name, size) ↦ some ((c ∷ name, size), []) | none ↦ none ])

-- `_info_re`
unfoldable pub info_re : Match (ℕ × Facts)
info_re s =
    (Match.◌>>=◌ number (λ id. Match.◌>>◌ (shaped (codes ",")) (
        Match.◌>>=◌ number (λ count. Match.◌>>◌ (shaped (codes ",\"")) (
          Match.◌>>=◌ name_and_size
            (λ ns. Match.matched (id, record { count = count; name = ns.0; size = ns.1 })))))))
      s

set_facts : Option ((ℕ × Facts) × Bytes) → Call Folder (Unit {0})
set_facts none fd = (err value_error, fd)
set_facts (some ((id, x), rest)) fd = (ok tt, record fd { id = id; facts = some x })

-- _parse_info
unfoldable pub parse_info : Bytes → Call Folder (Unit {0})
unfolding set_facts
parse_info line = set_facts (info_re line)

-- touch, and the end of reload
abbrev pub set_need : Bool → Call Folder (Unit {0})
set_need need fd = (ok tt, record fd { need_rl = need })

unfoldable pub reload : Call Folder (Unit {0})
reload fd =
    (do
      on_session (tell (codes "FLIS " ++ str fd.id ++ codes "\n"))
      line ← on_session (hear 0)
      parse_info line
      set_need false)
      fd

-- __getattribute__ on `count`, `name` and `size`
unfoldable pub facts : Call Folder Facts
facts fd =
    (do
      if fd.need_rl then reload else return tt
      λ fd'. (elim fd'.facts [ some x ↦ (ok x, fd') | none ↦ (err attribute_error, fd') ]))
      fd

-- the range of get_summaries: the last place is a text, a number or the dollar
unfoldable pub range : Option ℤ → Option Bytes → Bytes
range none none = codes "1-$"
range (some lo) none = str_ℤ lo
range none (some hi) = codes "1-" ++ hi
range (some lo) (some hi) = str_ℤ lo ++ codes "-" ++ hi

-- `z + 1`
unfoldable pub next : ℤ → ℤ
next (pos n) = pos (n + 1)
next (negsuc zero) = pos 0
next (negsuc (suc n)) = negsuc n

module _ (delivered : Bytes → Option ℤ) where
  -- get_summaries, on fuel for the answers
  unfoldable pub get_summaries : ℕ → Option ℤ → Option Bytes → Call Folder (List (Info × ℤ))
  get_summaries f lo hi = do
    x ← facts
    if x.count == 0 then return [] else (λ fd.
        (do
          on_session (tell (codes "FSUM " ++ str fd.id ++ codes " " ++ range lo hi ++ codes "\n"))
          answer ← on_session (expect_value (0 ∷ 1 ∷ []))
          on_session (listing f (parse_response delivered) answer))
          fd)

  -- `lst[0]`
  abbrev pub first : List (Info × ℤ) → Result (Info × ℤ)
  first [] = err index_error
  first (i ∷ is) = ok i

  unfoldable pub item_at : ℕ → ℕ → Call Folder (Info × ℤ)
  item_at f n = do
    x ← facts
    if ltb n x.count
        then (do found ← get_summaries f (some (pos (n + 1))) none; raise (first found))
        else raise (err index_error)

  -- __getitem__ at an integer: a negative one counts from the end
  unfoldable pub item : ℕ → ℤ → Call Folder (Info × ℤ)
  item f (pos n) = item_at f n
  item f (negsuc n) = do
    x ← facts
    if ltb n x.count then item_at f (x.count - suc n) else raise (err index_error)

  abbrev with_id : ℤ → List (Info × ℤ) → Result (Info × ℤ)
  with_id id [] = err index_error
  with_id id (i ∷ is) =
      let rest = with_id id is in if eq_ℤ (pos i.0.message_id) id then ok i else rest

  -- __getitem__ at a message's number, given as a text
  unfoldable pub item_with_id : ℕ → Bytes → Call Folder (Info × ℤ)
  item_with_id f text = do
    id ← raise (to_int text)
    is ← get_summaries f none none
    raise (with_id id is)

  -- `rng[:step:]`
  abbrev up_to : Option ℤ → List (Info × ℤ) → List (Info × ℤ)
  up_to none is = is
  up_to (some (pos n)) is = take n is
  up_to (some (negsuc n)) is = take (length is - suc n) is

  -- __getitem__ at a slice; `maxint` is that of the host
  unfoldable pub items : ℕ → ℤ → Option ℤ → Option ℤ → Option ℤ → Call Folder (List (Info × ℤ))
  items f maxint none stop step = raise (err type_error)
  items f maxint (some start) stop step = do
    rng ←
        get_summaries f (some (next start))
          (elim stop [ none ↦ none | some z ↦ some (if eq_ℤ z maxint then codes "$" else str_ℤ z) ])
    return (up_to step rng)

-- rename and touch; how `dnd` quotes a name is an argument
unfoldable pub rename : (Bytes → Bytes) → Bytes → Call Folder (Unit {0})
rename enquote name fd =
    (do
      on_session (tell (codes "FNAM " ++ str fd.id ++ codes " " ++ enquote name ++ codes "\n"))
      on_session (hear 10)
      set_need true)
      fd

unfoldable pub touch : Folder → Folder
touch fd = record fd { need_rl = true }
