-- ===== src/Folders.antt =====
-- The folders of class BlitzSession of session.py: their cache, the search for one of them, and how
-- one is made. How a name is quoted for the server is the argument `enquote`.
pub mod Found
mod Tests
use blitzmail.Common.{
  ℕ, zero, suc, ◌+◌, Bytes, codes, eq_bytes, Bool, true, false, not, ◌||◌, length, ◌==◌, List, [],
  ◌∷◌, ◌++◌, Option, none, some, ℤ, pos, negsuc, if◌then◌else◌,
}
use blitzmail.Common.Lines.{lower}
use blitzmail.Errors.{Result, ok, err, value_error, index_error}
use blitzmail.Blitz.{
  Blitz, Call, ◌>>=◌, ◌>>◌, return, raise, expect_value, tell, hear, to_int, listing,
}
use blitzmail.Folder.{Facts, Folder, info_re, facts, set_need}

-- A BlitzFolder without its session. Numbers of folders are natural.
pub record Held : Type 0 where
  pub id : ℕ
  pub need_rl : Bool
  pub known : Option Facts

-- The session, the folders that were made, and the places of those in the cache. The cache that is
-- None and the one that is empty are treated alike.
pub record Box : Type 0 where
  pub session : Blitz
  pub store : List Held
  pub fl_cache : List ℕ

abbrev pub on_session : {A : Type 0} → Call Blitz A → Call Box A
on_session c x = let (r, b) = c x.session in (r, record x { session = b })

unfoldable pub held_at : ℕ → List Held → Option Held
held_at n [] = none
held_at zero (h ∷ hs) = some h
held_at (suc n) (h ∷ hs) = held_at n hs

unfoldable pub put_at : ℕ → Held → List Held → List Held
put_at n h [] = []
put_at zero h (k ∷ hs) = h ∷ hs
put_at (suc n) h (k ∷ hs) = k ∷ put_at n h hs

-- a folder of the session, and what is left of it
abbrev pub joined : Blitz → Held → Folder
joined b h = record { session = b; id = h.id; need_rl = h.need_rl; facts = h.known }

abbrev pub parted : Folder → Held
parted fd = record { id = fd.id; need_rl = fd.need_rl; known = fd.facts }

-- a method of the folder at a place
on_folder : {A : Type 0} → ℕ → Call Folder A → Call Box A
unfolding held_at put_at
on_folder n c x = elim (held_at n x.store) [
  | some h ↦
      (let (r, fd) = c (joined x.session h) in
        (r, record x { session = fd.session; store = put_at n (parted fd) x.store }))
  | none ↦ (err index_error, x)
]

-- BlitzFolder(self, info=data)
made : Option ((ℕ × Facts) × Bytes) → Result Held
made (some ((id, x), rest)) = ok (record { id = id; need_rl = false; known = some x })
made none = err value_error

unfoldable pub make_folder : Bytes → Result Held
unfolding made
make_folder line = made (info_re line)

unfoldable pub places : ℕ → List Held → List ℕ
places n [] = []
places n (h ∷ hs) = n ∷ places (suc n) hs

-- get_folders, on fuel for the answers
load_folders : ℕ → Call Box (List ℕ)
unfolding make_folder places
load_folders f = do
  on_session (tell (codes "FLIS\n"))
  answer ← on_session (expect_value (0 ∷ 1 ∷ []))
  hs ← on_session (listing f make_folder answer)
  λ x. (
    ok (places (length x.store) hs),
    record x { store = x.store ++ hs; fl_cache = places (length x.store) hs },
  )

unfoldable pub get_folders : ℕ → Bool → Call Box (List ℕ)
unfolding load_folders
get_folders f force x = elim x.fl_cache [
  | [] ↦ load_folders f x
  | n ∷ ns ↦ (if force then load_folders f x else (ok (n ∷ ns), x))
]

-- the first of the folders whose name or number it is
search_name : Bytes → List ℕ → Call Box ℕ
unfolding on_folder
search_name name [] = raise (err index_error)
search_name name (n ∷ ns) = do
  y ← on_folder n facts
  if eq_bytes (lower y.name) (lower name) then return n else search_name name ns

search_id : ℕ → List ℕ → Call Box ℕ
search_id id [] x = (err index_error, x)
search_id id (n ∷ ns) x =
    let rest = search_id id ns x in
    elim (held_at n x.store) [
      | some h ↦ (if h.id == id then (ok n, x) else rest)
      | none ↦ (err index_error, x)
    ]

-- get_folder, by a name and by a number
unfoldable pub get_folder : ℕ → Bytes → Bool → Call Box ℕ
unfolding get_folders search_name
get_folder f name force = do ns ← get_folders f force; search_name name ns

unfoldable pub get_folder_id : ℕ → ℕ → Bool → Call Box ℕ
unfolding get_folders search_id
get_folder_id f id force = do ns ← get_folders f force; search_id id ns

-- the `id` of a folder made of a number; a negative one is not considered
unfoldable pub folder_number : ℤ → Result ℕ
folder_number (pos n) = ok n
folder_number (negsuc n) = err value_error

-- create_folder
unfoldable pub create_folder : (Bytes → Bytes) → Bytes → Call Box ℕ
unfolding folder_number
create_folder enquote name = do
  on_session (tell (codes "FDEF " ++ enquote name ++ codes "\n"))
  text ← on_session (hear 0)
  λ x.
      (do
        z ← raise (to_int text)
        id ← raise (folder_number z)
        λ y. (
          ok (length y.store),
          record y { store = y.store ++ record { id = id; need_rl = true; known = none } ∷ [] },
        ))
        (record x { fl_cache = [] })

-- empty_trash
unfoldable pub empty_trash : ℕ → Call Box (Unit {0})
unfolding get_folder
empty_trash f = do
  on_session (tell (codes "TRSH\n"))
  on_session (hear 10)
  n ← get_folder f (codes "trash") false
  on_folder n (set_need true)
