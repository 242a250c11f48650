-- ===== src/Lists.antt =====
-- The mailing lists of blist.py, and the caches of them that class BlitzSession of session.py keeps.
-- A list is an object that the cache and its users share: it is known by its place in the store.
pub mod Cache
pub mod Members
mod Tests
use blitzmail.Common.{
  ℕ, zero, suc, ◌+◌, Bytes, codes, eq_bytes, Bool, true, false, not, ◌&&◌, ◌||◌, ◌==◌, length, List,
  [], ◌∷◌, ◌++◌, map, Option, none, some, ℤ, if◌then◌else◌,
}
use blitzmail.Common.Decimal.{str}
use blitzmail.Common.Lines.{lower, commas, join}
use blitzmail.Errors.{Result, ok, err, value_error, key_error, index_error}
use blitzmail.Blitz.{
  Blitz, Call, go_on, ◌>>=◌, ◌>>◌, return, raise, expect_value, tell, hear, to_int, listing,
}

pub data Kind : Type 0 where
  group : Kind
  own : Kind

-- `_list_group` and `_list_private`
unfoldable pub type_code : Kind → Bytes
type_code group = codes "2"
type_code own = codes "1"

-- BlitzList; `perms` is what a group list may be used for, where that is known
pub record MailList : Type 0 where
  pub kind : Kind
  pub name : Bytes
  pub fresh : Bool
  pub cache : Option (List Bytes)
  pub perms : Option ℤ

-- `pl_cache` and `gl_cache`: the places of lists in the store, under their names in lower case
abbrev pub Cache : Type 0
Cache = List (Bytes × ℕ)

pub record Mail : Type 0 where
  pub session : Blitz
  pub store : List MailList
  pub pl_cache : Option Cache
  pub gl_cache : Option Cache

abbrev pub on_session : {A : Type 0} → Call Blitz A → Call Mail A
on_session c m = let (r, b) = c m.session in (r, record m { session = b })

abbrev pub cache_of : Kind → Mail → Option Cache
cache_of group m = m.gl_cache
cache_of own m = m.pl_cache

abbrev pub with_cache : Kind → Cache → Mail → Mail
with_cache group c m = record m { gl_cache = some c }
with_cache own c m = record m { pl_cache = some c }

abbrev pub set_cache : Kind → Cache → Call Mail (Unit {0})
set_cache kind c m = (ok tt, with_cache kind c m)

-- `cache[key] = place`
unfoldable pub put : Bytes → ℕ → Cache → Cache
put key n [] = (key, n) ∷ []
put key n ((k, i) ∷ c) =
    let rest = put key n c in if eq_bytes k key then (k, n) ∷ c else (k, i) ∷ rest

-- `del cache[key]`, where a missing key is ignored
unfoldable pub delete : Bytes → Cache → Cache
delete key [] = []
delete key ((k, i) ∷ c) = let rest = delete key c in if eq_bytes k key then c else (k, i) ∷ rest

-- `cache[key]`
unfoldable pub place_of : Bytes → Cache → Option ℕ
place_of key [] = none
place_of key ((k, i) ∷ c) = let rest = place_of key c in if eq_bytes k key then some i else rest

-- the lists as the server names them; a group list comes with its permissions
abbrev pub new_list : Kind → Bytes → Option ℤ → Bool → MailList
new_list kind name perms fresh = record {
  kind = kind;
  name = name;
  fresh = fresh;
  cache = none;
  perms = perms;
}

access_of : Bytes → List Bytes → Result MailList
access_of name (access ∷ []) = elim (to_int access) [
  | ok z ↦ ok (new_list group name (some z) false)
  | err x ↦ err x
]
access_of name words = err value_error

unfoldable pub made_of : Kind → Bytes → Result MailList
unfolding access_of
made_of own line = ok (new_list own line none false)
made_of group line = let (name, words) = commas line in access_of name words

-- `for lst in out: cache[lst.name.lower()] = lst`, where `lst` is the next of the store
unfoldable pub enter : ℕ → List MailList → Cache → Cache
enter n [] c = c
enter n (l ∷ ls) c = enter (suc n) ls (put (lower l.name) n c)

places : ℕ → List MailList → List ℕ
places n [] = []
places n (l ∷ ls) = n ∷ places (suc n) ls

abbrev pub is_filled : Option Cache → Bool
is_filled (some (e ∷ c)) = true
is_filled (some []) = false
is_filled none = false

-- the lists go to the end of the store and into the cache
unfoldable pub keep_lists : Kind → List MailList → Call Mail (List ℕ)
unfolding places
keep_lists kind ls m =
    let n = length m.store in
    (ok (places n ls), with_cache kind (enter n ls []) (record m { store = m.store ++ ls }))

abbrev pub values : Option Cache → List ℕ
values (some c) = map (λ e. e.1) c
values none = []

-- the answers to LSTS, of which 2 says that there are no lists
unfoldable pub load_lists : ℕ → Kind → Call Mail (List ℕ)
load_lists f kind = do
  set_cache kind []
  on_session (tell (codes "LSTS " ++ type_code kind ++ codes "\n"))
  answer ← on_session (expect_value (0 ∷ 1 ∷ 2 ∷ []))
  if answer.0 == 2
      then return []
      else (do ls ← on_session (listing f (made_of kind) answer); keep_lists kind ls)

-- get_group_lists and get_private_lists
unfoldable pub get_lists : ℕ → Kind → Bool → Call Mail (List ℕ)
get_lists f kind force m =
    if is_filled (cache_of kind m) && not force
    then (ok (values (cache_of kind m)), m)
    else load_lists f kind m

abbrev pub is_none : Option Cache → Bool
is_none none = true
is_none (some c) = false

abbrev pub look : Bytes → Option Cache → Result ℕ
look key none = err key_error
look key (some c) = elim (place_of key c) [ some n ↦ ok n | none ↦ err key_error ]

-- get_group_list and get_private_list
unfoldable pub get_list : ℕ → Kind → Bytes → Bool → Call Mail ℕ
get_list f kind name force m =
    (do
      if force || is_none (cache_of kind m) then get_lists f kind force else return []
      λ m'. (look (lower name) (cache_of kind m'), m'))
      m

abbrev entries : Option Cache → Cache
entries none = []
entries (some c) = c

abbrev created : Kind → Bytes → Result ℕ × Mail → Result ℕ × Mail
created kind name (ok n, m) = (ok n, m)
created kind name (err key_error, m) =
    let n = length m.store in
    (
      ok n,
      with_cache kind (put (lower name) n (entries (cache_of kind m)))
          (record m { store = m.store ++ new_list kind name none true ∷ [] }),
    )
created kind name (err x, m) = (err x, m)

-- create_group_list and create_private_list
unfoldable pub create_list : ℕ → Kind → Bytes → Call Mail ℕ
create_list f kind name m = created kind name (get_list f kind name false m)

-- the object at a place of the store, and a change of it; there is one at each place in use
unfoldable pub object : ℕ → List MailList → Option MailList
object n [] = none
object zero (l ∷ ls) = some l
object (suc n) (l ∷ ls) = object n ls

unfoldable pub change : ℕ → (MailList → MailList) → List MailList → List MailList
change n g [] = []
change zero g (l ∷ ls) = g l ∷ ls
change (suc n) g (l ∷ ls) = l ∷ change n g ls

abbrev pub update : ℕ → (MailList → MailList) → Call Mail (Unit {0})
update n g m = (ok tt, record m { store = change n g m.store })

abbrev pub with_object : {A : Type 0} → (MailList → Call Mail A) → Option MailList → Call Mail A
with_object body none m = (err index_error, m)
with_object body (some l) m = body l m

-- _load_members
unfoldable pub load_members : ℕ → MailList → Call Mail (List Bytes)
load_members f l = if l.fresh then return [] else (do
  on_session (tell (codes "LIST " ++ l.name ++ codes "," ++ type_code l.kind ++ codes "\n"))
  answer ← on_session (expect_value (0 ∷ 1 ∷ []))
  on_session (listing f ok answer))

members_from : ℕ → ℕ → MailList → Option (List Bytes) → Call Mail (List Bytes)
members_from f n l (some members) = return members
members_from f n l none = do
  members ← load_members f l
  update n (λ l. record l { cache = some members })
  return members

-- `if self.cache is None or force: …`
abbrev members_of : ℕ → ℕ → Bool → MailList → Call Mail (List Bytes)
members_of f n force l = members_from f n l (if force then none else l.cache)

-- get_members
unfoldable pub get_members : ℕ → ℕ → Bool → Call Mail (List Bytes)
unfolding members_from
get_members f n force m = with_object (members_of f n force) (object n m.store) m

-- `udata` of _save_members
ended : Bytes → Bytes
ended [] = codes "\n"
ended (c ∷ []) = if c == 10 then c ∷ [] else c ∷ codes "\n"
ended (c ∷ d ∷ s) = c ∷ ended (d ∷ s)

-- _save_members
unfoldable pub save_members : ℕ → List Bytes → MailList → Call Mail (Unit {0})
unfolding ended
save_members n members l = do
  let udata = ended (join (codes "\n") members)
  on_session (tell (codes "LDAT " ++ str (length udata) ++ codes "\n"))
  on_session (hear 50)
  on_session (tell udata)
  on_session (hear 10)
  on_session (tell (codes "LDEF " ++ l.name ++ codes "," ++ type_code l.kind ++ codes "\n"))
  on_session (hear 10)
  update n (λ l. record l { fresh = false })

-- set_members
unfoldable pub set_members : ℕ → List Bytes → Call Mail (Unit {0})
set_members n members m = with_object (save_members n members) (object n m.store) m

abbrev dropped : Bytes → Option Cache → Option Cache
dropped key none = none
dropped key (some c) = some (delete key c)

-- _remove_list: whatever its kind, the name goes from the cache of private lists
unfoldable pub remove_list : MailList → Call Mail (Unit {0})
remove_list l = do
  if l.fresh then return tt else (do
    on_session (tell (codes "LREM " ++ l.name ++ codes "," ++ type_code l.kind ++ codes "\n"))
    on_session (hear 10)
    return tt)
  λ m. (ok tt, record m { pl_cache = dropped (lower l.name) m.pl_cache })

-- remove
unfoldable pub remove : ℕ → Call Mail (Unit {0})
remove n m = with_object remove_list (object n m.store) m
