-- ===== src/Lists/Cache.antt =====
-- Lists are found by name in the caches.
use blitzmail.Common.{
  append_assoc, ◌==◌, ℕ, suc, ◌<◌, ◌≡◌, refl, ap, ◌∙◌, arith, Bytes, codes, eq_bytes, Bool, true,
  false, ◌&&◌, not, List, [], ◌∷◌, ◌++◌, length, Option, none, some, if◌then◌else◌, Bool-cases, inl,
  inr, eq_bytes_refl, eq_bytes→eq,
}
use blitzmail.Common.Lines.{lower}
use blitzmail.Errors.{Result, ok, err, Error, key_error}
use blitzmail.Blitz.Online.{online, says, tell-online, expect_value-says}
use blitzmail.Blitz.Listing.{says_all, IsAnswer, Made, until_lem, settle}
use blitzmail.Blitz.{expect_value, listing}
use blitzmail.Lists.{
  Kind, group, own, type_code, MailList, Mail, Cache, cache_of, with_cache, put, place_of, made_of,
  enter, keep_lists, places, load_lists, get_lists, is_filled, look, get_list,
}

load_lists-err :
    (f : ℕ) (kind : Kind) (m : Mail) {x : Error} {m' : Mail}
    → load_lists f kind m ≡ (err x, m')
    → cache_of kind m' ≡ some []
unfolding load_lists keep_lists
load_lists-err f group m h = ground arith
load_lists-err f own m h = ground arith

-- A failure while the lists are loaded leaves an empty cache behind: after it every list is said not
-- to exist, by KeyError, and the server is not asked again.
pub get_list_after_failure :
    (f f' : ℕ) (kind : Kind) (name : Bytes) (m : Mail) {x : Error} {m' : Mail}
    → load_lists f kind m ≡ (err x, m')
    → get_list f' kind name false m' ≡ (err key_error, m')
unfolding get_list place_of
get_list_after_failure f f' kind name m {m' = m'} h =
    let empty : cache_of kind m' ≡ some [] = load_lists-err f kind m h in ground arith

-- the place of the last of the lists that has a name, counted from `n`
abbrev pub last_named : Bytes → ℕ → List MailList → Option ℕ → Option ℕ
last_named key n [] found = found
last_named key n (l ∷ ls) found =
    last_named key (suc n) ls (if eq_bytes (lower l.name) key then some n else found)

place_of-put :
    (key k : Bytes) (n : ℕ) (c : Cache)
    → place_of key (put k n c) ≡ (if eq_bytes k key then some n else place_of key c)
unfolding place_of put
place_of-put key k n [] = refl
place_of-put key k n ((j, i) ∷ c) = elim (Bool-cases (eq_bytes j k)) [
  | inl same ↦ rw (same, eq_bytes→eq j k same) (choose (eq_bytes k key))
  | inr other ↦ rw other (elim (Bool-cases (eq_bytes j key)) [
    | inl here ↦ rw (here, apart (eq_bytes→eq j key here) other)
    | inr away ↦ rw (away, place_of-put key k n c)
  ])
]
  where
    choose :
        (b : Bool)
        → (if b then some n else place_of key c)
          ≡ (if b then some n else (if b then some i else place_of key c))
    choose true = refl
    choose false = refl

    apart : j ≡ key → eq_bytes j k ≡ false → eq_bytes k key ≡ false
    apart e other = elim (Bool-cases (eq_bytes k key)) [
      | inl same ↦
          (let both : eq_bytes j k ≡ true = rw (e, eq_bytes→eq k key same) (eq_bytes_refl key) in
            cc)
      | inr away ↦ away
    ]

place_of-enter :
    (key : Bytes) (n : ℕ) (ls : List MailList) (c : Cache)
    → place_of key (enter n ls c) ≡ last_named key n ls (place_of key c)
unfolding enter
place_of-enter key n [] c = refl
place_of-enter key n (l ∷ ls) c =
    place_of-enter key (suc n) ls (put (lower l.name) n c)
    ∙ ap (last_named key (suc n) ls) (place_of-put key (lower l.name) n c)

abbrev pub found_at : Option ℕ → Result ℕ
found_at none = err key_error
found_at (some n) = ok n

abbrev pub lsts : Kind → Bytes
lsts kind = codes "LSTS " ++ type_code kind ++ codes "\n"

-- the mail session after its lists were loaded
abbrev pub with_lists : Kind → List MailList → Bytes → Bytes → Bool → Mail → Mail
with_lists kind ls input sent warn m =
    with_cache kind (enter (length m.store) ls [])
      (record m { session = online input sent warn; store = m.store ++ ls })

look-found : (key : Bytes) (c : Cache) → look key (some c) ≡ found_at (place_of key c)
look-found key c = go (place_of key c)
  where
    go :
        (o : Option ℕ)
        → ◌≡◌ {A = Result ℕ} (elim o [ some n ↦ ok n | none ↦ err key_error ]) (found_at o)
    go none = refl
    go (some n) = refl

cached_lists :
    (kind : Kind) (ls : List MailList) (input sent : Bytes) (warn : Bool) (m : Mail)
    → cache_of kind (with_lists kind ls input sent warn m) ≡ some (enter (length m.store) ls [])
cached_lists group ls input sent warn m = refl
cached_lists own ls input sent warn m = refl

and_false : (b : Bool) → (b && false) ≡ false
and_false true = refl
and_false false = refl

module _ (w : ℕ) (hw : w < 10) (a : ℕ × Bytes) (more : List (ℕ × Bytes))
    (first : IsAnswer (0 ∷ 1 ∷ 2 ∷ []) a) (some_lists : (a.0 == 2) ≡ false) (ls : List MailList)
    (rest sent : Bytes) (warn : Bool) (m : Mail) where
  -- the lists of the server, the answers to LSTS
  abbrev Served : Kind → Type 0
  Served kind = Made (0 ∷ 1 ∷ []) (λ n. n == 0) (λ a. made_of kind a.1) a more ls

  abbrev facing : Mail
  facing = record m { session = online (says_all w (a ∷ more) ++ rest) sent warn }

  first_lem :
      (kind : Kind)
      → expect_value
          (0 ∷ 1 ∷ 2 ∷ [])
          (online (says w a.0 a.1 ++ (says_all w more ++ rest)) (sent ++ lsts kind) warn)
        ≡ (ok a, online (says_all w more ++ rest) (sent ++ lsts kind) (not (w == 0)))
  first_lem kind =
      expect_value-says (0 ∷ 1 ∷ 2 ∷ []) w a.0 a.1 (says_all w more ++ rest) (sent ++ lsts kind)
        warn hw first.0 first.1 first.2

  listing_lem :
      (kind : Kind)
      → Served kind
      → listing
          (suc (length more))
          (made_of kind)
          a
          (online (says_all w more ++ rest) (sent ++ lsts kind) (not (w == 0)))
        ≡ (ok ls, online rest (sent ++ lsts kind) (not (w == 0)))
  unfolding listing
  listing_lem kind made = rw (
    until_lem (0 ∷ 1 ∷ []) (λ n. n == 0) (λ a. made_of kind a.1) w a more ls rest
        (sent ++ lsts kind) (not (w == 0)) hw made,
    settle w more,
  )

  load_lists_lem :
      (kind : Kind)
      → Served kind
      → load_lists (suc (length more)) kind facing ≡ (
        ok (places (length m.store) ls),
        with_lists kind ls rest (sent ++ lsts kind) (not (w == 0)) m,
      )
  unfolding load_lists keep_lists type_code
  load_lists_lem own made =
      rw
        (
          append_assoc (says w a.0 a.1) (says_all w more) rest,
          tell-online,
          first_lem own,
          some_lists,
        )
        (rw (listing_lem own made))
  load_lists_lem group made =
      rw
        (
          append_assoc (says w a.0 a.1) (says_all w more) rest,
          tell-online,
          first_lem group,
          some_lists,
        )
        (rw (listing_lem group made))

  -- get_group_list and get_private_list with force load the lists that the server names and return
  -- the last of these with the name asked for in whatever case, by its place in the store; where
  -- there is none they raise KeyError. The store keeps all lists before it, the new ones follow in
  -- the server's order, and the cache holds them under their names in lower case.
  pub get_list-loads :
      (kind : Kind) (name : Bytes)
      → Served kind
      → get_list (suc (length more)) kind name true facing ≡ (
        found_at (last_named (lower name) (length m.store) ls none),
        with_lists kind ls rest (sent ++ lsts kind) (not (w == 0)) m,
      )
  unfolding get_list get_lists place_of
  get_list-loads own name made = rw (and_false (is_filled m.pl_cache)) (
      rw (load_lists_lem own made) (
        rw (
          look-found (lower name) (enter (length m.store) ls []),
          place_of-enter (lower name) (length m.store) ls [],
        )))
  get_list-loads group name made = rw (and_false (is_filled m.gl_cache)) (
      rw (load_lists_lem group made) (
        rw (
          look-found (lower name) (enter (length m.store) ls []),
          place_of-enter (lower name) (length m.store) ls [],
        )))
