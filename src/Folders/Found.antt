-- ===== src/Folders/Found.antt =====
-- A folder is found among those that the server lists.
use blitzmail.Common.{
  ℕ, suc, ◌<◌, ◌≡◌, refl, ap, arith, Bytes, codes, eq_bytes, Bool, false, not, length,
  length-append, ◌==◌, List, [], ◌∷◌, ◌++◌, append_assoc, map, some, if◌then◌else◌, Bool-cases, inl,
  inr,
}
use blitzmail.Common.Lines.{lower}
use blitzmail.Errors.{Result, ok, err, index_error}
use blitzmail.Blitz.{listing}
use blitzmail.Blitz.Online.{online, says, tell-online, expect_value-says}
use blitzmail.Blitz.Listing.{says_all, IsAnswer, Made, until_lem, settle}
use blitzmail.Folder.{Facts, facts}
use blitzmail.Folders.{
  Held, Box, held_at, put_at, on_folder, make_folder, places, load_folders, get_folders,
  search_name, search_id, get_folder, get_folder_id,
}

-- a folder as a line of the server makes it
abbrev pub fresh : ℕ × Facts → Held
fresh (id, x) = record { id = id; need_rl = false; known = some x }

-- the places of the first folder of a name, in whatever case, and of the first of a number
abbrev pub first_named : Bytes → ℕ → List (ℕ × Facts) → Result ℕ
first_named name n [] = err index_error
first_named name n ((id, x) ∷ fs) =
    if eq_bytes (lower x.name) (lower name) then ok n else first_named name (suc n) fs

abbrev pub first_numbered : ℕ → ℕ → List (ℕ × Facts) → Result ℕ
first_numbered key n [] = err index_error
first_numbered key n ((id, x) ∷ fs) = if id == key then ok n else first_numbered key (suc n) fs

held_at-append :
    (before after : List Held) (h : Held) → held_at (length before) (before ++ h ∷ after) ≡ some h
unfolding held_at
held_at-append [] after h = refl
held_at-append (k ∷ before) after h = held_at-append before after h

put_at-append :
    (before after : List Held) (h : Held)
    → put_at (length before) h (before ++ h ∷ after) ≡ before ++ h ∷ after
unfolding put_at
put_at-append [] after h = refl
put_at-append (k ∷ before) after h = ap (λ hs. k ∷ hs) (put_at-append before after h)

length-snoc : (before : List Held) (h : Held) → length (before ++ h ∷ []) ≡ suc (length before)
length-snoc before h = rw (length-append before (h ∷ [])) (omega arith)

module _ (x : Box) where
  facts-fresh :
      (before after : List Held) (f : ℕ × Facts)
      → on_folder (length before) facts (record x { store = before ++ fresh f ∷ after })
        ≡ (ok f.1, record x { store = before ++ fresh f ∷ after })
  unfolding on_folder facts
  facts-fresh before after f =
      rw (on_folder, held_at-append before after (fresh f))
        (rw (put_at-append before after (fresh f)))

  search_name-places :
      (name : Bytes) (before : List Held) (fs : List (ℕ × Facts))
      → search_name name
          (places (length before) (map fresh fs))
          (record x { store = before ++ map fresh fs })
        ≡ (first_named name (length before) fs, record x { store = before ++ map fresh fs })
  unfolding search_name places
  search_name-places name before [] = refl
  search_name-places name before (f ∷ fs) =
      let next = search_name-places name (before ++ fresh f ∷ []) fs in
      let later =
        rw (length-snoc before (fresh f), append_assoc before (fresh f ∷ []) (map fresh fs)) at
          next in
      let here = facts-fresh before (map fresh fs) f in
      elim (Bool-cases (eq_bytes (lower f.1.name) (lower name))) [
        | inl e ↦ rw here (rw e)
        | inr e ↦ rw here (rw e later)
      ]

  search_id-places :
      (key : ℕ) (before : List Held) (fs : List (ℕ × Facts))
      → search_id key
          (places (length before) (map fresh fs))
          (record x { store = before ++ map fresh fs })
        ≡ (first_numbered key (length before) fs, record x { store = before ++ map fresh fs })
  unfolding search_id places
  search_id-places key before [] = refl
  search_id-places key before (f ∷ fs) =
      let next = search_id-places key (before ++ fresh f ∷ []) fs in
      let later =
        rw (length-snoc before (fresh f), append_assoc before (fresh f ∷ []) (map fresh fs)) at
          next in
      let here = held_at-append before (map fresh fs) (fresh f) in
      elim (Bool-cases (f.0 == key)) [
        | inl e ↦ rw (search_id, here) (rw e)
        | inr e ↦ rw (search_id, here) (rw e later)
      ]

module _ (store : List Held) (w : ℕ) (a : ℕ × Bytes) (more : List (ℕ × Bytes)) (rest sent : Bytes)
    (warn : Bool) where
  -- the session before the folders are asked for, and afterwards
  abbrev pub asking : Box
  asking = record {
    session = online (says w a.0 a.1 ++ (says_all w more ++ rest)) sent warn;
    store = store;
    fl_cache = [];
  }

  abbrev pub listed : List (ℕ × Facts) → Box
  listed fs = record {
    session = online rest (sent ++ codes "FLIS\n") (not (w == 0));
    store = store ++ map fresh fs;
    fl_cache = places (length store) (map fresh fs);
  }

module _ (store : List Held) (w : ℕ) (hw : w < 10) (a : ℕ × Bytes) (more : List (ℕ × Bytes))
    (fs : List (ℕ × Facts)) (rest sent : Bytes) (warn : Bool) (answer : IsAnswer (0 ∷ 1 ∷ []) a)
    (made : Made (0 ∷ 1 ∷ []) (λ n. n == 0) (λ a. make_folder a.1) a more (map fresh fs)) where
  load_folders_lem :
      load_folders (suc (length more)) (asking store w a more rest sent warn)
      ≡ (ok (places (length store) (map fresh fs)), listed store w a more rest sent warn fs)
  unfolding load_folders listing
  load_folders_lem =
      rw
        (
          tell-online,
          expect_value-says (0 ∷ 1 ∷ []) w a.0 a.1 (says_all w more ++ rest)
              (sent ++ codes "FLIS\n") warn hw answer.0 answer.1 answer.2,
        )
        (rw (
          until_lem (0 ∷ 1 ∷ []) (λ n. n == 0) (λ a. make_folder a.1) w a more (map fresh fs) rest
              (sent ++ codes "FLIS\n") (not (w == 0)) hw made,
          settle w more,
        ))

  -- Where no folders are kept, they are asked for, and a folder is found by a name, in whatever case,
  -- or by a number: it is the first that the server lists with it, and where there is none, IndexError
  -- is raised. The folders listed are kept, after those made before, and the answers are read up to
  -- the first with the code 0.
  pub get_folder-loads :
      (name : Bytes) (id : ℕ) (force : Bool)
      → (get_folder (suc (length more)) name force (asking store w a more rest sent warn)
          ≡ (first_named name (length store) fs, listed store w a more rest sent warn fs))
        × (get_folder_id (suc (length more)) id force (asking store w a more rest sent warn)
            ≡ (first_numbered id (length store) fs, listed store w a more rest sent warn fs))
  unfolding get_folder get_folder_id get_folders
  get_folder-loads name id force = (
    rw load_folders_lem
        (search_name-places (listed store w a more rest sent warn fs) name store fs),
    rw load_folders_lem (search_id-places (listed store w a more rest sent warn fs) id store fs),
  )
