-- ===== src/Lists/Members.antt =====
-- The members of a list, and the copy of them that its object keeps.
use blitzmail.Common.{
  ℕ, zero, suc, ◌≡◌, ◌≢◌, refl, sym, ap, ◌∙◌, arith, Bytes, Bool, true, false, List, [], ◌∷◌,
  Option, none, some, if◌then◌else◌,
}
use blitzmail.Common.Lines.{lower}
use blitzmail.Errors.{Result, ok, err}
use blitzmail.Blitz.{Call, go_on, ◌>>=◌, ◌>>◌, return}
use blitzmail.Lists.{
  group, MailList, Mail, object, change, update, with_object, load_members, members_from,
  members_of, get_members, save_members, set_members, remove_list, remove, Cache, place_of,
  get_list,
}

object-change :
    (n : ℕ) (g : MailList → MailList) (ls : List MailList) (l : MailList)
    → object n ls ≡ some l
    → object n (change n g ls) ≡ some (g l)
unfolding object change
object-change n g [] l h = cc
object-change zero g (k ∷ ls) l h = cc
object-change (suc n) g (k ∷ ls) l h = object-change n g ls l h

load_members-store : (f : ℕ) (l : MailList) (m : Mail) → (load_members f l m).1.store ≡ m.store
unfolding load_members
load_members-store f l m = ground arith

abbrev keep : List Bytes → MailList → MailList
keep members l = record l { cache = some members }

-- a list whose members are at hand
at_hand :
    (f n : ℕ) (m : Mail) (l : MailList) (members : List Bytes)
    → object n m.store ≡ some l
    → l.cache ≡ some members
    → get_members f n false m ≡ (ok members, m)
unfolding get_members
at_hand f n m l members there held = rw there (rw held)

abbrev load_and_keep : ℕ → ℕ → MailList → Call Mail (List Bytes)
load_and_keep f n l = do members ← load_members f l; update n (keep members); return members

kept :
    (f f' n : ℕ) (l : MailList) (m m' : Mail) (members : List Bytes)
    → object n m.store ≡ some l
    → load_and_keep f n l m ≡ (ok members, m')
    → get_members f' n false m' ≡ (ok members, m')
kept f f' n l m m' members there h = go (load_members f l m) refl h
  where
    go :
        (r : Result (List Bytes) × Mail)
        → load_members f l m ≡ r
        → go_on (λ ms. ◌>>◌ (update n (keep ms)) (return ms)) r ≡ (ok members, m')
        → get_members f' n false m' ≡ (ok members, m')
    go (err x, s) e h = cc
    go (ok ms, s) e h =
        let same : s.store ≡ m.store = ap (λ p. p.1.store) (sym e) ∙ load_members-store f l m in
        let ended : record s { store = change n (keep ms) s.store } ≡ m' = ap (λ p. p.1) h in
        let values : ms ≡ members = cc in
        rw (← ended, ← values)
          (at_hand f' n (record s { store = change n (keep ms) s.store }) (keep ms l) ms
            (object-change n (keep ms) s.store l (rw same there)) refl)

-- What get_members has returned once it returns again, without a word to the server, unless its
-- members are asked for by force, or another step of the session comes between.
pub get_members_again :
    (f f' n : ℕ) (force : Bool) (m : Mail) {m' : Mail} {members : List Bytes}
    → get_members f n force m ≡ (ok members, m')
    → get_members f' n false m' ≡ (ok members, m')
unfolding get_members
get_members_again f f' n force m {m'} {members} h = go (object n m.store) refl h
  where
    from :
        (l : MailList) (known : Option (List Bytes))
        → object n m.store ≡ some l
        → (known ≢ none → l.cache ≡ known)
        → members_from f n l known m ≡ (ok members, m')
        → get_members f' n false m' ≡ (ok members, m')
    from l none e held h = kept f f' n l m m' members e h
    from l (some ms) e held h =
        let ended : m ≡ m' = ap (λ p. p.1) h in
        let values : ms ≡ members = cc in
        rw (← ended, ← values) (at_hand f' n m l ms e (held (λ none_held. cc)))

    known_lem :
        (force : Bool) (cache : Option (List Bytes))
        → (if force then none else cache) ≢ none
        → cache ≡ (if force then none else cache)
    known_lem true cache h = absurd (h refl)
    known_lem false cache h = refl

    go :
        (o : Option MailList)
        → object n m.store ≡ o
        → with_object (members_of f n force) o m ≡ (ok members, m')
        → get_members f' n false m' ≡ (ok members, m')
    go none e h = cc
    go (some l) e h = from l (if force then none else l.cache) e (known_lem force l.cache) h

save_members-store :
    (n : ℕ) (members : List Bytes) (l : MailList) (m m' : Mail)
    → save_members n members l m ≡ (ok tt, m')
    → m'.store ≡ change n (λ l. record l { fresh = false }) m.store
unfolding save_members
save_members-store n members l m m' h = ground arith

-- After set_members, get_members still returns the members that were read before: what the object
-- keeps is not forgotten, so that the new members are not seen until they are asked for by force.
pub get_members-set_members :
    (f n : ℕ) (new : List Bytes) (m : Mail) {m' : Mail} (l : MailList) {members : List Bytes}
    → object n m.store ≡ some l
    → l.cache ≡ some members
    → set_members n new m ≡ (ok tt, m')
    → get_members f n false m' ≡ (ok members, m')
unfolding set_members
get_members-set_members f n new m {m'} l {members} there held h =
    let opened : with_object (save_members n new) (object n m.store) m
        ≡ with_object (save_members n new) (some l) m =
      ap (λ o. with_object (save_members n new) o m) there in
    at_hand f n m' (record l { fresh = false }) members
      (rw (save_members-store n new l m m' (sym opened ∙ h))
        (object-change n (λ l. record l { fresh = false }) m.store l there))
      held

remove-gl_cache :
    (n : ℕ) (m : Mail) {m' : Mail} → remove n m ≡ (ok tt, m') → m'.gl_cache ≡ m.gl_cache
unfolding remove remove_list
remove-gl_cache n m h = ground arith

-- A group list that is in the cache is still found there after it was removed on the server: of the
-- two caches, the one of private lists alone loses the name of what is removed.
pub get_list-remove :
    (f n : ℕ) (name : Bytes) (m : Mail) {m' : Mail} {c : Cache} {i : ℕ}
    → m.gl_cache ≡ some c
    → place_of (lower name) c ≡ some i
    → remove n m ≡ (ok tt, m')
    → get_list f group name false m' ≡ (ok i, m')
unfolding get_list
get_list-remove f n name m {m'} {c} cached there h =
    let kept : m'.gl_cache ≡ some c = remove-gl_cache n m h ∙ cached in ground arith
