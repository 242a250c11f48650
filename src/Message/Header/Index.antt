-- ===== src/Message/Header/Index.antt =====
-- A header line is found by its name, in whatever case.
use blitzmail.Common.{
  ◌≡◌, refl, ap, ◌∙◌, Bytes, eq_bytes, Bool, true, false, List, [], ◌∷◌, ◌++◌, append_assoc,
  append-nil, map, Option, none, some, if◌then◌else◌, Bool-cases, inl, inr, select, eq_bytes_refl,
  eq_bytes→eq,
}
use blitzmail.Common.Lines.{lower}
use blitzmail.Errors.{Result, ok, err, key_error}
use blitzmail.Message.Header.{Index, add_line, add_lines, find, each, get}

abbrev added : Bytes → Bytes → Option (Bytes × List Bytes) → Option (Bytes × List Bytes)
added name v none = some (name, v ∷ [])
added name v (some (n, vs)) = some (n, vs ++ v ∷ [])

find-add_line :
    (key k name v : Bytes) (index : Index)
    → find key (add_line k name v index)
      ≡ (if eq_bytes k key then added name v (find key index) else find key index)
unfolding find add_line
find-add_line key k name v [] = refl
find-add_line key k name v ((j, n, vs) ∷ index) = elim (Bool-cases (eq_bytes j k)) [
  | inl same ↦ rw (same, eq_bytes→eq j k same) (choose (eq_bytes k key))
  | inr other ↦ rw other (elim (Bool-cases (eq_bytes j key)) [
    | inl here ↦ rw (here, apart (eq_bytes→eq j key here) other)
    | inr away ↦ rw away (find-add_line key k name v index)
  ])
]
  where
    choose :
        (b : Bool)
        → (if b then some (n, vs ++ v ∷ []) else find key index) ≡ (
            if b
            then added name v (if b then some (n, vs) else find key index)
            else (if b then some (n, vs) else find key index))
    choose true = refl
    choose false = refl

    apart : j ≡ key → eq_bytes j k ≡ false → eq_bytes k key ≡ false
    apart e other = elim (Bool-cases (eq_bytes k key)) [
      | inl same ↦
          (let both : eq_bytes j k ≡ true = rw (e, eq_bytes→eq k key same) (eq_bytes_refl key) in
            cc)
      | inr away ↦ away
    ]

-- the header lines of a name, in whatever case it is written
abbrev pub named : Bytes → List (Bytes × Bytes) → List (Bytes × Bytes)
named name = select (λ f. eq_bytes (lower f.0) (lower name))

abbrev merged : Option (Bytes × List Bytes) → List (Bytes × Bytes) → Option (Bytes × List Bytes)
merged none [] = none
merged none (f ∷ fs) = some (f.0, f.1 ∷ map (λ g. g.1) fs)
merged (some (n, vs)) fs = some (n, vs ++ map (λ g. g.1) fs)

merged-added :
    (name v : Bytes) (found : Option (Bytes × List Bytes)) (fs : List (Bytes × Bytes))
    → merged (added name v found) fs ≡ merged found ((name, v) ∷ fs)
merged-added name v none fs = refl
merged-added name v (some (n, vs)) fs = rw (append_assoc vs (v ∷ []) (map (λ g. g.1) fs))

find-add_lines :
    (name : Bytes) (fs : List (Bytes × Bytes)) (index : Index)
    → find (lower name) (add_lines fs index) ≡ merged (find (lower name) index) (named name fs)
unfolding add_lines select
find-add_lines name [] index = done (find (lower name) index)
  where
    done : (found : Option (Bytes × List Bytes)) → found ≡ merged found []
    done none = refl
    done (some (n, vs)) = rw (append-nil vs)
find-add_lines name ((n, v) ∷ fs) index =
    find-add_lines name fs (add_line (lower n) n v index)
    ∙ ap (λ found. merged found (named name fs)) (find-add_line (lower name) (lower n) n v index)
    ∙ choose (eq_bytes (lower n) (lower name))
  where
    choose :
        (b : Bool)
        → merged
            (if b then added n v (find (lower name) index) else find (lower name) index)
            (named name fs)
          ≡ merged (find (lower name) index) (if b then (n, v) ∷ named name fs else named name fs)
    choose true = merged-added n v (find (lower name) index) (named name fs)
    choose false = refl

-- the lines, each with the name as the first of them writes it
abbrev pub as_first : List (Bytes × Bytes) → Result (List (Bytes × Bytes))
as_first [] = err key_error
as_first (f ∷ fs) = ok (map (λ g. (f.0, g.1)) (f ∷ fs))

each-merged : (fs : List (Bytes × Bytes)) → each (merged none fs) ≡ as_first fs
unfolding each
each-merged [] = refl
each-merged (f ∷ fs) = ap (λ rest. ok ((f.0, f.1) ∷ rest)) (regroup fs)
  where
    regroup :
        (fs : List (Bytes × Bytes))
        → map {B = Bytes × Bytes} (λ v. (f.0, v)) (map (λ g. g.1) fs) ≡ map (λ g. (f.0, g.1)) fs
    regroup [] = refl
    regroup (g ∷ fs) = ap (λ rest. (f.0, g.1) ∷ rest) (regroup fs)

-- get returns the data of all lines whose name is the one asked for in whatever case, in the order
-- of the message, each with the name as the first of them writes it; where there is no such line it
-- raises KeyError.
pub get-add_lines :
    (name text : Bytes) (fs : List (Bytes × Bytes))
    → get name (record { text = text; index = add_lines fs [] }) ≡ as_first (named name fs)
unfolding get find
get-add_lines name text fs = ap each (find-add_lines name fs []) ∙ each-merged (named name fs)
