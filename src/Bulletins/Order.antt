-- ===== src/Bulletins/Order.antt =====
-- The list of read articles is in ascending order.
use blitzmail.Common.{
  ℕ, ◌≤◌, ◌≡◌, arith, Bool, not, select, ltb, leb, ◌==◌, All, All-select, List, [], ◌∷◌, Bool-cases,
  inl, inr,
}
use blitzmail.Errors.{ok}
use blitzmail.Bulletins.{Topic, place, sort, make_read_list, read_ids}
use blitzmail.Bulletins.ReadList.{read_ids-make_read_list}

pub IsAscending : List ℕ → Type 0
IsAscending [] = Unit
IsAscending (n ∷ ns) = All (λ m. n ≤ m) ns × IsAscending ns

All-place : (P : ℕ → Type 0) (n : ℕ) (ks : List ℕ) → P n → All P ks → All P (place n ks)
unfolding place
All-place P n [] p h = (p, tt)
All-place P n (k ∷ ks) p h = elim (Bool-cases (leb n k)) [
  | inl e ↦ rw e (p, h)
  | inr e ↦ rw e (h.0, All-place P n ks p h.1)
]

below : (n k : ℕ) (ks : List ℕ) → n ≤ k → All (λ m. k ≤ m) ks → All (λ m. n ≤ m) ks
below n k [] e h = tt
below n k (m ∷ ks) e h = (omega (arith, e, h.0), below n k ks e h.1)

place-IsAscending : (n : ℕ) (ks : List ℕ) → IsAscending ks → IsAscending (place n ks)
unfolding place IsAscending
place-IsAscending n [] h = (tt, tt)
place-IsAscending n (k ∷ ks) h = elim (Bool-cases (leb n k)) [
  | inl e ↦ (let low : n ≤ k = ground arith in rw e ((low, below n k ks low h.0), h))
  | inr e ↦
      (let low : k ≤ n = ground arith in
        rw e (All-place (λ m. k ≤ m) n ks low h.0, place-IsAscending n ks h.1))
]

sort-IsAscending : (ks : List ℕ) → IsAscending (sort ks)
unfolding sort IsAscending
sort-IsAscending [] = tt
sort-IsAscending (k ∷ ks) = place-IsAscending k (sort ks) (sort-IsAscending ks)

select-IsAscending : (p : ℕ → Bool) (ks : List ℕ) → IsAscending ks → IsAscending (select p ks)
unfolding select IsAscending
select-IsAscending p [] h = tt
select-IsAscending p (k ∷ ks) h = elim (Bool-cases (p k)) [
  | inl e ↦ rw e (All-select (λ m. k ≤ m) p ks h.0, select-IsAscending p ks h.1)
  | inr e ↦ rw e (select-IsAscending p ks h.1)
]

-- The numbers that are read from the list that is sent of a topic are in ascending order, whatever
-- the order in which the articles were marked.
pub make_read_list-IsAscending :
    (t : Topic) → (ids : List ℕ) × (read_ids (make_read_list t).0 ≡ ok ids) × IsAscending ids
make_read_list-IsAscending t =
    let low : ℕ → Bool = λ k. not (ltb k t.id_low) in
    (
      _,
      read_ids-make_read_list t,
      select-IsAscending (λ n. not (n == 0)) (sort (select low t.rcache))
          (sort-IsAscending (select low t.rcache)),
    )
