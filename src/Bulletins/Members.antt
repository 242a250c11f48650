-- ===== src/Bulletins/Members.antt =====
-- Which articles count as read after the list of a topic was sent and read back.
use blitzmail.Common.{
  ℕ, ◌≡◌, refl, sym, ap, ◌∙◌, arith, Bool, false, not, any, select, ltb, ◌==◌, ◌||◌, ◌&&◌, List, [],
  ◌∷◌, ◌++◌, Bool-cases, inl, inr,
}
use blitzmail.Errors.{ok}
use blitzmail.Bulletins.{Topic, place, sort, make_read_list, read_ids, insert, insert_all, is_read}
use blitzmail.Bulletins.ReadList.{read_ids-make_read_list}

has : ℕ → List ℕ → Bool
has n = any (λ k. k == n)

has-place : (n m : ℕ) (ks : List ℕ) → has n (place m ks) ≡ ((m == n) || has n ks)
unfolding has place
has-place n m [] = refl
has-place n m (k ∷ ks) = ground (arith, has-place n m ks)

has-sort : (n : ℕ) (ks : List ℕ) → has n (sort ks) ≡ has n ks
unfolding has sort
has-sort n [] = refl
has-sort n (k ∷ ks) = has-place n k (sort ks) ∙ rw (has-sort n ks)

has-select : (n : ℕ) (p : ℕ → Bool) (ks : List ℕ) → has n (select p ks) ≡ (has n ks && p n)
unfolding has select
has-select n p [] = refl
has-select n p (k ∷ ks) = elim (Bool-cases (k == n)) [
  | inl e ↦ (let same : k ≡ n = ground arith in ground (arith, has-select n p ks, ap p same))
  | inr e ↦ ground (arith, has-select n p ks)
]

has-append : (n : ℕ) (ks ls : List ℕ) → has n (ks ++ ls) ≡ (has n ks || has n ls)
unfolding has
has-append n [] ls = refl
has-append n (k ∷ ks) ls = ground (arith, has-append n ks ls)

or_swap : (a b : Bool) → (a || (b || false)) ≡ (b || a)
or_swap a b = ground arith

has-insert : (n m : ℕ) (ks : List ℕ) → has n (insert m ks) ≡ ((m == n) || has n ks)
unfolding insert has
has-insert n m ks = elim (Bool-cases (has m ks)) [
  | inl there ↦ elim (Bool-cases (m == n)) [
    | inl e ↦
        (let same : m ≡ n = ground arith in rw (there, e) (ap (λ x. has x ks) (sym same) ∙ there))
    | inr e ↦ rw (there, e)
  ]
  | inr absent ↦ rw absent (has-append n ks (m ∷ []) ∙ or_swap (has n ks) (m == n))
]

has-insert_all : (n : ℕ) (ms ks : List ℕ) → has n (insert_all ms ks) ≡ (has n ms || has n ks)
unfolding insert_all has
has-insert_all n [] ks = refl
has-insert_all n (m ∷ ms) ks = has-insert_all n ms (insert m ks) ∙ ground (arith, has-insert n m ks)

or_false : (a : Bool) → (a || false) ≡ a
or_false a = ground arith

-- An article is among those read from the list that is sent of a topic exactly if it was read, is not
-- below the lowest article, and is not numbered 0.
pub is_read-make_read_list :
    (t : Topic) (id : ℕ)
    → (ids : List ℕ) × (read_ids (make_read_list t).0 ≡ ok ids)
      × (is_read id (record t { rcache = insert_all ids [] })
          ≡ ((is_read id t && not (ltb id t.id_low)) && not (id == 0)))
unfolding is_read has
is_read-make_read_list t id =
    let low : ℕ → Bool = λ k. not (ltb k t.id_low) in
    let named : ℕ → Bool = λ n. not (n == 0) in
    let members : has id (insert_all (select named (sort (select low t.rcache))) [])
        ≡ ((is_read id t && low id) && named id) =
      has-insert_all id (select named (sort (select low t.rcache))) []
      ∙ or_false _
      ∙ has-select id named (sort (select low t.rcache))
      ∙ rw (has-sort id (select low t.rcache), has-select id low t.rcache) in
    (_, read_ids-make_read_list t, members)
