-- ===== src/Bulletins/ReadList.antt =====
-- The compact list of read articles, and what is read from it.
use blitzmail.Common.{
  ℕ, zero, suc, ◌+◌, ◌-◌, ◌≤◌, ◌≡◌, ◌≢◌, refl, sym, ap, ◌∙◌, arith, Bytes, codes, not, select, ltb,
  ◌==◌, List, [], ◌∷◌, ◌++◌, append_assoc, map, All, All-append, Bool-cases, inl, inr,
}
use blitzmail.Common.Decimal.{
  str, int, int-str, IsDigit, str-All, str-nonempty, scan, rstrip, lstrip,
}
use blitzmail.Common.Lines.{commas, join}
use blitzmail.Common.Fields.{IsPlain, digits-IsPlain, commas-join}
use blitzmail.Errors.{ok, ◌>>=◌}
use blitzmail.Bulletins.{
  Topic, index, natural_of, sort, extend, runs, show_run, or_none, make_read_list, dashes, range,
  part, parts, read_ids,
}

-- the numbers from the first to the last of a run
span : ℕ × ℕ → List ℕ
span (lo, hi) = range lo (suc hi - lo)

spans : List (ℕ × ℕ) → List ℕ
spans [] = []
spans (r ∷ rs) = span r ++ spans rs

range-suc : (lo k : ℕ) → range lo (suc k) ≡ range lo k ++ (lo + k) ∷ []
unfolding range
range-suc lo zero = let e : lo + 0 ≡ lo = omega arith in rw e
range-suc lo (suc k) =
    let e : suc lo + k ≡ lo + suc k = omega arith in ap (λ t. lo ∷ t) (range-suc (suc lo) k ∙ rw e)

-- a run that goes on by one more
span-suc : (lo hi : ℕ) → lo ≤ hi → span (lo, suc hi) ≡ span (lo, hi) ++ suc hi ∷ []
unfolding span
span-suc lo hi h =
    let a : suc (suc hi) - lo ≡ suc (suc hi - lo) = omega (arith, h) in
    let b : lo + (suc hi - lo) ≡ suc hi = omega (arith, h) in
    rw a (range-suc lo (suc hi - lo) ∙ rw b)

span-single : (n : ℕ) → span (n, n) ≡ n ∷ []
unfolding span range
span-single n = let a : suc n - n ≡ 1 = omega arith in rw a

spans-extend : (lo hi : ℕ) (ns : List ℕ) → lo ≤ hi → spans (extend lo hi ns) ≡ span (lo, hi) ++ ns
unfolding spans extend
spans-extend lo hi [] h = refl
spans-extend lo hi (n ∷ ns) h = elim (Bool-cases (n == suc hi)) [
  | inl e ↦
      (let next : n ≡ suc hi = ground arith in
        rw (e, extend)
          (spans-extend lo n ns (omega (arith, next, h))
            ∙ rw next (rw (span-suc lo hi h) (append_assoc (span (lo, hi)) (suc hi ∷ []) ns))))
  | inr e ↦
      rw (e, extend)
        (ap (λ t. span (lo, hi) ++ t) (spans-extend n n ns (omega arith) ∙ rw (span-single n)))
]

-- Whatever the numbers, their runs stand for them, in their order.
spans-runs : (ns : List ℕ) → spans (runs ns) ≡ ns
unfolding runs spans
spans-runs [] = refl
spans-runs (n ∷ ns) = spans-extend n n ns (omega arith) ∙ rw (span-single n)

dashes-digits : (s : Bytes) → All IsDigit s → dashes s ≡ (s, [])
unfolding dashes
dashes-digits [] h = refl
dashes-digits (c ∷ s) h = ground (arith, dashes-digits s h.1)

dashes-append :
    (s rest : Bytes)
    → All IsDigit s
    → dashes (s ++ b'-' ∷ rest) ≡ (s, (dashes rest).0 ∷ (dashes rest).1)
unfolding dashes
dashes-append [] rest h = refl
dashes-append (c ∷ s) rest h = ground (arith, dashes-append s rest h.1)

index-str : (n : ℕ) → index (str n) ≡ ok n
unfolding index natural_of
index-str n = rw (int-str n)

part_single :
    (w : Bytes) → All IsDigit w → w ≢ [] → part (dashes w) ≡ (index w >>= λ n. ok (n ∷ []))
unfolding part
part_single [] h nonempty = absurd (nonempty refl)
part_single (c ∷ s) h nonempty = rw (dashes-digits (c ∷ s) h)

str-nonempty_lem : (n : ℕ) → str n ≢ []
str-nonempty_lem n e = let (c, s, eq) = str-nonempty n in cc

part_range : (lo hi : ℕ) → part (str lo, str hi ∷ []) ≡ ok (span (lo, hi))
unfolding part span
part_range lo hi = rw (index-str lo, index-str hi)

-- what is written for a run is read as its numbers
part-show_run : (lo hi : ℕ) → part (dashes (show_run (lo, hi))) ≡ ok (span (lo, hi))
unfolding show_run
part-show_run lo hi = elim (Bool-cases (lo == hi)) [
  | inl e ↦
      (let same : lo ≡ hi = ground arith in
        rw (e, part_single (str lo) (str-All lo) (str-nonempty_lem lo), index-str lo)
          (ap ok (sym (rw (sym same) (span-single lo)))))
  | inr e ↦
      rw (e, dashes-append (str lo) (str hi) (str-All lo), dashes-digits (str hi) (str-All hi))
        (part_range lo hi)
]

parts-map : (rs : List (ℕ × ℕ)) → parts (map show_run rs) ≡ ok (spans rs)
unfolding parts spans
parts-map [] = refl
parts-map ((lo, hi) ∷ rs) = rw (part-show_run lo hi, parts-map rs)

show_run-IsPlain : (r : ℕ × ℕ) → All IsPlain (show_run r)
unfolding show_run
show_run-IsPlain (lo, hi) = elim (Bool-cases (lo == hi)) [
  | inl e ↦ rw e (digits-IsPlain (str lo) (str-All lo))
  | inr e ↦ rw e (
      All-append IsPlain (str lo) _ (digits-IsPlain (str lo) (str-All lo))
        (omega arith, digits-IsPlain (str hi) (str-All hi)))
]

map-IsPlain : (rs : List (ℕ × ℕ)) → All (All IsPlain) (map show_run rs)
map-IsPlain [] = tt
map-IsPlain (r ∷ rs) = (show_run-IsPlain r, map-IsPlain rs)

-- an empty list is written 0-0, which stands for nothing
none_lem : read_ids (codes "0-0") ≡ ok []
unfolding read_ids commas parts part dashes index natural_of int scan rstrip lstrip range select
none_lem = refl

read_runs :
    (rs : List (ℕ × ℕ))
    → read_ids (join (codes ",") (or_none (map show_run rs)))
      ≡ ok (select (λ n. not (n == 0)) (spans rs))
unfolding read_ids or_none select join spans
read_runs [] = none_lem
read_runs (r ∷ rs) =
    rw (commas-join (show_run r) (map show_run rs) (show_run-IsPlain r) (map-IsPlain rs))
      (rw (parts-map (r ∷ rs)))

-- The list that is sent of a topic is read back as the numbers of the read articles, from the lowest
-- that there is and without 0, in the order of `sort`.
pub read_ids-make_read_list :
    (t : Topic)
    → read_ids (make_read_list t).0
      ≡ ok (select (λ n. not (n == 0)) (sort (select (λ k. not (ltb k t.id_low)) t.rcache)))
unfolding make_read_list
read_ids-make_read_list t =
    let kept = select (λ k. not (ltb k t.id_low)) t.rcache in
    read_runs (runs (sort kept)) ∙ rw (spans-runs (sort kept))
