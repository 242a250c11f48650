-- ===== src/Notifyd/Mutexes/Rest.antt =====
-- Threads that take mutexes in the order of their ranks come to rest.
use blitzmail.Common.{
  ℕ, zero, suc, ◌+◌, ◌≤◌, ◌<◌, length, ap, any, Bool, true, false, Bool-cases, inl, inr, ◌≡◌, refl,
  arith, not, All, select, List, [], ◌∷◌, Option, none, some, subst,
}
use blitzmail.Notifyd.Mutexes.{
  Mutex, Action, acquire, release, notify, asleep, Thread, same, holds, act, advance_in, advance,
  notifies, rouse, after, run,
}
use blitzmail.Notifyd.Mutexes.Ordered.{
  IsOrdered, AreOrdered, Rests, HaveRested, progress, advance-AreOrdered,
}

-- the actions that threads still have
abbrev pub left : List Thread → ℕ
left [] = 0
left (t ∷ ts) = length t.todo + left ts

act-length :
    (all : List Thread) (held : List Mutex) (todo : List Action) (t' : Thread)
    → act all held todo ≡ some t'
    → length todo ≡ suc (length t'.todo)
unfolding act
act-length all held [] t' e = cc
act-length all held (asleep ∷ todo) t' e = cc
act-length all held (notify ∷ todo) t' e =
    let next : Thread = record { held = held; todo = todo } in
    let made : some next ≡ some t' = e in
    let same_thread : next ≡ t' = cc in ap (λ (t : Thread). suc (length t.todo)) same_thread
act-length all held (release k ∷ todo) t' e =
    let next : Thread = record { held = select (λ j. not (same k j)) held; todo = todo } in
    let made : some next ≡ some t' = e in
    let same_thread : next ≡ t' = cc in ap (λ (t : Thread). suc (length t.todo)) same_thread
act-length all held (acquire k ∷ todo) t' e = elim (Bool-cases (any (holds k) all)) [
  | inl taken ↦ (let waits : none ≡ some t' = rw taken at e in cc)
  | inr untaken ↦
      (let next : Thread = record { held = k ∷ held; todo = todo } in
        let made : some next ≡ some t' = rw untaken at e in
        let same_thread : next ≡ t' = cc in ap (λ (t : Thread). suc (length t.todo)) same_thread)
]

advance_in-left :
    (all : List Thread) (i : ℕ) (ts ts' : List Thread)
    → advance_in all i ts ≡ some ts'
    → left ts ≡ suc (left ts')
unfolding advance_in
advance_in-left all i [] ts' e = cc
advance_in-left all zero (t ∷ ts) ts' e =
    go (act all t.held t.todo) (act-length all t.held t.todo) e
  where
    go :
        (o : Option Thread)
        → ((t' : Thread) → o ≡ some t' → length t.todo ≡ suc (length t'.todo))
        → ◌≡◌ {A = Option (List Thread)}
            (elim o [ none ↦ none | some t' ↦ some (t' ∷ ts) ])
            (some ts')
        → length t.todo + left ts ≡ suc (left ts')
    go none acts e = cc
    go (some t') acts e =
        let made : t' ∷ ts ≡ ts' = cc in
        subst (λ us. length t.todo + left ts ≡ suc (left us)) made (omega (arith, acts t' refl))
advance_in-left all (suc i) (t ∷ ts) ts' e =
    go (advance_in all i ts) (λ us. advance_in-left all i ts us) e
  where
    go :
        (o : Option (List Thread))
        → ((us : List Thread) → o ≡ some us → left ts ≡ suc (left us))
        → ◌≡◌ {A = Option (List Thread)}
            (elim o [ none ↦ none | some us ↦ some (t ∷ us) ])
            (some ts')
        → length t.todo + left ts ≡ suc (left ts')
    go none rest e = cc
    go (some us) rest e =
        let made : t ∷ us ≡ ts' = cc in
        subst (λ us. length t.todo + left ts ≡ suc (left us)) made (omega (arith, rest us refl))

rouse_first-left :
    (held : List Mutex) (todo : List Action) (ts : List Thread)
    → left (rouse ts) ≤ left ts
    → left (rouse (record { held = held; todo = todo } ∷ ts)) ≤ length todo + left ts
rouse_first-left held [] ts h = omega (arith, h)
rouse_first-left held (acquire m ∷ todo) ts h = omega (arith, h)
rouse_first-left held (release m ∷ todo) ts h = omega (arith, h)
rouse_first-left held (notify ∷ todo) ts h = omega (arith, h)
rouse_first-left held (asleep ∷ todo) ts h = omega arith

rouse-left : (ts : List Thread) → left (rouse ts) ≤ left ts
rouse-left [] = omega arith
rouse-left (t ∷ ts) = rouse_first-left t.held t.todo ts (rouse-left ts)

after-left : (b : Bool) (ts : List Thread) → left (after b ts) ≤ left ts
after-left true ts = rouse-left ts
after-left false ts = omega arith

advance-left : (i : ℕ) (ts ts' : List Thread) → advance i ts ≡ some ts' → left ts' < left ts
unfolding advance
advance-left i ts ts' e = go (advance_in ts i ts) (λ us. advance_in-left ts i ts us) e
  where
    go :
        (o : Option (List Thread))
        → ((us : List Thread) → o ≡ some us → left ts ≡ suc (left us))
        → ◌≡◌ {A = Option (List Thread)}
            (elim o [ none ↦ none | some us ↦ some (after (notifies i ts) us) ])
            (some ts')
        → left ts' < left ts
    go none rest e = cc
    go (some us) rest e =
        let made : after (notifies i ts) us ≡ ts' = cc in
        subst (λ vs. left vs < left ts) made
          (omega (arith, rest us refl, after-left (notifies i ts) us))

-- each thread holds no mutex, and has nothing left to do or sleeps until it is notified
abbrev pub AreAtRest : List Thread → Type 0
AreAtRest = All (λ t. (t.held ≡ []) × Rests t.todo)

rest_lem : (held : List Mutex) (todo : List Action) → IsOrdered held todo → Rests todo → held ≡ []
rest_lem held [] h r = h
rest_lem held (asleep ∷ todo) h r = h.0
rest_lem held (acquire m ∷ todo) h r = absurd r
rest_lem held (release m ∷ todo) h r = absurd r
rest_lem held (notify ∷ todo) h r = absurd r

HaveRested-AreAtRest : (ts : List Thread) → AreOrdered ts → HaveRested ts → AreAtRest ts
HaveRested-AreAtRest [] h r = tt
HaveRested-AreAtRest (t ∷ ts) h r =
    ((rest_lem t.held t.todo h.0 r.0, r.0), HaveRested-AreAtRest ts h.1 r.1)

-- an order in which threads come to rest
abbrev pub Ends : List Thread → Type 0
Ends ts = (is : List ℕ) × (us : List Thread) × ((run is ts ≡ some us) × AreAtRest us)

step_first : (i : ℕ) (ts ts' : List Thread) → advance i ts ≡ some ts' → Ends ts' → Ends ts
unfolding run
step_first i ts ts' e (is, us, (goes, done)) = (i ∷ is, us, (rw (run, e) goes, done))

pub ordered-Ends : (n : ℕ) (ts : List Thread) → left ts ≤ n → AreOrdered ts → Ends ts
unfolding run
ordered-Ends zero ts le h = elim (progress ts h) [
  | inr done ↦ ([], ts, (refl, HaveRested-AreAtRest ts h done))
  | inl (i, ts', acts) ↦ absurd (omega (arith, advance-left i ts ts' acts))
]
ordered-Ends (suc n) ts le h = elim (progress ts h) [
  | inr done ↦ ([], ts, (refl, HaveRested-AreAtRest ts h done))
  | inl (i, ts', acts) ↦ step_first i ts ts' acts (
      ordered-Ends n ts' (omega (arith, advance-left i ts ts' acts))
        (advance-AreOrdered i ts ts' h acts))
]
