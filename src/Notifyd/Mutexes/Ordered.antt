-- ===== src/Notifyd/Mutexes/Ordered.antt =====
-- Threads that take mutexes in the order of their ranks never wait for one another in a circle.
use blitzmail.Common.{
  ℕ, zero, suc, ◌+◌, ◌≤◌, ◌<◌, ◌≡◌, ◌⊎◌, inl, inr, refl, arith, Bool, true, false, not, any, All,
  select, List, [], ◌∷◌, Option, none, some, Bool-cases, subst,
}
use blitzmail.Notifyd.Mutexes.{
  Mutex, clients, queue, wakeup, socket, rank, Action, acquire, release, notify, asleep, Thread,
  same, holds, act, advance_in, advance, notifies, rouse, after,
}

-- Each mutex is taken while only those of lower rank are held, and none is held at the end, or where
-- the thread sleeps.
abbrev pub IsOrdered : List Mutex → List Action → Type 0
IsOrdered held [] = held ≡ []
IsOrdered held (acquire m ∷ todo) = All (λ k. rank k < rank m) held × IsOrdered (m ∷ held) todo
IsOrdered held (release m ∷ todo) = IsOrdered (select (λ k. not (same m k)) held) todo
IsOrdered held (notify ∷ todo) = IsOrdered held todo
IsOrdered held (asleep ∷ todo) = (held ≡ []) × IsOrdered held todo

abbrev pub AreOrdered : List Thread → Type 0
AreOrdered = All (λ t. IsOrdered t.held t.todo)

-- some thread has a next action
abbrev pub Moves : List Thread → Type 0
Moves ts = (i : ℕ) × (ts' : List Thread) × (advance i ts ≡ some ts')

-- nothing is left to do, or the thread sleeps until it is notified
abbrev pub Rests : List Action → Type 0
Rests [] = Unit
Rests (asleep ∷ todo) = Unit
Rests (acquire m ∷ todo) = ⊥
Rests (release m ∷ todo) = ⊥
Rests (notify ∷ todo) = ⊥

abbrev pub HaveRested : List Thread → Type 0
HaveRested = All (λ t. Rests t.todo)

-- a thread of the list that acts
MovesIn : List Thread → List Thread → Type 0
MovesIn all ts = (i : ℕ) × (ts' : List Thread) × (advance_in all i ts ≡ some ts')

holds-rank :
    (m : Mutex) (n : ℕ) (held : List Mutex)
    → All (λ k. rank k < n) held
    → any (same m) held ≡ true
    → rank m < n
holds-rank m n [] h e = ground arith
holds-rank m n (k ∷ held) h e = elim (Bool-cases (same m k)) [
  | inl here ↦ omega (arith, h.0, eq_of m k here)
  | inr away ↦ holds-rank m n held h.1 (rw away at e)
]
  where
    eq_of : (m k : Mutex) → same m k ≡ true → rank m ≡ rank k
    eq_of m k h = ground arith

rank-lt : (m : Mutex) → rank m < 4
rank-lt clients = omega arith
rank-lt queue = omega arith
rank-lt wakeup = omega arith
rank-lt socket = omega arith

module _ (all : List Thread) where
  here : (t t' : Thread) (ts : List Thread) → act all t.held t.todo ≡ some t' → MovesIn all (t ∷ ts)
  unfolding MovesIn advance_in
  here t t' ts e = (0, t' ∷ ts, rw (advance_in, e))

  there : (t : Thread) (ts : List Thread) → MovesIn all ts → MovesIn all (t ∷ ts)
  unfolding MovesIn advance_in
  there t ts (i, ts', e) = (suc i, t ∷ ts', rw e)

  -- A thread that holds a mutex acts, or one that holds a mutex of higher rank does.
  act_or_higher :
      (m : Mutex)
      → ((k : Mutex) → rank m < rank k → any (holds k) all ≡ true → MovesIn all all)
      → (held : List Mutex) (todo : List Action) → IsOrdered held todo
      → any (same m) held ≡ true
      → ((t' : Thread) × (act all held todo ≡ some t')) ⊎ MovesIn all all
  unfolding act
  act_or_higher m higher held [] h e = let none_held : any (same m) [] ≡ true = rw h at e in cc
  act_or_higher m higher held (release k ∷ todo) h e =
      inl (record { held = select (λ j. not (same k j)) held; todo = todo }, refl)
  act_or_higher m higher held (notify ∷ todo) h e = inl (record { held = held; todo = todo }, refl)
  act_or_higher m higher held (asleep ∷ todo) h e =
      let none_held : any (same m) [] ≡ true = rw h.0 at e in cc
  act_or_higher m higher held (acquire k ∷ todo) h e = elim (Bool-cases (any (holds k) all)) [
    | inl taken ↦ inr (higher k (holds-rank m (rank k) held h.0 e) taken)
    | inr untaken ↦ inl (record { held = k ∷ held; todo = todo }, rw untaken)
  ]

  holder_moves :
      (m : Mutex)
      → ((k : Mutex) → rank m < rank k → any (holds k) all ≡ true → MovesIn all all)
      → (ts : List Thread) → AreOrdered ts
      → any (holds m) ts ≡ true
      → MovesIn all ts ⊎ MovesIn all all
  holder_moves m higher [] h e = cc
  holder_moves m higher (t ∷ ts) h e = elim (Bool-cases (holds m t)) [
    | inl holder ↦ elim (act_or_higher m higher t.held t.todo h.0 holder) [
      | inl acts ↦ inl (here t acts.0 ts acts.1)
      | inr other ↦ inr other
    ]
    | inr no_holder ↦ elim (holder_moves m higher ts h.1 (rw no_holder at e)) [
      | inl moves ↦ inl (there t ts moves)
      | inr other ↦ inr other
    ]
  ]

  -- Where a mutex is taken, some thread acts.
  taken_moves :
      (k : ℕ) (m : Mutex)
      → 4 ≤ rank m + k
      → AreOrdered all
      → any (holds m) all ≡ true
      → MovesIn all all
  taken_moves zero m le h e = absurd (omega (arith, rank-lt m))
  taken_moves (suc k) m le h e =
      let higher : (j : Mutex) → rank m < rank j → any (holds j) all ≡ true → MovesIn all all =
        λ j lt taken. taken_moves k j (omega arith) h taken in
      elim (holder_moves m higher all h e) [ inl moves ↦ moves | inr moves ↦ moves ]

  act_or_rested :
      (held : List Mutex) (todo : List Action)
      → AreOrdered all
      → ((t' : Thread) × (act all held todo ≡ some t')) ⊎ (MovesIn all all ⊎ Rests todo)
  unfolding act
  act_or_rested held [] h = inr (inr tt)
  act_or_rested held (asleep ∷ todo) h = inr (inr tt)
  act_or_rested held (notify ∷ todo) h = inl (record { held = held; todo = todo }, refl)
  act_or_rested held (release k ∷ todo) h =
      inl (record { held = select (λ j. not (same k j)) held; todo = todo }, refl)
  act_or_rested held (acquire k ∷ todo) h = elim (Bool-cases (any (holds k) all)) [
    | inl taken ↦ inr (inl (taken_moves 4 k (omega arith) h taken))
    | inr untaken ↦ inl (record { held = k ∷ held; todo = todo }, rw untaken)
  ]

  moves_or_rested :
      (ts : List Thread) → AreOrdered all → MovesIn all ts ⊎ (MovesIn all all ⊎ HaveRested ts)
  moves_or_rested [] h = inr (inr tt)
  moves_or_rested (t ∷ ts) h = elim (act_or_rested t.held t.todo h) [
    | inl acts ↦ inl (here t acts.0 ts acts.1)
    | inr (inl moves) ↦ inr (inl moves)
    | inr (inr rests) ↦ elim (moves_or_rested ts h) [
      | inl moves ↦ inl (there t ts moves)
      | inr (inl moves) ↦ inr (inl moves)
      | inr (inr later) ↦ inr (inr (rests, later))
    ]
  ]

moves_lem : (ts : List Thread) → MovesIn ts ts → Moves ts
unfolding MovesIn advance
moves_lem ts (i, ts', e) = (i, after (notifies i ts) ts', rw (advance, e))

pub progress : (ts : List Thread) → AreOrdered ts → Moves ts ⊎ HaveRested ts
progress ts h = elim (moves_or_rested ts ts h) [
  | inl moves ↦ inl (moves_lem ts moves)
  | inr (inl moves) ↦ inl (moves_lem ts moves)
  | inr (inr rests) ↦ inr rests
]

act-IsOrdered :
    (all : List Thread) (held : List Mutex) (todo : List Action) (t' : Thread)
    → IsOrdered held todo
    → act all held todo ≡ some t'
    → IsOrdered t'.held t'.todo
unfolding act
act-IsOrdered all held [] t' h e = cc
act-IsOrdered all held (asleep ∷ todo) t' h e = cc
act-IsOrdered all held (notify ∷ todo) t' h e =
    let next : Thread = record { held = held; todo = todo } in
    let made : some next ≡ some t' = e in
    let same_thread : next ≡ t' = cc in
    subst (λ (t : Thread). IsOrdered t.held t.todo) same_thread h
act-IsOrdered all held (release k ∷ todo) t' h e =
    let next : Thread = record { held = select (λ j. not (same k j)) held; todo = todo } in
    let made : some next ≡ some t' = e in
    let same_thread : next ≡ t' = cc in
    subst (λ (t : Thread). IsOrdered t.held t.todo) same_thread h
act-IsOrdered all held (acquire k ∷ todo) t' h e = elim (Bool-cases (any (holds k) all)) [
  | inl taken ↦ (let waits : none ≡ some t' = rw taken at e in cc)
  | inr untaken ↦
      (let next : Thread = record { held = k ∷ held; todo = todo } in
        let made : some next ≡ some t' = rw untaken at e in
        let same_thread : next ≡ t' = cc in
        subst (λ (t : Thread). IsOrdered t.held t.todo) same_thread h.1)
]

advance_in-AreOrdered :
    (all : List Thread) (i : ℕ) (ts ts' : List Thread)
    → AreOrdered ts
    → advance_in all i ts ≡ some ts'
    → AreOrdered ts'
unfolding advance_in
advance_in-AreOrdered all i [] ts' h e = cc
advance_in-AreOrdered all zero (t ∷ ts) ts' h e = go (act all t.held t.todo) refl e
  where
    go :
        (o : Option Thread)
        → act all t.held t.todo ≡ o
        → ◌≡◌ {A = Option (List Thread)}
            (elim o [ none ↦ none | some t' ↦ some (t' ∷ ts) ])
            (some ts')
        → AreOrdered ts'
    go none acts e = cc
    go (some t') acts e =
        let made : t' ∷ ts ≡ ts' = cc in
        subst AreOrdered made (act-IsOrdered all t.held t.todo t' h.0 acts, h.1)
advance_in-AreOrdered all (suc i) (t ∷ ts) ts' h e =
    go (advance_in all i ts) (λ us. advance_in-AreOrdered all i ts us h.1) e
  where
    go :
        (o : Option (List Thread))
        → ((us : List Thread) → o ≡ some us → AreOrdered us)
        → ◌≡◌ {A = Option (List Thread)}
            (elim o [ none ↦ none | some us ↦ some (t ∷ us) ])
            (some ts')
        → AreOrdered ts'
    go none rest e = cc
    go (some us) rest e = let made : t ∷ us ≡ ts' = cc in subst AreOrdered made (h.0, rest us refl)

rouse_first-AreOrdered :
    (held : List Mutex) (todo : List Action) (ts : List Thread)
    → IsOrdered held todo
    → AreOrdered ts
    → AreOrdered (rouse ts)
    → AreOrdered (rouse (record { held = held; todo = todo } ∷ ts))
rouse_first-AreOrdered held [] ts h hs rest = (h, rest)
rouse_first-AreOrdered held (acquire m ∷ todo) ts h hs rest = (h, rest)
rouse_first-AreOrdered held (release m ∷ todo) ts h hs rest = (h, rest)
rouse_first-AreOrdered held (notify ∷ todo) ts h hs rest = (h, rest)
rouse_first-AreOrdered held (asleep ∷ todo) ts h hs rest = (h.1, hs)

rouse-AreOrdered : (ts : List Thread) → AreOrdered ts → AreOrdered (rouse ts)
rouse-AreOrdered [] h = tt
rouse-AreOrdered (t ∷ ts) h =
    rouse_first-AreOrdered t.held t.todo ts h.0 h.1 (rouse-AreOrdered ts h.1)

after-AreOrdered : (b : Bool) (ts : List Thread) → AreOrdered ts → AreOrdered (after b ts)
after-AreOrdered true ts h = rouse-AreOrdered ts h
after-AreOrdered false ts h = h

pub advance-AreOrdered :
    (i : ℕ) (ts ts' : List Thread) → AreOrdered ts → advance i ts ≡ some ts' → AreOrdered ts'
unfolding advance
advance-AreOrdered i ts ts' h e =
    go (advance_in ts i ts) (λ us. advance_in-AreOrdered ts i ts us h) e
  where
    go :
        (o : Option (List Thread))
        → ((us : List Thread) → o ≡ some us → AreOrdered us)
        → ◌≡◌ {A = Option (List Thread)}
            (elim o [ none ↦ none | some us ↦ some (after (notifies i ts) us) ])
            (some ts')
        → AreOrdered ts'
    go none rest e = cc
    go (some us) rest e =
        let made : after (notifies i ts) us ≡ ts' = cc in
        subst AreOrdered made (after-AreOrdered (notifies i ts) us (rest us refl))
