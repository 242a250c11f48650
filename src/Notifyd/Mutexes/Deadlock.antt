-- ===== src/Notifyd/Mutexes/Deadlock.antt =====
-- A notice that is posted while the response to an earlier one arrives: post has `_clm` and waits for
-- `_rqm`, the receiver has `_rqm` and waits for `_clm`.
use blitzmail.Common.{
  Bool, true, ap, false, any, ℕ, zero, suc, ◌≡◌, refl, List, [], ◌∷◌, Option, none, some, subst,
  sym, ◌∙◌,
}
use blitzmail.Notifyd.Mutexes.{
  clients, queue, acquire, release, Thread, holds, act, advance, advance_in, notifies, rouse, after,
  run, times, wake, addreq, Job, post, response, actions, thread, start,
}

-- the connection that has taken `_clm` and will take `_rqm` for each of `n + 1` notices
unfoldable pub poster : ℕ → List Job → Thread
poster n ps = record {
  held = clients ∷ [];
  todo = times (suc n) addreq (release clients ∷ thread ps);
}

-- the receiver that has taken `_rqm` and will take `_clm`
unfoldable pub receiver : List Job → Thread
receiver qs = record {
  held = queue ∷ [];
  todo = acquire clients ∷ release clients ∷ wake (release queue ∷ thread qs);
}

abbrev pub HaveMet : ℕ → List Job → List Job → List Thread → Type 0
HaveMet n ps qs us = (rest : List Thread) × (us ≡ poster n ps ∷ receiver qs ∷ rest)

behind :
    (all : List Thread) (i : ℕ) (t : Thread) (ts us : List Thread)
    → advance_in all (suc i) (t ∷ ts) ≡ some us
    → (us' : List Thread) × ((us ≡ t ∷ us') × (advance_in all i ts ≡ some us'))
unfolding advance_in
behind all i t ts us e = go (advance_in all i ts) e
  where
    go :
        (o : Option (List Thread))
        → ◌≡◌ {A = Option (List Thread)}
            (elim o [ none ↦ none | some ts' ↦ some (t ∷ ts') ])
            (some us)
        → (us' : List Thread) × ((us ≡ t ∷ us') × (o ≡ some us'))
    go none e = cc
    go (some us') e = (us', (cc, refl))

module _ (n : ℕ) (ps qs : List Job) where
  poster_waits : (rest : List Thread) → advance 0 (poster n ps ∷ receiver qs ∷ rest) ≡ none
  unfolding advance advance_in act poster receiver
  poster_waits rest = refl

  receiver_waits : (rest : List Thread) → advance 1 (poster n ps ∷ receiver qs ∷ rest) ≡ none
  unfolding advance advance_in act poster receiver
  receiver_waits rest = refl

  -- a notify wakes neither of them up
  after-HaveMet : (b : Bool) (ts : List Thread) → HaveMet n ps qs ts → HaveMet n ps qs (after b ts)
  unfolding poster receiver
  after-HaveMet true ts (rest, same) = (rouse rest, ap rouse same)
  after-HaveMet false ts h = h

  advance-HaveMet :
      (i : ℕ) (rest us : List Thread)
      → advance i (poster n ps ∷ receiver qs ∷ rest) ≡ some us
      → HaveMet n ps qs us
  unfolding advance
  advance-HaveMet zero rest us e = let waits : none ≡ some us = sym (poster_waits rest) ∙ e in cc
  advance-HaveMet (suc zero) rest us e =
      let waits : none ≡ some us = sym (receiver_waits rest) ∙ e in cc
  advance-HaveMet (suc (suc i)) rest us e =
      go (advance_in all (suc (suc i)) all) (notifies (suc (suc i)) all)
        (λ ts acts.
          let (ts', (first, e')) = behind all (suc i) (poster n ps) (receiver qs ∷ rest) ts acts in
          let (ts'', (second, _)) = behind all i (receiver qs) rest ts' e' in
          (ts'', first ∙ ap (λ rs. poster n ps ∷ rs) second))
        e
    where
      all : List Thread
      all = poster n ps ∷ receiver qs ∷ rest

      go :
          (o : Option (List Thread)) (b : Bool)
          → ((ts : List Thread) → o ≡ some ts → HaveMet n ps qs ts)
          → ◌≡◌ {A = Option (List Thread)}
              (elim o [ none ↦ none | some ts ↦ some (after b ts) ])
              (some us)
          → HaveMet n ps qs us
      go none b met e = cc
      go (some ts) b met e =
          let made : after b ts ≡ us = cc in
          subst (HaveMet n ps qs) made (after-HaveMet b ts (met ts refl))

  run-HaveMet :
      (is : List ℕ) (rest us : List Thread)
      → run is (poster n ps ∷ receiver qs ∷ rest) ≡ some us
      → HaveMet n ps qs us
  unfolding run
  run-HaveMet [] rest us e = (rest, cc)
  run-HaveMet (i ∷ is) rest us e =
      go (advance i (poster n ps ∷ receiver qs ∷ rest)) (advance-HaveMet i rest)
        (λ rest'. run-HaveMet is rest' us) e
    where
      go :
          (o : Option (List Thread))
          → ((ts : List Thread) → o ≡ some ts → HaveMet n ps qs ts)
          → ((rest' : List Thread)
              → run is (poster n ps ∷ receiver qs ∷ rest') ≡ some us
              → HaveMet n ps qs us)
          → ◌≡◌ {A = Option (List Thread)} (elim o [ none ↦ none | some ts ↦ run is ts ]) (some us)
          → HaveMet n ps qs us
      go none met next e = cc
      go (some ts) met next e =
          let (rest', same) = met ts refl in next rest' (subst (λ ts. run is ts ≡ some us) same e)

  meet :
      (others : List Thread) (is : List ℕ)
      → any (holds clients) others ≡ false
      → any (holds queue) others ≡ false
      → run (0 ∷ 1 ∷ is) (start (post (suc n) ∷ ps) ∷ start (response ∷ qs) ∷ others)
        ≡ run is (poster n ps ∷ receiver qs ∷ others)
  unfolding run advance advance_in act start actions poster receiver thread
  meet others is clients_free queue_free = rw (clients_free, queue_free)

  -- Where no other thread holds `_clm` or `_rqm`, a thread that posts a notice to one or more clients
  -- takes `_clm`, and the receiver, for a response that ends a request, then takes `_rqm`, the two
  -- threads wait for each other for ever: in every later state, whatever any number of other threads
  -- have done, both stand where they stood.
  pub post_response_deadlock :
      (others : List Thread) (is : List ℕ) (us : List Thread)
      → any (holds clients) others ≡ false
      → any (holds queue) others ≡ false
      → run (0 ∷ 1 ∷ is) (start (post (suc n) ∷ ps) ∷ start (response ∷ qs) ∷ others) ≡ some us
      → HaveMet n ps qs us
  post_response_deadlock others is us clients_free queue_free e =
      run-HaveMet is others us (sym (meet others is clients_free queue_free) ∙ e)
