-- ===== src/Notifyd/Mutexes/Safe.antt =====
-- What the threads of the notification server do without a deadlock: everything but what raises while
-- `_clm` is held, the responses of the receiver that end a request, and the releases that end a response.
use blitzmail.Common.{
  ℕ, zero, suc, Bool, true, false, ◌≡◌, refl, arith, All, select, List, [], ◌∷◌, Option, none, some,
  subst, map,
}
use blitzmail.Notifyd.Mutexes.{
  clients, queue, wakeup, socket, Action, acquire, release, Thread, advance, wait, run, times, wake,
  addreq, Job, post, post_failed, stop, look, request, request_failed, cleared, response, late,
  ended, pass, last_pass, actions, thread, start,
}
use blitzmail.Notifyd.Mutexes.Ordered.{IsOrdered, AreOrdered, advance-AreOrdered}
use blitzmail.Notifyd.Mutexes.Rest.{left, Ends, ordered-Ends}

-- what gives `_clm` back, and takes it only where `_rqm` is not held
abbrev pub IsSafe : Job → Type 0
IsSafe (post n) = Unit
IsSafe (post_failed n) = ⊥
IsSafe (stop n) = Unit
IsSafe look = Unit
IsSafe (request n) = Unit
IsSafe (request_failed n) = ⊥
IsSafe cleared = Unit
IsSafe response = ⊥
IsSafe late = Unit
IsSafe (ended n) = n ≡ 0
IsSafe (pass n timed) = Unit
IsSafe (last_pass n) = Unit

notices-IsOrdered :
    (n : ℕ) (rest : List Action)
    → IsOrdered (clients ∷ []) rest
    → IsOrdered (clients ∷ []) (times n addreq rest)
unfolding select
notices-IsOrdered zero rest h = h
notices-IsOrdered (suc n) rest h =
    ((omega arith, tt), ((omega arith, (omega arith, tt)), notices-IsOrdered n rest h))

packets-IsOrdered :
    (n : ℕ) (rest : List Action)
    → IsOrdered (queue ∷ []) rest
    → IsOrdered (queue ∷ []) (times n (acquire socket ∷ release socket ∷ []) rest)
unfolding select
packets-IsOrdered zero rest h = h
packets-IsOrdered (suc n) rest h = ((omega arith, tt), packets-IsOrdered n rest h)

wait-IsOrdered :
    (timed : Bool) (rest : List Action) → IsOrdered [] rest → IsOrdered [] (wait timed rest)
unfolding select
wait-IsOrdered true rest h = (tt, (tt, h))
wait-IsOrdered false rest h = (tt, (refl, (tt, h)))

actions-IsOrdered :
    (j : Job) (rest : List Action) → IsSafe j → IsOrdered [] rest → IsOrdered [] (actions j rest)
unfolding actions select
actions-IsOrdered (post n) rest safe h = (tt, notices-IsOrdered n (release clients ∷ rest) h)
actions-IsOrdered (post_failed n) rest safe h = absurd safe
actions-IsOrdered (request_failed n) rest safe h = absurd safe
actions-IsOrdered (stop n) rest safe h =
    (tt, notices-IsOrdered n (release clients ∷ wake rest) (tt, h))
actions-IsOrdered look rest safe h = (tt, h)
actions-IsOrdered (request n) rest safe h = (
  tt,
  notices-IsOrdered n (release clients ∷ acquire queue ∷ wake (release queue ∷ rest))
      (tt, ((omega arith, tt), h)),
)
actions-IsOrdered cleared rest safe h = (tt, ((omega arith, tt), h))
actions-IsOrdered response rest safe h = absurd safe
actions-IsOrdered late rest safe h = (tt, h)
actions-IsOrdered (ended n) rest safe h = rw safe (tt, h)
actions-IsOrdered (pass n timed) rest safe h = (
  tt,
  packets-IsOrdered n (release queue ∷ acquire clients ∷ release clients ∷ wait timed rest)
      (tt, wait-IsOrdered timed rest h),
)
actions-IsOrdered (last_pass n) rest safe h = (
  tt,
  packets-IsOrdered n
      (release queue ∷ acquire clients ∷ release clients ∷ acquire wakeup ∷ release wakeup ∷ [])
      (tt, (tt, refl)),
)

thread-IsOrdered : (js : List Job) → All IsSafe js → IsOrdered [] (thread js)
unfolding thread
thread-IsOrdered [] h = refl
thread-IsOrdered (j ∷ js) h = actions-IsOrdered j (thread js) h.0 (thread-IsOrdered js h.1)

start-AreOrdered : (jobs : List (List Job)) → All (All IsSafe) jobs → AreOrdered (map start jobs)
unfolding start
start-AreOrdered [] h = tt
start-AreOrdered (js ∷ jobs) h = (thread-IsOrdered js h.0, start-AreOrdered jobs h.1)

run-AreOrdered :
    (is : List ℕ) (ts ts' : List Thread) → AreOrdered ts → run is ts ≡ some ts' → AreOrdered ts'
unfolding run
run-AreOrdered [] ts ts' h e = let same : ts ≡ ts' = cc in subst AreOrdered same h
run-AreOrdered (i ∷ is) ts ts' h e =
    go (advance i ts)
      (λ us acts goes. run-AreOrdered is us ts' (advance-AreOrdered i ts us h acts) goes) e
  where
    go :
        (o : Option (List Thread))
        → ((us : List Thread) → o ≡ some us → run is us ≡ some ts' → AreOrdered ts')
        → ◌≡◌ {A = Option (List Thread)} (elim o [ none ↦ none | some us ↦ run is us ]) (some ts')
        → AreOrdered ts'
    go none next e = cc
    go (some us) next e = next us refl e

-- Where no post and no registration raises while it holds the mutex of the clients, whatever threads of
-- the notification server have done, they can go on, in an order that the theorem gives, until each of
-- them holds no mutex and has ended or is the writer that sleeps until it is notified: no two of them
-- wait for each other. The threads post notices, look at the table of clients, register clients, clear
-- types, stop the server and make the passes of the writer; the responses that the receiver hears come
-- too late to end a request, and its releases end no response.
pub run-Ends :
    (jobs : List (List Job)) (is : List ℕ) (ts : List Thread)
    → All (All IsSafe) jobs
    → run is (map start jobs) ≡ some ts
    → Ends ts
run-Ends jobs is ts safe e =
    ordered-Ends (left ts) ts (omega arith)
      (run-AreOrdered is (map start jobs) ts (start-AreOrdered jobs safe) e)
