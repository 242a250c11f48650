-- ===== src/Notifyd/Mutexes/Tests.antt =====
-- The theorems on the mutexes at concrete threads.
use blitzmail.Common.{◌≡◌, refl, false, select, List, [], ◌∷◌, some, map}
use blitzmail.Notifyd.Mutexes.{
  Job, Action, pass, post, look, request, late, response, Thread, queue, clients, socket, acquire,
  release, wait, asleep, wakeup, times, addreq, thread, start, run, advance, advance_in, act,
  actions,
}
use blitzmail.Notifyd.Mutexes.Rest.{Ends}
use blitzmail.Notifyd.Mutexes.Safe.{run-Ends}
use blitzmail.Notifyd.Mutexes.Deadlock.{poster, receiver, HaveMet, post_response_deadlock}

-- the writer, a connection that posts to two clients and the receiver with a registration
abbrev threads : List (List Job)
threads = (pass 1 false ∷ []) ∷ (post 2 ∷ look ∷ []) ∷ (request 1 ∷ late ∷ []) ∷ []

-- what they have left when the writer has `_rqm` and the connection `_clm`
abbrev midway : List Thread
midway =
    record {
      held = queue ∷ [];
      todo =
          acquire socket
          ∷ release socket
          ∷ release queue
          ∷ acquire clients
          ∷ release clients
          ∷ wait false [];
    }
    ∷ record { held = clients ∷ []; todo = times 2 addreq (release clients ∷ thread (look ∷ [])) }
    ∷ start (request 1 ∷ late ∷ [])
    ∷ []

reached : run (0 ∷ 1 ∷ []) (map start threads) ≡ some midway
unfolding run advance advance_in act start actions thread
reached = refl

run-Ends_example : Ends midway
run-Ends_example =
    run-Ends threads (0 ∷ 1 ∷ []) midway ((tt, tt), ((tt, (tt, tt)), ((tt, (tt, tt)), tt))) reached

-- the writer after its pass, which holds nothing and will wait
abbrev resting : List Action → Thread
resting todo = record { held = []; todo = todo }

met :
    run
      (0 ∷ 1 ∷ 2 ∷ 2 ∷ [])
      (start (post 1 ∷ []) ∷ start (response ∷ []) ∷ resting (wait false []) ∷ [])
    ≡ some
        (poster 0 [] ∷ receiver [] ∷ resting (asleep ∷ acquire wakeup ∷ release wakeup ∷ []) ∷ [])
unfolding run advance advance_in act start actions thread poster receiver select
met = refl

post_response_deadlock_example :
    HaveMet 0 [] []
      (poster 0 [] ∷ receiver [] ∷ resting (asleep ∷ acquire wakeup ∷ release wakeup ∷ []) ∷ [])
post_response_deadlock_example =
    post_response_deadlock 0 [] [] (resting (wait false []) ∷ []) (2 ∷ 2 ∷ [])
      (poster 0 [] ∷ receiver [] ∷ resting (asleep ∷ acquire wakeup ∷ release wakeup ∷ []) ∷ [])
      refl refl met
