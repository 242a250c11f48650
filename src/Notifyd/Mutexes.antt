-- ===== src/Notifyd/Mutexes.antt =====
-- The mutexes of NotifyUDPServer and of ATPObject below it, and the order in which the threads take
-- them. A thread is what it still has to take and to give back; what it does between is in Udp.antt.
pub mod Ordered
pub mod Rest
pub mod Safe
pub mod Deadlock
mod Tests
use blitzmail.Common.{
  ℕ, zero, suc, Bool, true, false, not, any, ◌==◌, select, List, [], ◌∷◌, ◌++◌, Option, none, some,
  if◌then◌else◌,
}

-- `_clm`, `_rqm`, `_cdc` and `_som`
pub data Mutex : Type 0 where
  clients queue wakeup socket : Mutex

abbrev pub rank : Mutex → ℕ
rank clients = 0
rank queue = 1
rank wakeup = 2
rank socket = 3

pub data Action : Type 0 where
  acquire : Mutex → Action
  release : Mutex → Action
  -- notify on `_cdc`, and a wait for it without a time limit, which ends only then
  notify asleep : Action

pub record Thread : Type 0 where
  pub held : List Mutex
  pub todo : List Action

abbrev pub same : Mutex → Mutex → Bool
same a b = rank a == rank b

abbrev pub holds : Mutex → Thread → Bool
holds m t = any (same m) t.held

-- A mutex is free if no thread holds it.
abbrev pub is_free : Mutex → List Thread → Bool
is_free m ts = not (any (holds m) ts)

-- The next action of a thread among all threads; `none` where it waits or has ended. What a notify
-- does to another thread is in `advance`.
unfoldable pub act : List Thread → List Mutex → List Action → Option Thread
act all held [] = none
act all held (acquire m ∷ todo) =
    if is_free m all then some (record { held = m ∷ held; todo = todo }) else none
act all held (release m ∷ todo) =
    some (record { held = select (λ k. not (same m k)) held; todo = todo })
act all held (notify ∷ todo) = some (record { held = held; todo = todo })
act all held (asleep ∷ todo) = none

-- the next action of the thread at a place
unfoldable pub advance_in : List Thread → ℕ → List Thread → Option (List Thread)
advance_in all i [] = none
advance_in all zero (t ∷ ts) = elim (act all t.held t.todo) [
  | none ↦ none
  | some t' ↦ some (t' ∷ ts)
]
advance_in all (suc i) (t ∷ ts) = elim (advance_in all i ts) [
  | none ↦ none
  | some ts' ↦ some (t ∷ ts')
]

abbrev pub is_notify : List Action → Bool
is_notify (notify ∷ todo) = true
is_notify (acquire m ∷ todo) = false
is_notify (release m ∷ todo) = false
is_notify (asleep ∷ todo) = false
is_notify [] = false

-- is the next action of the thread at a place a notify?
abbrev pub notifies : ℕ → List Thread → Bool
notifies i [] = false
notifies zero (t ∷ ts) = is_notify t.todo
notifies (suc i) (t ∷ ts) = notifies i ts

-- The first thread that is asleep is woken up, if there is one.
abbrev pub rouse : List Thread → List Thread
rouse [] = []
rouse (t ∷ ts) =
    let rest = rouse ts in
    elim t.todo [
      | [] ↦ t ∷ rest
      | a ∷ todo ↦ elim a [
        | acquire m ↦ t ∷ rest
        | release m ↦ t ∷ rest
        | notify ↦ t ∷ rest
        | asleep ↦ record { held = t.held; todo = todo } ∷ ts
      ]
    ]

abbrev pub after : Bool → List Thread → List Thread
after true ts = rouse ts
after false ts = ts

unfoldable pub advance : ℕ → List Thread → Option (List Thread)
unfolding advance_in
advance i ts = elim (advance_in ts i ts) [
  | none ↦ none
  | some ts' ↦ some (after (notifies i ts) ts')
]

-- the actions of threads in the order of their places
unfoldable pub run : List ℕ → List Thread → Option (List Thread)
run [] ts = some ts
run (i ∷ is) ts = elim (advance i ts) [ none ↦ none | some ts' ↦ run is ts' ]

abbrev pub times : ℕ → List Action → List Action → List Action
times zero p rest = rest
times (suc n) p rest = p ++ times n p rest

-- the writer is woken up
abbrev pub wake : List Action → List Action
wake rest = acquire wakeup ∷ notify ∷ release wakeup ∷ rest

-- `_cdc.wait` with a time limit, which may end at any time, and without one; the thread then takes
-- `_cdc` again
abbrev pub wait : Bool → List Action → List Action
wait true rest = acquire wakeup ∷ release wakeup ∷ acquire wakeup ∷ release wakeup ∷ rest
wait false rest = acquire wakeup ∷ release wakeup ∷ asleep ∷ acquire wakeup ∷ release wakeup ∷ rest

-- _addreq
abbrev pub addreq : List Action
addreq = acquire queue ∷ wake (release queue ∷ [])

-- what the threads of the server do: the connections post and list clients, the receiver registers
-- clients and hears responses and releases, the writer makes its passes
pub data Job : Type 0 where
  -- post with a notice for each of `n` clients, and add_client with `n` sticky notices
  post : (n : ℕ) → Job
  -- the same where the request after the first `n` cannot be made: _addreq raises, `_clm` is not given
  -- back, and the exception ends the thread
  post_failed : (n : ℕ) → Job
  -- stop, with a reset for each of `n` clients; the wait for the threads to end is left out
  stop : (n : ℕ) → Job
  -- clients, write_poll and update
  look : Job
  -- a request that registers a client, with `n` sticky notices, and its response
  request : (n : ℕ) → Job
  -- one whose sticky notice after the first `n` cannot be made, which ends the receiver
  request_failed : (n : ℕ) → Job
  -- a request that clears a type, and its response
  cleared : Job
  -- a response that ends a request, and one that comes too late
  response : Job
  late : Job
  -- a release that ends `n` responses
  ended : (n : ℕ) → Job
  -- a pass of the writer that sends `n` packets, and its wait, with a time limit if the queue is not
  -- empty
  pass : (n : ℕ) (timed : Bool) → Job
  -- its last pass, after a stop, with no wait
  last_pass : (n : ℕ) → Job

unfoldable pub actions : Job → List Action → List Action
actions (post n) rest = acquire clients ∷ times n addreq (release clients ∷ rest)
actions (post_failed n) rest = acquire clients ∷ times n addreq (acquire queue ∷ release queue ∷ [])
actions (stop n) rest = acquire clients ∷ times n addreq (release clients ∷ wake rest)
actions look rest = acquire clients ∷ release clients ∷ rest
actions (request n) rest =
    acquire clients ∷ times n addreq (release clients ∷ acquire queue ∷ wake (release queue ∷ rest))
actions (request_failed n) rest =
    acquire clients ∷ times n addreq (acquire queue ∷ release queue ∷ [])
actions cleared rest = acquire queue ∷ wake (release queue ∷ rest)
actions response rest =
    acquire queue ∷ acquire clients ∷ release clients ∷ wake (release queue ∷ rest)
actions late rest = acquire queue ∷ release queue ∷ rest
actions (ended n) rest =
    acquire queue ∷ times n (acquire clients ∷ release clients ∷ []) (release queue ∷ rest)
actions (pass n timed) rest =
    acquire queue
    ∷ times n (acquire socket ∷ release socket ∷ [])
        (release queue ∷ acquire clients ∷ release clients ∷ wait timed rest)
actions (last_pass n) rest =
    acquire queue
    ∷ times n (acquire socket ∷ release socket ∷ [])
        (release queue ∷ acquire clients ∷ release clients ∷ acquire wakeup ∷ release wakeup ∷ [])

unfoldable pub thread : List Job → List Action
unfolding actions
thread [] = []
thread (j ∷ js) = actions j (thread js)

unfoldable pub start : List Job → Thread
unfolding thread
start js = record { held = []; todo = thread js }
