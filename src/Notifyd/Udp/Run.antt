-- ===== src/Notifyd/Udp/Run.antt =====
-- Any sequence of what happens to the server: datagrams, notices, registrations over TCP, changes of
-- the database by the TCP server, the stop, and turns of the writer's loop, in whatever order the
-- threads have it.
use blitzmail.Common.{
  ℕ, ◌≡◌, ◌<◌, ◌^◌, Bytes, AreBytes, codes, eq_bytes, List, [], ◌∷◌, All, Option, none, some, ℤ,
  Bool-cases, inl, inr,
}
use blitzmail.Errors.{Result, ok, err, Result-cases}
use blitzmail.Packet.Register
use blitzmail.Packet.Atp.{Flag}
use blitzmail.Atp.Queue.{Addr, Elem}
use blitzmail.Atp.Object.{Atp, Sent, new_atp, pass, receive}
use blitzmail.Atp.Object.Sendable.{IsReady, IsReady-new_atp, pass-IsReady}
use blitzmail.Atp.Object.Received.{receive-IsReady}
use blitzmail.Atp.Object.Keeps.{receive_keeps}
use blitzmail.Notifyd.Db.{Notice, Database, enter}
use blitzmail.Notifyd.Udp.{
  Server, State, new_server, enlist, registered, cleared, do_req, do_rsp, do_rel, server_handlers,
  add_client, post, update, write_poll, clear_sticky, stop,
}
use blitzmail.Notifyd.Udp.Table.{AreDistinct}
use blitzmail.Notifyd.Udp.Distinct.{
  add_client-AreDistinct, post-AreDistinct, update-AreDistinct, write_poll-AreDistinct,
  stop-AreDistinct,
}
use blitzmail.Notifyd.Udp.Ready.{stop-IsReady, post-IsReady, add_client-IsReady, do_req-IsReady}

-- What happens, each at a reading of the clock.
pub data Event : Type 0 where
  arrived : ℕ → Bytes → Addr → Event
  posted : ℕ → Notice → Event
  added : ℕ → ℤ → Bytes → ℤ → List ℤ → Event
  -- a sticky notice is entered, as by NOTIFY, and a type is cleared, as by CLEAR
  entered : ℤ → ℤ → ℤ → Option Bytes → Event
  removed : ℤ → ℤ → Event
  stopped : ℕ → Event
  woken : ℕ → Event

-- datagrams are sequences of bytes
abbrev pub IsGiven : Event → Type 0
IsGiven (arrived now d sndr) = AreBytes d
IsGiven (posted now n) = Unit
IsGiven (added now uid ip port svcs) = Unit
IsGiven (entered uid type msgid content) = Unit
IsGiven (removed uid type) = Unit
IsGiven (stopped now) = Unit
IsGiven (woken now) = Unit

module _ (db : Database) where
  unfoldable pub polled : Sent → Result (Unit {0}) × State db → Result Sent × State db
  polled out (ok _, o) = (ok out, o)
  polled out (err x, o) = (err x, o)

  -- One turn of the writer's loop: a pass over the queues, and then write_poll.
  unfoldable pub turn : ℕ → State db → Result Sent × State db
  unfolding polled
  turn now (s, a) = elim (pass now a) [
    | ok r ↦ polled r.1 (write_poll db now (s, r.0))
    | err x ↦ (err x, (s, a))
  ]

  -- the server after an event
  unfoldable pub happen : Event → State db → State db
  unfolding turn
  happen (arrived now d sndr) o = (receive (server_handlers db) now d sndr o).1
  happen (posted now n) o = (post db now n o).1
  happen (added now uid ip port svcs) o = (add_client db now uid ip port svcs o).1
  happen (entered uid type msgid content) (s, a) =
      (record s { db = enter db uid type msgid content s.db }, a)
  happen (removed uid type) (s, a) = (clear_sticky db uid type s, a)
  happen (stopped now) o = (stop db now o).1
  happen (woken now) o = (turn now o).1

  unfoldable pub happen_all : List Event → State db → State db
  unfolding happen
  happen_all [] o = o
  happen_all (e ∷ es) o = happen_all es (happen e o)

  pub record IsSound (o : State db) : Type 0 where
    pub distinct : AreDistinct o.0.clients
    pub ready : IsReady o.1

  enlist-AreDistinct :
      (now : ℕ) (uid : Option ℤ) (ip : Bytes) (port : ℤ) (svcs : List ℤ) (o : State db)
      → AreDistinct o.0.clients
      → AreDistinct (enlist db now uid ip port svcs o).1.0.clients
  unfolding enlist
  enlist-AreDistinct now none ip port svcs o h = h
  enlist-AreDistinct now (some uid) ip port svcs o h =
      let kept = add_client-AreDistinct db now o.0 o.1 h uid ip port svcs in
      elim (Result-cases (add_client db now uid ip port svcs o).0) [
        | inl (c, made) ↦ rw (made, enlist) kept
        | inr (x, failed) ↦ rw (failed, enlist) kept
      ]

  registered-AreDistinct :
      (now : ℕ) (sndr : Addr) (r : Result Register.Fields) (o : State db)
      → AreDistinct o.0.clients
      → AreDistinct (registered db now sndr r o).1.0.clients
  unfolding registered
  registered-AreDistinct now sndr (err x) o h = h
  registered-AreDistinct now (ip, from) (ok (uid, port, svcs)) o h =
      enlist-AreDistinct now _ ip _ svcs o h

  cleared-AreDistinct :
      (r : Result (ℤ × ℤ)) (o : State db)
      → AreDistinct o.0.clients
      → AreDistinct (cleared db r o).1.0.clients
  unfolding cleared clear_sticky
  cleared-AreDistinct (err x) o h = h
  cleared-AreDistinct (ok (uid, service)) (s, a) h = h

  do_req-AreDistinct :
      (now : ℕ) (flags : List Flag) (seq tid : ℕ) (udata pdata : Bytes) (sndr : Addr) (o : State db)
      → AreDistinct o.0.clients
      → AreDistinct (do_req db now flags seq tid udata pdata sndr o).1.0.clients
  unfolding do_req
  do_req-AreDistinct now flags seq tid udata pdata sndr o h =
      elim (Bool-cases (eq_bytes udata (codes "NR02"))) [
        | inl nr ↦ rw nr (registered-AreDistinct now sndr _ o h)
        | inr other ↦ elim (Bool-cases (eq_bytes udata (codes "CLEN"))) [
          | inl cl ↦ rw (other, cl) (cleared-AreDistinct _ o h)
          | inr neither ↦ rw (other, neither) h
        ]
      ]

  do_rsp-AreDistinct :
      (now : ℕ) (e : Elem) (s : Server db.Store)
      → AreDistinct s.clients
      → AreDistinct (do_rsp db now e s).1.clients
  unfolding do_rsp
  do_rsp-AreDistinct now e s h =
      let (ip, port) = e.addr in
      let kept = update-AreDistinct db now s (new_atp 0) h ip port in
      elim (Result-cases (update db now ip port s).0) [
        | inl (u, made) ↦ rw (made, do_rsp) kept
        | inr (x, failed) ↦ rw (failed, do_rsp) kept
      ]

  do_rel-AreDistinct :
      (now : ℕ) (e : Elem) (s : Server db.Store)
      → AreDistinct s.clients
      → AreDistinct (do_rel db now e s).1.clients
  unfolding do_rel
  do_rel-AreDistinct now e s h = update-AreDistinct db now s (new_atp 0) h e.addr.0 e.addr.1

  -- where the mutex is free, a turn removes the aged clients, and where it is held it waits
  turned-IsSound :
      (now : ℕ) (s : Server db.Store) (a : Atp) (out : Sent)
      → AreDistinct s.clients
      → IsReady a
      → IsSound (polled out (write_poll db now (s, a))).1
  unfolding polled write_poll
  turned-IsSound now s a out distinct ready =
      let kept = write_poll-AreDistinct db now s a distinct in
      elim (Bool-cases s.locked) [
        | inl held ↦ rw (held, polled) (record { distinct = distinct; ready = ready })
        | inr free ↦ rw (free, polled) (record { distinct = rw free at kept; ready = ready })
      ]

  turn-IsSound : (now : ℕ) (o : State db) → IsSound o → IsSound (turn now o).1
  unfolding turn
  turn-IsSound now (s, a) h =
      let (a', out, made, ready) = pass-IsReady now a h.ready in
      rw (made, turn) (turned-IsSound now s a' out h.distinct ready)

  happen-IsSound : (e : Event) (o : State db) → IsGiven e → IsSound o → IsSound (happen e o)
  unfolding happen server_handlers clear_sticky
  happen-IsSound (arrived now d sndr) o bytes h = record {
    distinct =
        receive_keeps (server_handlers db) (λ s. AreDistinct s.clients) do_req-AreDistinct
          do_rsp-AreDistinct do_rel-AreDistinct now d sndr o h.distinct;
    ready =
        receive-IsReady (server_handlers db)
          (λ at flags seq tid udata pdata from o.
            do_req-IsReady db at flags seq tid udata pdata from o)
          now d sndr o bytes h.ready;
  }
  happen-IsSound (posted now n) (s, a) given h = record {
    distinct = post-AreDistinct db now s a h.distinct n;
    ready = post-IsReady db now n (s, a) h.ready;
  }
  happen-IsSound (added now uid ip port svcs) (s, a) given h = record {
    distinct = add_client-AreDistinct db now s a h.distinct uid ip port svcs;
    ready = add_client-IsReady db now uid ip port svcs (s, a) h.ready;
  }
  happen-IsSound (entered uid type msgid content) (s, a) given h = record {
    distinct = h.distinct;
    ready = h.ready;
  }
  happen-IsSound (removed uid type) (s, a) given h = record {
    distinct = h.distinct;
    ready = h.ready;
  }
  happen-IsSound (stopped now) (s, a) given h = record {
    distinct = stop-AreDistinct db now s a h.distinct;
    ready = stop-IsReady db now (s, a) h.ready;
  }
  happen-IsSound (woken now) o given h = turn-IsSound now o h

  happen_all-IsSound :
      (es : List Event) (o : State db) → All IsGiven es → IsSound o → IsSound (happen_all es o)
  unfolding happen_all
  happen_all-IsSound [] o given h = h
  happen_all-IsSound (e ∷ es) o given h =
      happen_all-IsSound es (happen e o) given.1 (happen-IsSound e o given.0 h)

  -- Whatever happens to a new server, in whatever order, no client stands twice in its table, and the
  -- next pass of the writer raises nothing: each packet that was queued can be made. What happens is
  -- that datagrams of bytes arrive, notices are posted, clients registered, sticky notices entered and
  -- cleared, resets queued by a stop, and turns made by the writer; the transactions start below 2^16.
  pub happen_all-new_server :
      (tid maxage : ℕ) (store : db.Store) (es : List Event) (now : ℕ)
      → tid < 2 ^ 16
      → All IsGiven es
      → AreDistinct (happen_all es (new_server db tid maxage store)).0.clients
        × ((a : Atp) × (out : Sent) × (pass now (happen_all es (new_server db tid maxage store)).1
              ≡ ok (a, out)))
  unfolding new_server
  happen_all-new_server tid maxage store es now small given =
      let ready = IsReady-new_atp tid small in
      let sound = happen_all-IsSound es (new_server db tid maxage store) given (record {
        distinct = tt;
        ready = record { tid = ready.tid; pending = ready.pending; releases = ready.releases };
      }) in
      let (a, out, made, _) = pass-IsReady now _ sound.ready in (sound.distinct, (a, out, made))
