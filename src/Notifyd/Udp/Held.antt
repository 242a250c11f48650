-- ===== src/Notifyd/Udp/Held.antt =====
-- Once the mutex of the table of clients is left held, it is held for ever.
use blitzmail.Common.{
  ℕ, ◌≡◌, refl, Bytes, codes, eq_bytes, true, false, List, [], ◌∷◌, any, Option, none, some, ℤ,
  Bool-cases, inl, inr,
}
use blitzmail.Errors.{Result, ok, err, blocked, struct_error, Result-cases}
use blitzmail.Packet.Register
use blitzmail.Packet.Atp.{Flag}
use blitzmail.Atp.Queue.{Addr, Elem}
use blitzmail.Atp.Object.{Atp, new_atp, pass}
use blitzmail.Atp.Object.Keeps.{receive_keeps}
use blitzmail.Notifyd.Db.{Notice, Database}
use blitzmail.Notifyd.Client.{Client, wants}
use blitzmail.Notifyd.Udp.{
  Server, State, enlist, registered, cleared, do_req, do_rsp, do_rel, server_handlers, add_client,
  post, clear_sticky,
}
use blitzmail.Notifyd.Udp.Lock.{held_blocks, IsTooLarge, post_too_large-held}
use blitzmail.Notifyd.Udp.Run.{
  Event, arrived, posted, added, entered, removed, stopped, woken, turn, polled, happen, happen_all,
}

module _ (db : Database) (cs : List Client) where
  -- the mutex is held, and the table is this one
  abbrev pub IsStuck : Server db.Store → Type 0
  IsStuck s = (s.locked ≡ true) × (s.clients ≡ cs)

  enlist-IsStuck :
      (now : ℕ) (uid : Option ℤ) (ip : Bytes) (port : ℤ) (svcs : List ℤ) (o : State db)
      → IsStuck o.0
      → IsStuck (enlist db now uid ip port svcs o).1.0
  unfolding enlist
  enlist-IsStuck now none ip port svcs o h = h
  enlist-IsStuck now (some uid) ip port svcs (s, a) h =
      let waits = (held_blocks db now s a h.0).0 uid ip port svcs in rw (enlist, waits) (rw waits h)

  registered-IsStuck :
      (now : ℕ) (sndr : Addr) (r : Result Register.Fields) (o : State db)
      → IsStuck o.0
      → IsStuck (registered db now sndr r o).1.0
  unfolding registered
  registered-IsStuck now sndr (err x) o h = h
  registered-IsStuck now (ip, from) (ok (uid, port, svcs)) o h = enlist-IsStuck now _ ip _ svcs o h

  cleared-IsStuck : (r : Result (ℤ × ℤ)) (o : State db) → IsStuck o.0 → IsStuck (cleared db r o).1.0
  unfolding cleared clear_sticky
  cleared-IsStuck (err x) o h = h
  cleared-IsStuck (ok (uid, service)) (s, a) h = h

  do_req-IsStuck :
      (now : ℕ) (flags : List Flag) (seq tid : ℕ) (udata pdata : Bytes) (sndr : Addr) (o : State db)
      → IsStuck o.0
      → IsStuck (do_req db now flags seq tid udata pdata sndr o).1.0
  unfolding do_req
  do_req-IsStuck now flags seq tid udata pdata sndr o h =
      elim (Bool-cases (eq_bytes udata (codes "NR02"))) [
        | inl nr ↦ rw nr (registered-IsStuck now sndr _ o h)
        | inr other ↦ elim (Bool-cases (eq_bytes udata (codes "CLEN"))) [
          | inl cl ↦ rw (other, cl) (cleared-IsStuck _ o h)
          | inr neither ↦ rw (other, neither) h
        ]
      ]

  do_rsp-IsStuck :
      (now : ℕ) (e : Elem) (s : Server db.Store) → IsStuck s → IsStuck (do_rsp db now e s).1
  unfolding do_rsp
  do_rsp-IsStuck now e s h =
      let waits = (held_blocks db now s (new_atp 0) h.0).2 e.addr.0 e.addr.1 in
      rw (do_rsp, waits) (rw waits h)

  do_rel-IsStuck :
      (now : ℕ) (e : Elem) (s : Server db.Store) → IsStuck s → IsStuck (do_rel db now e s).1
  unfolding do_rel
  do_rel-IsStuck now e s h =
      rw (do_rel, (held_blocks db now s (new_atp 0) h.0).2 e.addr.0 e.addr.1) h

  turn-IsStuck : (now : ℕ) (o : State db) → IsStuck o.0 → IsStuck (turn db now o).1.0
  unfolding turn polled
  turn-IsStuck now (s, a) h = elim (Result-cases (pass now a)) [
    | inl (r, made) ↦ rw (turn, made) (rw (polled, (held_blocks db now s r.0 h.0).3) h)
    | inr (x, failed) ↦ rw (turn, failed) h
  ]

  happen-IsStuck : (e : Event) (o : State db) → IsStuck o.0 → IsStuck (happen db e o).0
  unfolding happen server_handlers clear_sticky
  happen-IsStuck (arrived now d sndr) o h =
      receive_keeps (server_handlers db) IsStuck do_req-IsStuck do_rsp-IsStuck do_rel-IsStuck now d
        sndr o h
  happen-IsStuck (posted now n) (s, a) h = rw (happen, (held_blocks db now s a h.0).1 n) h
  happen-IsStuck (added now uid ip port svcs) (s, a) h =
      rw (happen, (held_blocks db now s a h.0).0 uid ip port svcs) h
  happen-IsStuck (entered uid type msgid content) (s, a) h = h
  happen-IsStuck (removed uid type) (s, a) h = h
  happen-IsStuck (stopped now) (s, a) h = rw (happen, (held_blocks db now s a h.0).4) h
  happen-IsStuck (woken now) o h = turn-IsStuck now o h

  happen_all-IsStuck :
      (es : List Event) (o : State db) → IsStuck o.0 → IsStuck (happen_all db es o).0
  unfolding happen_all
  happen_all-IsStuck [] o h = h
  happen_all-IsStuck (e ∷ es) o h = happen_all-IsStuck es (happen db e o) (happen-IsStuck e o h)

-- A notice whose message identifier does not fit 32 bits, posted while a client wants it, raises
-- struct.error and leaves the mutex held, for ever: whatever datagrams, notices, registrations, changes
-- of the database, stops and turns of the writer follow, the table of clients is the one that this post
-- left, and a post or a registration waits for the mutex and changes nothing.
pub post_too_large :
    (db : Database) (now : ℕ) (n : Notice) (s : Server db.Store) (a : Atp) (es : List Event)
    → s.locked ≡ false
    → IsTooLarge n.msgid
    → any (λ c. wants c n) s.clients ≡ true
    → ((post db now n (s, a)).0 ≡ err struct_error)
      × ((happen_all db es (post db now n (s, a)).1).0.clients ≡ (post db now n (s, a)).1.0.clients)
      × ((later : ℕ) (m : Notice)
          → post db later m (happen_all db es (post db now n (s, a)).1)
            ≡ (err blocked, happen_all db es (post db now n (s, a)).1))
      × ((later : ℕ) (uid : ℤ) (ip : Bytes) (port : ℤ) (svcs : List ℤ)
          → add_client db later uid ip port svcs (happen_all db es (post db now n (s, a)).1)
            ≡ (err blocked, happen_all db es (post db now n (s, a)).1))
post_too_large db now n s a es free big wanted =
    let (raised, held) = post_too_large-held db now n s a free big wanted in
    let o = (post db now n (s, a)).1 in
    let (s', a') = happen_all db es o in
    let stuck = happen_all-IsStuck db o.0.clients es o (held, refl) in
    (
      raised,
      stuck.1,
      λ later m. (held_blocks db later s' a' stuck.0).1 m,
      λ later. (held_blocks db later s' a' stuck.0).0,
    )
