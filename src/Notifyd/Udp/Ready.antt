-- ===== src/Notifyd/Udp/Ready.antt =====
-- The server queues only packets that can be sent.
use blitzmail.Common.{
  ℕ, ◌≡◌, Bytes, List, [], ◌∷◌, Option, none, some, ℤ, Bool-cases, inl, inr, eq_bytes, codes,
}
use blitzmail.Errors.{Result, ok, err, Result-cases}
use blitzmail.Packet.Register
use blitzmail.Packet.Atp.{Flag}
use blitzmail.Packet.Service.{code}
use blitzmail.Atp.Queue.{Addr, notify, reset}
use blitzmail.Atp.Object.{Atp, addreq}
use blitzmail.Atp.Object.Sendable.{IsReady, addreq-IsReady}
use blitzmail.Notifyd.Db.{Notice, Database, notices}
use blitzmail.Notifyd.Client.{Client, client, addr, sendmark, recvmark, wants}
use blitzmail.Notifyd.Udp.{
  State, offer, send_sticky, enrol, post_each, reset_each, add_client, post, stop, enlist,
  registered, cleared, do_req,
}

offer-IsReady :
    (now : ℕ) (c : Client) (n : Notice) (a a' : Atp)
    → IsReady a
    → offer now c n a ≡ ok a'
    → IsReady a'
unfolding offer
offer-IsReady now c n a a' h made =
    addreq-IsReady now (notify n.uid (code n.type) n.msgid n.content (addr c)) a a' h made

send_sticky-IsReady :
    (now : ℕ) (c : Client) (ns : List Notice) (a : Atp)
    → IsReady a
    → IsReady (send_sticky now c ns a).2
unfolding send_sticky
send_sticky-IsReady now c [] a h = h
send_sticky-IsReady now c (n ∷ ns) a h = elim (Bool-cases (wants c n)) [
  | inl e ↦ elim (Result-cases (offer now c n a)) [
    | inl (a', made) ↦
        rw (e, made, send_sticky)
          (send_sticky-IsReady now (sendmark now c) ns a' (offer-IsReady now c n a a' h made))
    | inr (x, failed) ↦ rw (e, failed, send_sticky) h
  ]
  | inr e ↦ rw (e, send_sticky) (send_sticky-IsReady now c ns a h)
]

post_each-IsReady :
    (now : ℕ) (n : Notice) (cs : List Client) (a : Atp)
    → IsReady a
    → IsReady (post_each now n cs a).2
unfolding post_each
post_each-IsReady now n [] a h = h
post_each-IsReady now n (c ∷ cs) a h = elim (Bool-cases (wants c n)) [
  | inl e ↦ elim (Result-cases (offer now c n a)) [
    | inl (a', made) ↦
        rw (e, made, post_each) (post_each-IsReady now n cs a' (offer-IsReady now c n a a' h made))
    | inr (x, failed) ↦ rw (e, failed, post_each) h
  ]
  | inr e ↦ rw (e, post_each) (post_each-IsReady now n cs a h)
]

reset_each-IsReady :
    (now : ℕ) (cs : List Client) (a : Atp) → IsReady a → IsReady (reset_each now cs a).1
unfolding reset_each
reset_each-IsReady now [] a h = h
reset_each-IsReady now (c ∷ cs) a h = elim (Result-cases (addreq now (reset (addr c)) a)) [
  | inl (a', made) ↦
      rw (made, reset_each)
        (reset_each-IsReady now cs a' (addreq-IsReady now (reset (addr c)) a a' h made))
  | inr (x, failed) ↦ rw (failed, reset_each) h
]

module _ (db : Database) (now : ℕ) where
  pub stop-IsReady : (o : State db) → IsReady o.1 → IsReady (stop db now o).1.1
  unfolding stop
  stop-IsReady (s, a) h = elim (Bool-cases s.locked) [
    | inl held ↦ rw held h
    | inr free ↦ rw free (reset_each-IsReady now s.clients a h)
  ]

  pub post-IsReady : (n : Notice) (o : State db) → IsReady o.1 → IsReady (post db now n o).1.1
  unfolding post
  post-IsReady n (s, a) h = elim (Bool-cases s.locked) [
    | inl held ↦ rw held h
    | inr free ↦ rw free (post_each-IsReady now n s.clients a h)
  ]

  pub add_client-IsReady :
      (uid : ℤ) (ip : Bytes) (port : ℤ) (svcs : List ℤ) (o : State db)
      → IsReady o.1
      → IsReady (add_client db now uid ip port svcs o).1.1
  unfolding add_client
  add_client-IsReady uid ip port svcs (s, a) h =
      let new = recvmark now (sendmark now (client uid ip port svcs)) in
      let out = (enrol now new s.clients).1 in
      let ready = send_sticky-IsReady now out (notices db s.db) a h in
      elim (Bool-cases s.locked) [
        | inl held ↦ rw held h
        | inr free ↦ elim (Result-cases (send_sticky now out (notices db s.db) a).0) [
          | inl (u, made) ↦ rw (free, made) ready
          | inr (x, failed) ↦ rw (free, failed) ready
        ]
      ]

  enlist-IsReady :
      (uid : Option ℤ) (ip : Bytes) (port : ℤ) (svcs : List ℤ) (o : State db)
      → IsReady o.1
      → IsReady (enlist db now uid ip port svcs o).1.1
  unfolding enlist
  enlist-IsReady none ip port svcs o h = h
  enlist-IsReady (some uid) ip port svcs o h =
      let ready = add_client-IsReady uid ip port svcs o h in
      elim (Result-cases (add_client db now uid ip port svcs o).0) [
        | inl (c, made) ↦ rw (made, enlist) ready
        | inr (x, failed) ↦ rw (failed, enlist) ready
      ]

  registered-IsReady :
      (sndr : Addr) (r : Result Register.Fields) (o : State db)
      → IsReady o.1
      → IsReady (registered db now sndr r o).1.1
  unfolding registered
  registered-IsReady sndr (err x) o h = h
  registered-IsReady (ip, from) (ok (uid, port, svcs)) o h = enlist-IsReady _ ip _ svcs o h

  cleared-IsReady : (r : Result (ℤ × ℤ)) (o : State db) → IsReady o.1 → IsReady (cleared db r o).1.1
  unfolding cleared
  cleared-IsReady (err x) o h = h
  cleared-IsReady (ok (uid, service)) (s, a) h = h

  pub do_req-IsReady :
      (flags : List Flag) (seq tid : ℕ) (udata pdata : Bytes) (sndr : Addr) (o : State db)
      → IsReady o.1
      → IsReady (do_req db now flags seq tid udata pdata sndr o).1.1
  unfolding do_req
  do_req-IsReady flags seq tid udata pdata sndr o h =
      elim (Bool-cases (eq_bytes udata (codes "NR02"))) [
        | inl nr ↦ rw nr (registered-IsReady sndr _ o h)
        | inr other ↦ elim (Bool-cases (eq_bytes udata (codes "CLEN"))) [
          | inl cl ↦ rw (other, cl) (cleared-IsReady _ o h)
          | inr neither ↦ rw (other, neither) h
        ]
      ]
