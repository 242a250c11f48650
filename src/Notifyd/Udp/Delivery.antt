-- ===== src/Notifyd/Udp/Delivery.antt =====
-- Whom a posted notice is queued for.
use blitzmail.Common.{
  ℕ, ◌≡◌, ap, Bytes, codes, false, List, [], ◌∷◌, ◌++◌, map, select, append_assoc, append-nil, some,
  if◌then◌else◌, Bool-cases, inl, inr,
}
use blitzmail.Errors.{ok}
use blitzmail.Packet.Service.{code}
use blitzmail.Packet.Notice.{make_notify_req}
use blitzmail.Atp.Queue.{Elem, elem, request_packet, request}
use blitzmail.Atp.Object.{Atp, addreq, next_tid}
use blitzmail.Notifyd.Db.{Notice, Database}
use blitzmail.Notifyd.Client.{Client, addr, sendmark, wants}
use blitzmail.Notifyd.Udp.{Server, offer, post_each, post}

-- the requests for some clients under consecutive transactions, and the transaction after them
pub queued : ℕ → ℕ → Bytes → List Client → List Elem
queued now tid body [] = []
queued now tid body (c ∷ cs) =
    elem now tid (request_packet tid (codes "NOTI") (some body)) (addr c)
    ∷ queued now (next_tid tid) body cs

pub tid_after : ℕ → List Client → ℕ
tid_after tid [] = tid
tid_after tid (c ∷ cs) = tid_after (next_tid tid) cs

-- the client, marked if the notice was sent to it
abbrev pub notified : ℕ → Notice → Client → Client
notified now n c = if wants c n then sendmark now c else c

offer-eq-ok :
    (now : ℕ) (c : Client) (n : Notice) (a : Atp) (body : Bytes)
    → make_notify_req (code n.type) n.uid n.msgid n.content ≡ ok body
    → offer now c n a
      ≡ ok (record a {
        rqueue =
            a.rqueue
            ++ elem now a.tid (request_packet a.tid (codes "NOTI") (some body)) (addr c) ∷ [];
        tid = next_tid a.tid;
      })
unfolding offer addreq request
offer-eq-ok now c n a body made = rw made

module _ (now : ℕ) (n : Notice) (body : Bytes)
    (made : make_notify_req (code n.type) n.uid n.msgid n.content ≡ ok body) where
  post_each_lem :
      (cs : List Client) (a : Atp)
      → post_each now n cs a ≡ (
        ok tt,
        map (notified now n) cs,
        record a {
          rqueue = a.rqueue ++ queued now a.tid body (select (λ c. wants c n) cs);
          tid = tid_after a.tid (select (λ c. wants c n) cs);
        },
      )
  unfolding post_each select queued tid_after
  post_each_lem [] a = rw (append-nil a.rqueue)
  post_each_lem (c ∷ cs) a = elim (Bool-cases (wants c n)) [
    | inl e ↦
        rw (e, offer-eq-ok now c n a body made, post_each)
          (rw (
            post_each_lem cs (record a {
              rqueue =
                  a.rqueue
                  ++ elem now a.tid (request_packet a.tid (codes "NOTI") (some body)) (addr c) ∷ [];
              tid = next_tid a.tid;
            }),
            append_assoc a.rqueue,
          ))
    | inr e ↦ rw (e, post_each) (ap (λ r. (r.0, c ∷ r.1, r.2)) (post_each_lem cs a))
  ]

  -- A notice for which a packet can be made is queued once for each client of the table that wants it,
  -- in the order of the table and under consecutive transactions. Those clients are marked, no client
  -- is added or dropped, and the mutex is given back.
  pub post_delivers :
      (db : Database) (s : Server db.Store) (a : Atp)
      → s.locked ≡ false
      → post db now n (s, a) ≡ (
        ok tt,
        (
          record s { clients = map (notified now n) s.clients; locked = false },
          record a {
            rqueue = a.rqueue ++ queued now a.tid body (select (λ c. wants c n) s.clients);
            tid = tid_after a.tid (select (λ c. wants c n) s.clients);
          },
        ),
      )
  unfolding post
  post_delivers db s a free = rw (free, post_each_lem s.clients a)
