-- ===== src/Atp/Object.antt =====
-- ATPObject: the queues, the pass of the writer thread and the step of the reader thread. Each is
-- taken whole, as the mutex of the queues makes it; what a socket sends is returned in order.
pub mod Pass
pub mod Sendable
pub mod Received
pub mod Keeps
pub mod Datagram
pub mod Exchange
use blitzmail.Common.{
  ℕ, ◌+◌, ◌%◌, min, Bytes, Bool, true, false, List, [], ◌∷◌, ◌++◌, ◌==◌, not, select, take, Option,
  none, some, if◌then◌else◌,
}
use blitzmail.Errors.{Error, Result, ok, err, ◌>>=◌}
use blitzmail.Packet.Atp.{Packet, Kind, req, rsp, rel, other, Flag, parse_atp_packet}
use blitzmail.Atp.Queue.{
  Addr, Elem, Request, elem, touch, is_due, is_older, send, request, response, release,
}

pub record Atp : Type 0 where
  pub tid : ℕ
  pub maxage : ℕ
  pub rqueue : List Elem
  pub lqueue : List Elem

-- ATPObject.__init__, with the transaction number that it draws
unfoldable pub new_atp : ℕ → Atp
new_atp tid = record { tid = tid; maxage = 300; rqueue = []; lqueue = [] }

-- `(self.tid + 1) & 0xffff`
unfoldable pub next_tid : ℕ → ℕ
next_tid t = (t + 1) % 65536

unfoldable pub addreq : ℕ → Request → Atp → Result Atp
unfolding next_tid
addreq now r a = do
  e ← request now a.tid r
  ok (record a { rqueue = a.rqueue ++ e ∷ []; tid = next_tid a.tid })

abbrev pub Sent : Type 0
Sent = List (Bytes × Addr)

-- how long a request waits before it is sent again
abbrev pub interval : ℕ
interval = 20

-- The loop over the requests: the ones too old go, the ones due are sent.
pub visit : ℕ → ℕ → List Elem → Result (List Elem × Sent)
visit now maxage [] = ok ([], [])
visit now maxage (e ∷ rest) =
    let later = visit now maxage rest in
    if is_older now maxage e
    then later
    else if is_due now interval e
    then (do pkt ← send e; (kept, out) ← later; ok (touch now e ∷ kept, pkt ∷ out))
    else (do (kept, out) ← later; ok (e ∷ kept, out))

pub send_all : List Elem → Result Sent
send_all [] = ok []
send_all (e ∷ rest) = do pkt ← send e; out ← send_all rest; ok (pkt ∷ out)

-- One pass of the writer. A packet that cannot be made ends its thread.
unfoldable pub pass : ℕ → Atp → Result (Atp × Sent)
pass now a = do
  (kept, out) ← visit now a.maxage a.rqueue
  released ← send_all a.lqueue
  ok (record a { rqueue = kept; lqueue = [] }, out ++ released)

-- when the next retransmission is due, `min(elt.when() for elt in self._rqueue) + 20`
unfoldable pub wake : List Elem → Option ℕ
wake [] = none
wake (e ∷ rest) = elim (wake rest) [
  | none ↦ some (e.time + interval)
  | some t ↦ some (min (e.time + interval) t)
]

-- what a handler of requests answers: false, true, or the text of the response
pub data Reply : Type 0 where
  drop accept : Reply
  text : Bytes → Reply

-- The methods that a subclass overrides. do_rsp and do_rel run under the mutex of the queues, so
-- they have the subclass's state alone.
pub record Handlers (S : Type 0) : Type 0 where
  pub do_req : ℕ → List Flag → ℕ → ℕ → Bytes → Bytes → Addr → S × Atp → Result Reply × (S × Atp)
  pub do_rsp : ℕ → Elem → S → Result Bool × S
  pub do_rel : ℕ → Elem → S → Result (Unit {0}) × S

-- `elt.tid() == tid`
abbrev pub of_tid : ℕ → Elem → Bool
of_tid tid e = e.tid == tid

-- the queue with the pending packets of a transaction taken out
unfoldable pub without : ℕ → List Elem → List Elem
without tid = select (λ e. not (of_tid tid e))

enqueue : Elem → Atp → Atp
enqueue e a = record a { rqueue = a.rqueue ++ e ∷ [] }

-- `if rdata:`, where an empty text is false
answer : ℕ → Packet → Addr → Reply → Atp → Atp
unfolding enqueue
answer now p sndr drop a = a
answer now p sndr accept a = enqueue (response now p none sndr) a
answer now p sndr (text []) a = a
answer now p sndr (text (c ∷ s)) a = enqueue (response now p (some (c ∷ s)) sndr) a

module _ {S : Type 0} (h : Handlers S) where
  answered : ℕ → Packet → Addr → Result Reply × (S × Atp) → Result (Unit {0}) × (S × Atp)
  unfolding answer
  answered now p sndr (ok r, (s, a)) = (ok tt, (s, answer now p sndr r a))
  answered now p sndr (err e, o) = (err e, o)

  body : Option Bytes → Bytes
  body none = []
  body (some d) = d

  receive_req : ℕ → Packet → Addr → S × Atp → Result (Unit {0}) × (S × Atp)
  unfolding answered body
  receive_req now p sndr o =
      answered now p sndr (h.do_req now p.flags p.seq p.tid p.udata (body p.pdata) sndr o)

  released : Elem → Atp → Result Bool × S → Result (Unit {0}) × (S × Atp)
  released e a (ok true, s) = (ok tt, (s, record a { lqueue = a.lqueue ++ e ∷ [] }))
  released e a (ok false, s) = (ok tt, (s, a))
  released e a (err x, s) = (err x, (s, a))

  -- `dead` are the pending packets of the transaction
  respond : ℕ → ℕ → List Elem → S × Atp → Result (Unit {0}) × (S × Atp)
  unfolding released
  respond now tid [] o = (ok tt, o)
  respond now tid (tobj ∷ dead) (s, a) =
      released (release now tobj) (record a { rqueue = without tid a.rqueue }) (h.do_rsp now tobj s)

  receive_rsp : ℕ → Packet → S × Atp → Result (Unit {0}) × (S × Atp)
  unfolding respond
  receive_rsp now p (s, a) = respond now p.tid (select (of_tid p.tid) a.rqueue) (s, a)

  -- `self.do_rel(elt)` on each in turn, until one raises
  rel_each : ℕ → List Elem → S → Result (Unit {0}) × S
  rel_each now [] s = (ok tt, s)
  rel_each now (e ∷ rest) s =
      let (r, s') = h.do_rel now e s in elim r [ ok _ ↦ rel_each now rest s' | err x ↦ (err x, s') ]

  dropped : ℕ → Atp → Result (Unit {0}) × S → Result (Unit {0}) × (S × Atp)
  dropped tid a (ok _, s) = (ok tt, (s, record a { rqueue = without tid a.rqueue }))
  dropped tid a (err x, s) = (err x, (s, a))

  receive_rel : ℕ → Packet → S × Atp → Result (Unit {0}) × (S × Atp)
  unfolding rel_each dropped
  receive_rel now p (s, a) = dropped p.tid a (rel_each now (select (of_tid p.tid) a.rqueue) s)

  pub dispatch : ℕ → Kind → Packet → Addr → S × Atp → Result (Unit {0}) × (S × Atp)
  unfolding receive_req receive_rsp receive_rel
  dispatch now req p sndr o = receive_req now p sndr o
  dispatch now rsp p sndr o = receive_rsp now p o
  dispatch now rel p sndr o = receive_rel now p o
  dispatch now (other k) p sndr o = (ok tt, o)

  handle : ℕ → Result Packet → Addr → S × Atp → Result (Unit {0}) × (S × Atp)
  unfolding dispatch
  handle now (ok p) sndr o = dispatch now p.kind p sndr o
  handle now (err e) sndr o = (err e, o)

  -- One datagram, as `recvfrom(256)` returns it. An exception ends the reader thread; so does an
  -- empty datagram, which is not handled here.
  unfoldable pub receive : ℕ → Bytes → Addr → S × Atp → Result (Unit {0}) × (S × Atp)
  unfolding handle
  receive now datagram sndr o = handle now (parse_atp_packet (take 256 datagram)) sndr o

-- ATPObject's own do_req, do_rsp and do_rel
unfoldable pub default_handlers : Handlers (Unit {0})
default_handlers = record {
  do_req = λ now flags seq tid udata pdata sndr o. (ok accept, o);
  do_rsp = λ now e s. (ok true, s);
  do_rel = λ now e s. (ok tt, s);
}
