-- ===== src/Atp/Object/Received.antt =====
-- Whatever arrives, what the receiver queues can be sent.
use blitzmail.Common.{
  ℕ, ◌≡◌, refl, sym, subst, Bytes, AreBytes, Bool, true, false, List, [], ◌∷◌, All, All-append,
  All-select, All-take, take, none, some,
}
use blitzmail.Errors.{Result, ok, err}
use blitzmail.Packet.Atp.{Packet, Kind, req, rsp, rel, other, Flag, parse_atp_packet}
use blitzmail.Packet.Atp.RoundTrip.{IsFit, IsKnown, parse_atp_packet-IsFit}
use blitzmail.Atp.Queue.{Addr, Elem, release}
use blitzmail.Atp.Object.{
  Atp, Handlers, Reply, drop, accept, text, without, of_tid, enqueue, answer, receive, answered,
  released, respond, dropped, dispatch, handle,
}
use blitzmail.Atp.Object.Pass.{datagram}
use blitzmail.Atp.Object.Sendable.{IsQueued, IsReady, release-IsQueued, response-IsQueued}

enqueue-IsReady : (e : Elem) (a : Atp) → IsQueued e → IsReady a → IsReady (enqueue e a)
unfolding enqueue
enqueue-IsReady e a q h = record {
  tid = h.tid;
  pending = All-append IsQueued a.rqueue _ h.pending (q, tt);
  releases = h.releases;
}

answer-IsReady :
    (now : ℕ) (p : Packet) (sndr : Addr) (r : Reply) (a : Atp)
    → IsFit p
    → IsReady a
    → IsReady (answer now p sndr r a)
unfolding answer
answer-IsReady now p sndr drop a f h = h
answer-IsReady now p sndr accept a f h = enqueue-IsReady _ a (response-IsQueued now p none sndr f) h
answer-IsReady now p sndr (text []) a f h = h
answer-IsReady now p sndr (text (c ∷ s)) a f h =
    enqueue-IsReady _ a (response-IsQueued now p (some (c ∷ s)) sndr f) h

module _ {S : Type 0} (h : Handlers S)
    (keeps : (now : ℕ) (flags : List Flag) (seq tid : ℕ) (udata pdata : Bytes) (sndr : Addr)
        (o : S × Atp)
      → IsReady o.1
      → IsReady (h.do_req now flags seq tid udata pdata sndr o).1.1) where
  answered-IsReady :
      (now : ℕ) (p : Packet) (sndr : Addr) (r : Result Reply × (S × Atp))
      → IsFit p
      → IsReady r.1.1
      → IsReady (answered h now p sndr r).1.1
  unfolding answered
  answered-IsReady now p sndr (ok r, (s, a)) f ready = answer-IsReady now p sndr r a f ready
  answered-IsReady now p sndr (err e, o) f ready = ready

  released-IsReady :
      (e : Elem) (a : Atp) (r : Result Bool × S)
      → IsQueued e
      → IsReady a
      → IsReady (released h e a r).1.1
  unfolding released
  released-IsReady e a (ok true, s) q ready = record {
    tid = ready.tid;
    pending = ready.pending;
    releases = All-append IsQueued a.lqueue _ ready.releases (q, tt);
  }
  released-IsReady e a (ok false, s) q ready = ready
  released-IsReady e a (err x, s) q ready = ready

  without-IsReady :
      (tid : ℕ) (a : Atp) → IsReady a → IsReady (record a { rqueue = without tid a.rqueue })
  unfolding without
  without-IsReady tid a ready = record {
    tid = ready.tid;
    pending = All-select IsQueued _ a.rqueue ready.pending;
    releases = ready.releases;
  }

  respond-IsReady :
      (now tid : ℕ) (dead : List Elem) (o : S × Atp)
      → All IsQueued dead
      → IsReady o.1
      → IsReady (respond h now tid dead o).1.1
  unfolding respond
  respond-IsReady now tid [] o d ready = ready
  respond-IsReady now tid (e ∷ dead) (s, a) d ready =
      released-IsReady (release now e) _ (h.do_rsp now e s) (release-IsQueued now e d.0)
        (without-IsReady tid a ready)

  dropped-IsReady :
      (tid : ℕ) (a : Atp) (r : Result (Unit {0}) × S) → IsReady a → IsReady (dropped h tid a r).1.1
  unfolding dropped
  dropped-IsReady tid a (ok u, s) ready = without-IsReady tid a ready
  dropped-IsReady tid a (err x, s) ready = ready

  dispatch-IsReady :
      (now : ℕ) (k : Kind) (p : Packet) (sndr : Addr) (o : S × Atp)
      → (k ≡ req → IsFit p)
      → IsReady o.1
      → IsReady (dispatch h now k p sndr o).1.1
  unfolding dispatch
  dispatch-IsReady now req p sndr o f ready =
      answered-IsReady now p sndr _ (f refl) (keeps now p.flags p.seq p.tid p.udata _ sndr o ready)
  dispatch-IsReady now rsp p sndr (s, a) f ready =
      respond-IsReady now p.tid _ (s, a) (All-select IsQueued (of_tid p.tid) a.rqueue ready.pending)
        ready
  dispatch-IsReady now rel p sndr (s, a) f ready = dropped-IsReady p.tid a _ ready
  dispatch-IsReady now (other k) p sndr o f ready = ready

  handle-IsReady :
      (now : ℕ) (pkt : Bytes) (sndr : Addr) (o : S × Atp) (r : Result Packet)
      → AreBytes pkt
      → parse_atp_packet pkt ≡ r
      → IsReady o.1
      → IsReady (handle h now r sndr o).1.1
  unfolding handle
  handle-IsReady now pkt sndr o (ok p) bytes e ready =
      dispatch-IsReady now p.kind p sndr o
        (λ k. parse_atp_packet-IsFit pkt p bytes (subst IsKnown (sym k) tt) e) ready
  handle-IsReady now pkt sndr o (err x) bytes e ready = ready

  -- Whatever bytes arrive as a datagram, the queues stay ready (each packet in them can be made), if
  -- the subclass's do_req keeps them so.
  pub receive-IsReady :
      (now : ℕ) (datagram : Bytes) (sndr : Addr) (o : S × Atp)
      → AreBytes datagram
      → IsReady o.1
      → IsReady (receive h now datagram sndr o).1.1
  unfolding receive
  receive-IsReady now datagram sndr o bytes ready =
      handle-IsReady now (take 256 datagram) sndr o _ (All-take _ 256 datagram bytes) refl ready
