-- ===== src/Atp/Object/Keeps.antt =====
-- What a subclass keeps true of its own state is kept true by the reception of any datagram.
use blitzmail.Common.{ℕ, Bytes, Bool, true, false, List, [], ◌∷◌, inl, inr}
use blitzmail.Errors.{Result, ok, err, Result-cases}
use blitzmail.Packet.Atp.{Kind, Flag, Packet, req, rsp, rel, other}
use blitzmail.Atp.Queue.{Addr, Elem, release}
use blitzmail.Atp.Object.{
  Atp, Handlers, Reply, answered, released, respond, rel_each, dropped, dispatch, handle, receive,
  receive_req, receive_rsp, receive_rel,
}

module _ {S : Type 0} (h : Handlers S) (P : S → Type 0)
    (req_keeps : (now : ℕ) (flags : List Flag) (seq tid : ℕ) (udata pdata : Bytes) (sndr : Addr)
        (o : S × Atp)
      → P o.0
      → P (h.do_req now flags seq tid udata pdata sndr o).1.0)
    (rsp_keeps : (now : ℕ) (e : Elem) (s : S) → P s → P (h.do_rsp now e s).1)
    (rel_keeps : (now : ℕ) (e : Elem) (s : S) → P s → P (h.do_rel now e s).1) where
  answered_keeps :
      (now : ℕ) (p : Packet) (sndr : Addr) (r : Result Reply × (S × Atp))
      → P r.1.0
      → P (answered h now p sndr r).1.0
  unfolding answered
  answered_keeps now p sndr (ok r, (s, a)) k = k
  answered_keeps now p sndr (err e, o) k = k

  released_keeps : (e : Elem) (a : Atp) (r : Result Bool × S) → P r.1 → P (released h e a r).1.0
  unfolding released
  released_keeps e a (ok true, s) k = k
  released_keeps e a (ok false, s) k = k
  released_keeps e a (err x, s) k = k

  respond_keeps :
      (now tid : ℕ) (dead : List Elem) (o : S × Atp) → P o.0 → P (respond h now tid dead o).1.0
  unfolding respond
  respond_keeps now tid [] o k = k
  respond_keeps now tid (e ∷ dead) (s, a) k =
      released_keeps (release now e) _ (h.do_rsp now e s) (rsp_keeps now e s k)

  rel_each_keeps : (now : ℕ) (es : List Elem) (s : S) → P s → P (rel_each h now es s).1
  unfolding rel_each
  rel_each_keeps now [] s k = k
  rel_each_keeps now (e ∷ es) s k = elim (Result-cases (h.do_rel now e s).0) [
    | inl (u, made) ↦ rw (made, rel_each) (rel_each_keeps now es _ (rel_keeps now e s k))
    | inr (x, made) ↦ rw (made, rel_each) (rel_keeps now e s k)
  ]

  dropped_keeps :
      (tid : ℕ) (a : Atp) (r : Result (Unit {0}) × S) → P r.1 → P (dropped h tid a r).1.0
  unfolding dropped
  dropped_keeps tid a (ok u, s) k = k
  dropped_keeps tid a (err x, s) k = k

  dispatch_keeps :
      (now : ℕ) (k : Kind) (p : Packet) (sndr : Addr) (o : S × Atp)
      → P o.0
      → P (dispatch h now k p sndr o).1.0
  unfolding dispatch receive_req receive_rsp receive_rel
  dispatch_keeps now req p sndr o k =
      answered_keeps now p sndr _ (req_keeps now p.flags p.seq p.tid p.udata _ sndr o k)
  dispatch_keeps now rsp p sndr (s, a) k = respond_keeps now p.tid _ (s, a) k
  dispatch_keeps now rel p sndr (s, a) k = dropped_keeps p.tid a _ (rel_each_keeps now _ s k)
  dispatch_keeps now (other n) p sndr o k = k

  handle_keeps :
      (now : ℕ) (r : Result Packet) (sndr : Addr) (o : S × Atp)
      → P o.0
      → P (handle h now r sndr o).1.0
  unfolding handle
  handle_keeps now (ok p) sndr o k = dispatch_keeps now p.kind p sndr o k
  handle_keeps now (err e) sndr o k = k

  -- A predicate of the subclass's state that its handlers keep holds after any datagram.
  pub receive_keeps :
      (now : ℕ) (datagram : Bytes) (sndr : Addr) (o : S × Atp)
      → P o.0
      → P (receive h now datagram sndr o).1.0
  unfolding receive
  receive_keeps now datagram sndr o k = handle_keeps now _ sndr o k
