-- ===== src/Atp/Object/Pass.antt =====
-- What a pass of the writer does, in one equation, where every queued packet can be made.
use blitzmail.Common.{
  ℕ, ◌≡◌, refl, arith, Bytes, Bool, not, List, [], ◌∷◌, ◌++◌, map, select, All, All-select, All-map,
  ◌∙◌, if◌then◌else◌, Bool-cases, inl, inr,
}
use blitzmail.Errors.{Result, ok, err}
use blitzmail.Packet.Atp.{make_atp_packet}
use blitzmail.Atp.Queue.{Addr, Elem, touch, is_due, is_older, send}
use blitzmail.Atp.Object.{Atp, Sent, interval, visit, send_all, pass}

-- a packet that make_atp_packet can make
abbrev pub IsSendable : Elem → Type 0
IsSendable e = (pkt : Bytes) × (make_atp_packet e.content ≡ ok pkt)

module _ (now maxage : ℕ) where
  -- young enough to stay in the queue
  abbrev pub stays : Elem → Bool
  stays e = not (is_older now maxage e)

  -- marked with the time of the pass if it was sent
  abbrev pub refreshed : Elem → Elem
  refreshed e = if is_due now interval e then touch now e else e

-- the datagram of a packet that can be made
made : Result (Bytes × Addr) → Addr → Bytes × Addr
made (ok b) a = b
made (err e) a = ([], a)

pub datagram : Elem → Bytes × Addr
unfolding made
datagram e = made (send e) e.addr

send-datagram : (e : Elem) → IsSendable e → send e ≡ ok (datagram e)
unfolding datagram send
send-datagram e (b, h) = rw (h, send)

pub datagram-eq_of_made :
    (e : Elem) (pkt : Bytes) → make_atp_packet e.content ≡ ok pkt → datagram e ≡ (pkt, e.addr)
unfolding datagram send
datagram-eq_of_made e pkt h = rw (h, send)

send_all-datagram : (q : List Elem) → All IsSendable q → send_all q ≡ ok (map datagram q)
unfolding send_all
send_all-datagram [] h = refl
send_all-datagram (e ∷ q) h = rw (send-datagram e h.0, send_all-datagram q h.1)

visit_lem :
    (now maxage : ℕ) (q : List Elem)
    → All IsSendable q
    → visit now maxage q
      ≡ ok (
        map (refreshed now maxage) (select (stays now maxage) q),
        map datagram (select (is_due now interval) (select (stays now maxage) q)),
      )
unfolding visit select
visit_lem now maxage [] h = refl
visit_lem now maxage (e ∷ q) h = ground (arith, visit_lem now maxage q h.1, send-datagram e h.0)

-- A pass of the writer, where every queued packet can be made: the packets older than the limit are
-- dropped, of the others those that are due are sent in the order of the queue and marked with the
-- time, and then the releases are sent and dropped.
pub pass_lem :
    (now : ℕ) (a : Atp)
    → All IsSendable a.rqueue
    → All IsSendable a.lqueue
    → pass now a
      ≡ ok (
        record a {
          rqueue = map (refreshed now a.maxage) (select (stays now a.maxage) a.rqueue);
          lqueue = [];
        },
        map datagram (select (is_due now interval) (select (stays now a.maxage) a.rqueue))
            ++ map datagram a.lqueue,
      )
unfolding pass
pass_lem now a hr hl = rw (visit_lem now a.maxage a.rqueue hr, send_all-datagram a.lqueue hl)

module _ (now maxage : ℕ) where
  -- the queue that a pass leaves
  abbrev left : List Elem → List Elem
  left q = map (refreshed now maxage) (select (stays now maxage) q)

  left-left : (q : List Elem) → left (left q) ≡ left q
  unfolding select is_due is_older touch
  left-left [] = refl
  left-left (e ∷ q) = ground (arith, left-left q)

  due-left :
      (q : List Elem) → select (is_due now interval) (select (stays now maxage) (left q)) ≡ []
  unfolding select is_due is_older touch
  due-left [] = refl
  due-left (e ∷ q) = ground (arith, due-left q)

  refreshed-IsSendable : (e : Elem) → IsSendable e → IsSendable (refreshed now maxage e)
  unfolding touch
  refreshed-IsSendable e h = elim (Bool-cases (is_due now interval e)) [
    | inl due ↦ rw due h
    | inr early ↦ rw early h
  ]

  left-All : (q : List Elem) → All IsSendable q → All IsSendable (left q)
  left-All q h =
      All-map IsSendable IsSendable (refreshed now maxage) refreshed-IsSendable _
        (All-select IsSendable (stays now maxage) q h)

-- Where every queued packet can be made, a second pass at the same time sends nothing and changes
-- nothing.
pub pass_again :
    (now : ℕ) (a a' : Atp) (out : Sent)
    → All IsSendable a.rqueue
    → All IsSendable a.lqueue
    → pass now a ≡ ok (a', out)
    → pass now a' ≡ ok (a', [])
pass_again now a a' out hr hl e =
    let q = left now a.maxage a.rqueue in
    let b : Atp = record a { rqueue = q; lqueue = [] } in
    let same : a' ≡ b = cc (pass_lem now a hr hl) in
    let again : pass now b ≡ ok (b, []) =
      pass_lem now b (left-All now a.maxage a.rqueue hr) tt
      ∙ rw (left-left now a.maxage a.rqueue, due-left now a.maxage a.rqueue) in
    rw same again
