-- ===== src/Atp/Object/Sendable.antt =====
-- Every queued packet can be made: an invariant of all that changes the queues, so that the writer
-- never ends by an exception of make_atp_packet.
use blitzmail.Common.{
  ℕ, ◌<◌, ◌^◌, ◌≡◌, refl, subst, arith, Bytes, codes, List, [], ◌∷◌, All, All-append, All-select,
  All-map, Option, some, Bool-cases, inl, inr, length,
}
use blitzmail.Errors.{Result, ok, err, ◌>>=◌, >>=-eq-ok, ok-injective}
use blitzmail.Packet.Atp.{Packet}
use blitzmail.Packet.Atp.RoundTrip.{IsFit, make_atp_packet-eq-ok}
use blitzmail.Packet.Register.{make_register_req}
use blitzmail.Packet.Clear.{make_clear_req}
use blitzmail.Packet.Notice.{make_notify_req}
use blitzmail.Atp.Queue.{
  Addr, Elem, Request, register, clear, reset, notify, elem, touch, is_due, request_packet, request,
  response, release,
}
use blitzmail.Atp.Object.{Atp, Sent, interval, new_atp, next_tid, addreq, pass}
use blitzmail.Atp.Object.Pass.{IsSendable, pass_lem, stays, refreshed}

-- a queued packet under its own transaction, with fields that fit
pub record IsQueued (e : Elem) : Type 0 where
  pub fit : IsFit e.content
  pub tid : e.tid ≡ e.content.tid

pub record IsReady (a : Atp) : Type 0 where
  pub tid : a.tid < 2 ^ 16
  pub pending : All IsQueued a.rqueue
  pub releases : All IsQueued a.lqueue

pub IsQueued-IsSendable : (e : Elem) → IsQueued e → IsSendable e
IsQueued-IsSendable e q = make_atp_packet-eq-ok e.content q.fit

all-IsSendable : (q : List Elem) → All IsQueued q → All IsSendable q
all-IsSendable [] h = tt
all-IsSendable (e ∷ q) h = (IsQueued-IsSendable e h.0, all-IsSendable q h.1)

pub IsReady-new_atp : (tid : ℕ) → tid < 2 ^ 16 → IsReady (new_atp tid)
unfolding new_atp
IsReady-new_atp tid h = record { tid = h; pending = tt; releases = tt }

request_elem-IsQueued :
    (now tid : ℕ) (udata : Bytes) (pdata : Option Bytes) (addr : Addr)
    → tid < 2 ^ 16
    → length udata ≡ 4
    → IsQueued (elem now tid (request_packet tid udata pdata) addr)
unfolding elem request_packet
request_elem-IsQueued now tid udata pdata addr h four = record {
  fit = record { kind = tt; flags = (tt, tt); seq = omega arith; tid = h; udata = four };
  tid = refl;
}

-- a request whose data could be made
from_body :
    (now tid : ℕ) (udata : Bytes) (addr : Addr) (m : Result Bytes) (e : Elem)
    → tid < 2 ^ 16
    → length udata ≡ 4
    → (m >>= λ body. ok (elem now tid (request_packet tid udata (some body)) addr)) ≡ ok e
    → IsQueued e
from_body now tid udata addr (ok body) e h four eq =
    subst IsQueued (ok-injective eq) (request_elem-IsQueued now tid udata (some body) addr h four)
from_body now tid udata addr (err x) e h four eq = cc

pub request-IsQueued :
    (now tid : ℕ) (r : Request) (e : Elem) → tid < 2 ^ 16 → request now tid r ≡ ok e → IsQueued e
unfolding request
request-IsQueued now tid (register who svcs port addr) e h eq =
    from_body now tid (codes "NR02") addr (make_register_req svcs who port) e h refl eq
request-IsQueued now tid (clear who svc addr) e h eq =
    from_body now tid (codes "CLEN") addr (make_clear_req svc who) e h refl eq
request-IsQueued now tid (reset addr) e h eq =
    subst IsQueued (ok-injective eq) (request_elem-IsQueued now tid _ _ addr h refl)
request-IsQueued now tid (notify who svc msgid body addr) e h eq =
    from_body now tid (codes "NOTI") addr (make_notify_req svc who msgid body) e h refl eq

next_tid-lt : (t : ℕ) → next_tid t < 2 ^ 16
unfolding next_tid
next_tid-lt t = omega arith

-- Adding a request keeps the queues ready; one that cannot be made is not added at all.
pub addreq-IsReady :
    (now : ℕ) (r : Request) (a a' : Atp) → IsReady a → addreq now r a ≡ ok a' → IsReady a'
unfolding addreq
addreq-IsReady now r a a' h eq =
    let (e, made, more) = >>=-eq-ok (request now a.tid r) _ eq in
    subst IsReady (ok-injective more) (record {
      tid = next_tid-lt a.tid;
      pending =
          All-append IsQueued a.rqueue _ h.pending (request-IsQueued now a.tid r e h.tid made, tt);
      releases = h.releases;
    })

refreshed-IsQueued : (now maxage : ℕ) (e : Elem) → IsQueued e → IsQueued (refreshed now maxage e)
unfolding touch
refreshed-IsQueued now maxage e h = elim (Bool-cases (is_due now interval e)) [
  | inl due ↦ rw due (record { fit = h.fit; tid = h.tid })
  | inr early ↦ rw early h
]

-- A pass of the writer over ready queues never raises, and leaves them ready.
pub pass-IsReady :
    (now : ℕ) (a : Atp)
    → IsReady a
    → (a' : Atp) × (out : Sent) × (pass now a ≡ ok (a', out)) × IsReady a'
pass-IsReady now a h = (
  _,
  _,
  pass_lem now a (all-IsSendable _ h.pending) (all-IsSendable _ h.releases),
  record {
    tid = h.tid;
    pending =
        All-map IsQueued IsQueued (refreshed now a.maxage) (refreshed-IsQueued now a.maxage) _
          (All-select IsQueued (stays now a.maxage) _ h.pending);
    releases = tt;
  },
)

pub release-IsQueued : (now : ℕ) (e : Elem) → IsQueued e → IsQueued (release now e)
unfolding release
release-IsQueued now e h = record {
  fit = record {
    kind = tt;
    flags = h.fit.flags;
    seq = h.fit.seq;
    tid = h.fit.tid;
    udata = h.fit.udata;
  };
  tid = refl;
}

pub response-IsQueued :
    (now : ℕ) (p : Packet) (body : Option Bytes) (addr : Addr)
    → IsFit p
    → IsQueued (response now p body addr)
unfolding response
response-IsQueued now p body addr h = record {
  fit = record { kind = tt; flags = h.flags; seq = h.seq; tid = h.tid; udata = h.udata };
  tid = refl;
}
