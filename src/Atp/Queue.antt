-- ===== src/Atp/Queue.antt =====
-- QElem and its subclasses: a packet in a queue, when it was made and last sent, and to whom it goes.
-- Times are readings of one clock, in whole ticks.
use blitzmail.Common.{ℕ, ◌+◌, Bytes, codes, Bool, List, [], ◌∷◌, ℤ, Option, none, some, ltb}
use blitzmail.Errors.{Result, ok, ◌>>=◌}
use blitzmail.Packet.Service.{Key}
use blitzmail.Packet.Notice.{make_notify_req}
use blitzmail.Packet.Register.{Who, make_register_req}
use blitzmail.Packet.Clear.{make_clear_req}
use blitzmail.Packet.Atp.{Packet, req, rsp, rel, xo, make_atp_packet}

-- an IP address and a port
abbrev pub Addr : Type 0
Addr = Bytes × ℤ

pub record Elem : Type 0 where
  pub orig : ℕ
  pub time : ℕ
  pub tid : ℕ
  pub content : Packet
  pub addr : Addr

-- QElem.__init__
unfoldable pub elem : ℕ → ℕ → Packet → Addr → Elem
elem now tid content addr = record {
  orig = now;
  time = 1;
  tid = tid;
  content = content;
  addr = addr;
}

unfoldable pub touch : ℕ → Elem → Elem
touch now e = record e { time = now }

-- `clk - ival > self._time`
unfoldable pub is_due : ℕ → ℕ → Elem → Bool
is_due clk ival e = ltb (e.time + ival) clk

-- `self.age() > maxage`
unfoldable pub is_older : ℕ → ℕ → Elem → Bool
is_older now maxage e = ltb (e.orig + maxage) now

-- what QElem.send hands to the socket
unfoldable pub send : Elem → Result (Bytes × Addr)
send e = do pkt ← make_atp_packet e.content; ok (pkt, e.addr)

-- The subclasses of Request, with the arguments that _addreq passes on.
pub data Request : Type 0 where
  register : Who → List Key → ℤ → Addr → Request
  clear : ℤ → Key → Addr → Request
  reset : Addr → Request
  notify : ℤ → Key → ℤ → Option Bytes → Addr → Request

-- the data of a request
unfoldable pub request_packet : ℕ → Bytes → Option Bytes → Packet
request_packet tid udata pdata = record {
  kind = req;
  flags = xo ∷ [];
  seq = 1;
  tid = tid;
  udata = udata;
  pdata = pdata;
}

unfoldable pub request : ℕ → ℕ → Request → Result Elem
unfolding elem request_packet
request now tid (register who svcs port addr) = do
  body ← make_register_req svcs who port
  ok (elem now tid (request_packet tid (codes "NR02") (some body)) addr)
request now tid (clear who svc addr) = do
  body ← make_clear_req svc who
  ok (elem now tid (request_packet tid (codes "CLEN") (some body)) addr)
request now tid (reset addr) =
    ok (elem now tid (request_packet tid (0 ∷ 0 ∷ 0 ∷ 0 ∷ []) (some (0 ∷ 0 ∷ 0 ∷ 1 ∷ []))) addr)
request now tid (notify who svc msgid body addr) = do
  data' ← make_notify_req svc who msgid body
  ok (elem now tid (request_packet tid (codes "NOTI") (some data')) addr)

-- a response to the packet that was received, with its own data
unfoldable pub response : ℕ → Packet → Option Bytes → Addr → Elem
unfolding elem
response now p pdata addr = elem now p.tid (record p { kind = rsp; pdata = pdata }) addr

-- a release of the transaction of a queued packet
unfoldable pub release : ℕ → Elem → Elem
unfolding elem
release now e = elem now e.content.tid (record e.content { kind = rel; pdata = none }) e.addr
