-- ===== src/Atp/Object/Datagram.antt =====
-- A datagram from the queue of one object to the handler of another.
use blitzmail.Common.{
  ℕ, ◌+◌, ◌≡◌, sym, subst, ap, ◌∙◌, arith, Bytes, [], ◌∷◌, ◌++◌, take, Option, none, some, length,
  take-append,
}
use blitzmail.Errors.{ok, >>=-eq-ok, ok-injective}
use blitzmail.Packet.Struct.{pack_b, pack_h, be16}
use blitzmail.Packet.Notice.{payload}
use blitzmail.Packet.Atp.{Packet, req, make_atp_packet, parse_atp_packet, pack_header}
use blitzmail.Packet.Atp.RoundTrip.{IsFit, table_order, parse-make_atp_packet, four_bytes}
use blitzmail.Atp.Queue.{Addr, Elem, response}
use blitzmail.Atp.Object.{
  Atp, Handlers, accept, receive_req, answered, answer, enqueue, body, receive, dispatch, handle,
}
use blitzmail.Atp.Object.Pass.{datagram, datagram-eq_of_made}
use blitzmail.Atp.Object.Sendable.{IsQueued, IsQueued-IsSendable}

-- the room that a datagram of 256 bytes leaves for data
abbrev pub room : ℕ
room = 247

-- a packet with its data cut to the room
abbrev pub cut : Packet → Packet
cut p = record p { pdata = some (take room (payload p.pdata)) }

cut-IsFit : (p : Packet) → IsFit p → IsFit (cut p)
cut-IsFit p f = record { kind = f.kind; flags = f.flags; seq = f.seq; tid = f.tid; udata = f.udata }

length-pack_header : (p : Packet) (out : Bytes) → IsFit p → pack_header p ≡ ok out → length out ≡ 9
unfolding pack_header pack_b pack_h be16
length-pack_header p out fit e = ground (arith, four_bytes p.udata fit.udata)

-- a header does not depend on the data that follow it
made_of_header :
    (p : Packet) (body : Option Bytes) (out : Bytes)
    → IsFit p
    → pack_header p ≡ ok out
    → make_atp_packet (record p { pdata = body }) ≡ ok (out ++ payload body)
unfolding make_atp_packet pack_header
made_of_header p body out fit e = rw (fit.udata, e)

header_of_made :
    (p : Packet) (pkt : Bytes)
    → IsFit p
    → make_atp_packet p ≡ ok pkt
    → (out : Bytes) × (pack_header p ≡ ok out) × (pkt ≡ out ++ payload p.pdata)
unfolding make_atp_packet
header_of_made p pkt fit e =
    let (out, h, more) = >>=-eq-ok (pack_header p) _ (rw fit.udata at e) in
    (out, h, sym (ok-injective more))

abbrev Cuts : Bytes → Packet → ℕ → Type 0
Cuts out p n = take n (out ++ payload p.pdata) ≡ out ++ take room (payload p.pdata)

make-cut :
    (p : Packet) (pkt : Bytes)
    → IsFit p
    → make_atp_packet p ≡ ok pkt
    → make_atp_packet (cut p) ≡ ok (take 256 pkt)
make-cut p pkt fit e =
    let (out, h, same) = header_of_made p pkt fit e in
    let size : 256 ≡ length out + room = omega (arith, length-pack_header p out fit h) in
    made_of_header p _ out fit h
    ∙ ap ok (
        sym (
          ap (take 256) same
          ∙ subst (Cuts out p) (sym size) (take-append out (payload p.pdata) room)))

-- what arrives of a packet: its flags in the order of the dictionary, and of its data what fits
abbrev pub arrived : Packet → Packet
arrived p = record p { flags = table_order p.flags; pdata = some (take room (payload p.pdata)) }

-- The receiver's buffer of 256 bytes cuts a datagram off: a queued packet is dispatched as it was
-- sent, but for the data from the 248th byte on, which are lost without an error.
pub receive-datagram :
    {S : Type 0} (h : Handlers S) (now : ℕ) (e : Elem) (sndr : Addr) (o : S × Atp)
    → IsQueued e
    → receive h now (datagram e).0 sndr o ≡ dispatch h now e.content.kind (arrived e.content) sndr o
unfolding receive handle
receive-datagram h now e sndr o q =
    let (pkt, m) = IsQueued-IsSendable e q in
    let read : parse_atp_packet (take 256 pkt) ≡ ok (arrived e.content) = cc (
      make-cut e.content pkt q.fit m,
      parse-make_atp_packet (cut e.content) (cut-IsFit e.content q.fit),
    ) in
    rw (datagram-eq_of_made e pkt m, read)

-- A request that arrives and is accepted is answered by a response without data.
pub receive-request :
    {S : Type 0} (h : Handlers S) (now : ℕ) (e : Elem) (sndr : Addr) (o : S × Atp) (s : S) (a : Atp)
    → IsQueued e
    → e.content.kind ≡ req
    → h.do_req now
        (table_order e.content.flags)
        e.content.seq
        e.content.tid
        e.content.udata
        (take room (payload e.content.pdata))
        sndr
        o
      ≡ (ok accept, (s, a))
    → receive h now (datagram e).0 sndr o ≡ (
      ok tt,
      (s, record a { rqueue = a.rqueue ++ response now (arrived e.content) none sndr ∷ [] }),
    )
unfolding dispatch receive_req answered answer enqueue body
receive-request h now e sndr o s a q k done = receive-datagram h now e sndr o q ∙ rw (k, done)
