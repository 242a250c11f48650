-- ===== src/Subscriber/Arrive.antt =====
-- How a notification comes to the client's queue and leaves it.
use blitzmail.Common.{
  ℕ, zero, suc, ◌+◌, ◌<◌, ◌≤◌, ◌^◌, ◌≡◌, refl, sym, ap, ap₂, ◌∙◌, arith, Bytes, codes, true, false,
  List, [], ◌∷◌, ◌++◌, map, length, take, ltb, Option, none, some, pos,
}
use blitzmail.Errors.{Result, ok, err, ok-injective, >>=-eq-ok, ◌>>=◌, blocked, value_error}
use blitzmail.Packet.Struct.{be32, pack_i}
use blitzmail.Packet.Service.{code, resolve, pack_key}
use blitzmail.Packet.Notice
use blitzmail.Packet.Notice.{payload, make_notify_req, parse_notify_req, parse-make_notify_req}
use blitzmail.Packet.Atp.{Flag}
use blitzmail.Atp.Queue.{Addr, Elem, elem, request_packet, request, notify, response}
use blitzmail.Atp.Object.{Atp, receive}
use blitzmail.Atp.Object.Pass.{datagram}
use blitzmail.Atp.Object.Sendable.{request-IsQueued}
use blitzmail.Atp.Object.Datagram.{room, arrived, receive-request}
use blitzmail.Subscriber.{Client, noticed, do_req, client_handlers, next}

take-all : {A : Type 0} (n : ℕ) (xs : List A) → length xs ≤ n → take n xs ≡ xs
take-all zero [] h = refl
take-all zero (x ∷ xs) h = ground arith
take-all (suc n) [] h = refl
take-all (suc n) (x ∷ xs) h = ap (λ t. x ∷ t) (take-all n xs (omega (arith, h)))

length-make_notify_req :
    (svc uid mid : ℕ) (body : Option Bytes) (d : Bytes)
    → make_notify_req (code (pos svc)) (pos uid) (pos mid) body ≡ ok d
    → length d ≡ 12 + length (payload body)
unfolding make_notify_req resolve pack_key pack_i be32
length-make_notify_req svc uid mid body d e = ground arith

module _ (svc uid mid : ℕ) (body : Option Bytes) (small_svc : svc < 2 ^ 32)
    (small_uid : uid < 2 ^ 32) (small_mid : mid < 2 ^ 32) (fits : length (payload body) ≤ 235) where
  parse_made :
      (d : Bytes)
      → make_notify_req (code (pos svc)) (pos uid) (pos mid) body ≡ ok d
      → parse_notify_req (take room d) ≡ ok (pos svc, pos uid, pos mid, payload body)
  unfolding resolve
  parse_made d made =
      rw (take-all room d (omega (arith, length-make_notify_req svc uid mid body d made, fits))) (
        ap (λ r. r >>= parse_notify_req) (sym made)
        ∙ parse-make_notify_req (code (pos svc)) svc uid mid body refl small_svc small_uid
            small_mid)

  -- A notification with at most 235 bytes of data, as the server makes it for a client, is queued by
  -- the client that receives its datagram, with the service, the user, the message and the data that
  -- the server gave it; and a response is queued for the sender.
  pub receive-notify :
      (now sent tid : ℕ) (to sndr : Addr) (e : Elem) (c : Client) (a : Atp)
      → tid < 2 ^ 16
      → request sent tid (notify (pos uid) (code (pos svc)) (pos mid) body to) ≡ ok e
      → c.locked ≡ false
      → receive client_handlers now (datagram e).0 sndr (c, a) ≡ (
        ok tt,
        (
          record c { nqueue = c.nqueue ++ (pos svc, pos uid, pos mid, payload body) ∷ [] },
          record a { rqueue = a.rqueue ++ response now (arrived e.content) none sndr ∷ [] },
        ),
      )
  unfolding request client_handlers do_req noticed elem request_packet
  receive-notify now sent tid to sndr e c a small made free =
      let (d, body_made, more) =
        >>=-eq-ok (make_notify_req (code (pos svc)) (pos uid) (pos mid) body) _ made in
      let q =
        request-IsQueued sent tid (notify (pos uid) (code (pos svc)) (pos mid) body to) e small
          made in
      let same = sym (ok-injective more) in
      receive-request client_handlers now e sndr (c, a) _ a q (ap (λ x. x.content.kind) same)
        (rw (same, free, parse_made d body_made))

-- what is returned by some calls of `next`, and the client after them
pub nexts : ℕ → Client → List (Result (Option Notice.Fields)) × Client
nexts zero c = ([], c)
nexts (suc k) c = let (rest, c') = nexts k (next c).1 in ((next c).0 ∷ rest, c')

holding : List Notice.Fields → Client → Client
holding q c = record c { nqueue = q; locked = false }

next-holding :
    (n : Notice.Fields) (q : List Notice.Fields) (c : Client)
    → next (holding (n ∷ q) c) ≡ (ok (some n), holding q c)
unfolding next holding
next-holding n q c = refl

nexts-holding :
    (q r : List Notice.Fields) (c : Client)
    → nexts (length q) (holding (q ++ r) c) ≡ (map (λ n. ok (some n)) q, holding r c)
unfolding nexts
nexts-holding [] r c = refl
nexts-holding (n ∷ q) r c = rw (next-holding n (q ++ r) c, nexts-holding q r c)

holding_lem :
    (q : List Notice.Fields) (c : Client) → c.locked ≡ false → c.nqueue ≡ q → c ≡ holding q c
unfolding holding
holding_lem q c free e = ap₂ (λ q b. record c { nqueue = q; locked = b }) e free

-- Notifications are given out in the order in which they came, each once: with `q` at the front of
-- the queue, as many calls of `next` as `q` is long return its notifications, and leave what is behind.
pub nexts-nqueue :
    (q r : List Notice.Fields) (c : Client)
    → c.locked ≡ false
    → c.nqueue ≡ q ++ r
    → nexts (length q) c ≡ (map (λ n. ok (some n)) q, record c { nqueue = r; locked = false })
unfolding holding
nexts-nqueue q r c free e =
    ap (nexts (length q)) (holding_lem (q ++ r) c free e) ∙ nexts-holding q r c

-- A request NOTI whose data are too short raises ValueError while the mutex of the queue is held:
-- the program waits for ever when it next asks for a notification.
pub do_req_truncated :
    (now : ℕ) (flags : List Flag) (seq tid : ℕ) (pdata : Bytes) (sndr : Addr) (c : Client) (a : Atp)
    → length pdata < 12
    → c.locked ≡ false
    → ((do_req now flags seq tid (codes "NOTI") pdata sndr (c, a)).0 ≡ err value_error)
      × (next (do_req now flags seq tid (codes "NOTI") pdata sndr (c, a)).1.0
          ≡ (err blocked, (do_req now flags seq tid (codes "NOTI") pdata sndr (c, a)).1.0))
unfolding do_req noticed next parse_notify_req
do_req_truncated now flags seq tid pdata sndr c a short free =
    let low : ltb (length pdata) 12 ≡ true = ground arith in (rw (free, low), rw (free, low))
