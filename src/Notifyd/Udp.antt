-- ===== src/Notifyd/Udp.antt =====
-- class NotifyUDPServer: the table of clients, and what the server does on each packet and notice.
-- `locked` is true while the mutex of the table is held. The methods run one at a time, so a method
-- that finds it held was preceded by one that raised before giving it back, and waits for ever.
-- The one attribute `_maxage` is both the age limit of clients here and, in ATPObject, that of queued
-- packets: it is the field `maxage` of the ATP object.
pub mod Table
pub mod Lock
pub mod Distinct
pub mod Delivery
pub mod Ready
pub mod Run
pub mod Held
use blitzmail.Common.{
  ℕ, Bytes, Bool, true, false, not, ◌&&◌, List, [], ◌∷◌, ◌++◌, select, Option, none, some, ℤ, pos,
  eq_ℤ, eq_bytes, codes, drop, ltb, if◌then◌else◌,
}
use blitzmail.Common.Decimal.{int}
use blitzmail.Errors.{Result, ok, err, blocked, value_error}
use blitzmail.Packet.Service.{code}
use blitzmail.Packet.Register
use blitzmail.Packet.Register.{parse_register_req}
use blitzmail.Packet.Clear.{parse_clear_req}
use blitzmail.Packet.Atp.{Flag}
use blitzmail.Atp.Queue.{Addr, Elem, notify, reset}
use blitzmail.Atp.Object.{Atp, new_atp, addreq, Handlers, Reply, drop as ignore, accept}
use blitzmail.Notifyd.Db.{Notice, Database, notices, cleartype}
use blitzmail.Notifyd.Client.{Client, client, addr, sendmark, recvmark, age, same_client, wants}

pub record Server (Store : Type 0) : Type 0 where
  pub db : Store
  pub clients : List Client
  pub locked : Bool

-- the lock after a method that gives it back only where nothing was raised
abbrev pub still_held {ℓ} : {A : Type ℓ} → Result A → Bool
still_held (ok a) = false
still_held (err e) = true

-- `self._addreq(Notify, …)` for a notice and a client
unfoldable pub offer : ℕ → Client → Notice → Atp → Result Atp
unfolding addr
offer now c n a = addreq now (notify n.uid (code n.type) n.msgid n.content (addr c)) a

-- send_sticky: the notices that the client wants are queued for it, until one cannot be made.
unfoldable pub send_sticky : ℕ → Client → List Notice → Atp → Result (Unit {0}) × Client × Atp
send_sticky now c [] a = (ok tt, c, a)
send_sticky now c (n ∷ ns) a =
    if wants c n
    then (elim (offer now c n a) [
      | ok a' ↦ send_sticky now (sendmark now c) ns a'
      | err x ↦ (err x, c, a)
    ])
    else send_sticky now c ns a

-- The clients before the one that equals `new`, that one, heard from now, and the clients after it;
-- `new` at the end if there is none.
unfoldable pub enrol : ℕ → Client → List Client → List Client × Client × List Client
enrol now new [] = ([], new, [])
enrol now new (c ∷ cs) =
    let (before, out, after) = enrol now new cs in
    if same_client c new then ([], recvmark now c, cs) else (c ∷ before, out, after)

-- The loop of `post`: the notice is queued for each client that wants it, until it cannot be made.
unfoldable pub post_each : ℕ → Notice → List Client → Atp → Result (Unit {0}) × List Client × Atp
post_each now n [] a = (ok tt, [], a)
post_each now n (c ∷ cs) a =
    if wants c n
    then (elim (offer now c n a) [
      | ok a' ↦ (let (r, cs', a'') = post_each now n cs a' in (r, sendmark now c ∷ cs', a''))
      | err x ↦ (err x, c ∷ cs, a)
    ])
    else (let (r, cs', a') = post_each now n cs a in (r, c ∷ cs', a'))

-- The loop of `update`.
unfoldable pub update_each : ℕ → Bytes → ℤ → List Client → List Client
update_each now ip port [] = []
update_each now ip port (c ∷ cs) =
    (if eq_bytes c.ip ip && eq_ℤ c.port port then recvmark now c else c)
    ∷ update_each now ip port cs

-- the clients that write_poll keeps
unfoldable pub live : ℕ → ℕ → List Client → List Client
live now maxage = select (λ c. not (ltb maxage (age now c)))

-- The loop of `stop`: a reset is queued for each client, until one cannot be made.
unfoldable pub reset_each : ℕ → List Client → Atp → Result (Unit {0}) × Atp
unfolding addr
reset_each now [] a = (ok tt, a)
reset_each now (c ∷ cs) a = elim (addreq now (reset (addr c)) a) [
  | ok a' ↦ reset_each now cs a'
  | err x ↦ (err x, a)
]

module _ (db : Database) where
  abbrev pub State : Type 0
  State = Server db.Store × Atp

  -- NotifyUDPServer.__init__
  unfoldable pub new_server : ℕ → ℕ → db.Store → State
  unfolding new_atp
  new_server tid maxage store = (
    record { db = store; clients = []; locked = false },
    record (new_atp tid) { maxage = maxage },
  )

  unfoldable pub add_client : ℕ → ℤ → Bytes → ℤ → List ℤ → State → Result Client × State
  unfolding client sendmark recvmark
  add_client now uid ip port svcs (s, a) =
      let new = recvmark now (sendmark now (client uid ip port svcs)) in
      let (before, out, after) = enrol now new s.clients in
      let (r, out', a') = send_sticky now out (notices db s.db) a in
      let s' = record s { clients = before ++ out' ∷ after; locked = still_held r } in
      if s.locked
      then (err blocked, (s, a))
      else elim r [ ok _ ↦ (ok out', (s', a')) | err x ↦ (err x, (s', a')) ]

  unfoldable pub post : ℕ → Notice → State → Result (Unit {0}) × State
  post now n (s, a) =
      let (r, cs, a') = post_each now n s.clients a in
      if s.locked
      then (err blocked, (s, a))
      else (r, (record s { clients = cs; locked = still_held r }, a'))

  unfoldable pub update : ℕ → Bytes → ℤ → Server db.Store → Result (Unit {0}) × Server db.Store
  update now ip port s =
      if s.locked
      then (err blocked, s)
      else (ok tt, record s { clients = update_each now ip port s.clients })

  unfoldable pub write_poll : ℕ → State → Result (Unit {0}) × State
  write_poll now (s, a) =
      if s.locked
      then (err blocked, (s, a))
      else (ok tt, (record s { clients = live now a.maxage s.clients }, a))

  unfoldable pub clear_sticky : ℤ → ℤ → Server db.Store → Server db.Store
  clear_sticky uid service s = record s { db = cleartype db uid service s.db }

  -- `clients()`
  unfoldable pub all_clients : State → Result (List Client)
  all_clients (s, a) = if s.locked then err blocked else ok s.clients

  -- stop, up to the end of the threads
  unfoldable pub stop : ℕ → State → Result (Unit {0}) × State
  stop now (s, a) =
      let (r, a') = reset_each now s.clients a in
      if s.locked then (err blocked, (s, a)) else (r, (record s { locked = still_held r }, a'))

  -- `self.add_client(int(uid[1:]), sndr[0], port, svcs)`, and then True
  enlist : ℕ → Option ℤ → Bytes → ℤ → List ℤ → State → Result Reply × State
  enlist now none ip port svcs o = (err value_error, o)
  enlist now (some uid) ip port svcs o =
      let (r, o') = add_client now uid ip port svcs o in
      elim r [ ok _ ↦ (ok accept, o') | err x ↦ (err x, o') ]

  registered : ℕ → Addr → Result Register.Fields → State → Result Reply × State
  unfolding enlist
  registered now sndr (err x) o = (err x, o)
  registered now (ip, from) (ok (uid, port, svcs)) o =
      enlist now (int (drop 1 uid)) ip (if eq_ℤ port (pos 0) then from else port) svcs o

  cleared : Result (ℤ × ℤ) → State → Result Reply × State
  unfolding clear_sticky
  cleared (err x) o = (err x, o)
  cleared (ok (uid, service)) (s, a) = (ok accept, (clear_sticky uid service s, a))

  unfoldable pub do_req :
      ℕ → List Flag → ℕ → ℕ → Bytes → Bytes → Addr → State → Result Reply × State
  unfolding registered cleared
  do_req now flags seq tid udata pdata sndr o =
      if eq_bytes udata (codes "NR02")
      then registered now sndr (parse_register_req pdata) o
      else if eq_bytes udata (codes "CLEN")
      then cleared (parse_clear_req pdata) o
      else (ok ignore, o)

  -- do_rsp and do_rel mark the sender as fresh.
  unfoldable pub do_rsp : ℕ → Elem → Server db.Store → Result Bool × Server db.Store
  do_rsp now e s =
      let (ip, port) = e.addr in
      let (r, s') = update now ip port s in elim r [ ok _ ↦ (ok true, s') | err x ↦ (err x, s') ]

  -- The value that do_rel returns is not used.
  unfoldable pub do_rel : ℕ → Elem → Server db.Store → Result (Unit {0}) × Server db.Store
  do_rel now e s = let (ip, port) = e.addr in update now ip port s

  -- the methods that NotifyUDPServer overrides
  unfoldable pub server_handlers : Handlers (Server db.Store)
  server_handlers = record { do_req = do_req; do_rsp = do_rsp; do_rel = do_rel }
