-- ===== src/Subscriber.antt =====
-- notify/client.py: the client that waits for notifications, and class Notification of notify/ntypes.py.
-- `locked` is true while the mutex of the queue is held by a thread that an exception has ended.
pub mod Strings
pub mod Arrive
mod Tests
use blitzmail.Common.{
  ℕ, zero, suc, Bytes, codes, eq_bytes, eq_ℤ, Bool, true, false, String, List, [], ◌∷◌, ◌++◌, map,
  length, take, drop, Option, none, some, ℤ, pos, if◌then◌else◌,
}
use blitzmail.Common.Decimal.{int}
use blitzmail.Errors.{Result, ok, err, blocked, value_error}
use blitzmail.Packet.Service.{Key, name, code, notify_service, resolve}
use blitzmail.Packet.Notice
use blitzmail.Packet.Notice.{parse_notify_req}
use blitzmail.Packet.Register.{Who, number, text}
use blitzmail.Packet.Atp.{Flag}
use blitzmail.Atp.Queue.{Addr, Elem, register, clear as clear_request}
use blitzmail.Atp.Object.{Atp, addreq, Handlers, Reply, drop as ignore, accept, default_handlers}

-- Notification.type: some name with the code, or else the code itself
unfoldable pub type_name : ℤ → List (String × ℤ) → Key
type_name z [] = code z
type_name z ((k, v) ∷ rest) = if eq_ℤ v z then name k else type_name z rest

-- Notification.data, on fuel: each string takes at least its length byte
unfoldable pub strings : ℕ → Bytes → List Bytes
strings zero s = []
strings (suc f) [] = []
strings (suc f) (n ∷ s) = take n s ∷ strings f (drop n s)

unfoldable pub data_strings : Bytes → List Bytes
unfolding strings
data_strings s = strings (length s) s

-- NotifyClient: the notifications received, the user, the services and the server
pub record Client : Type 0 where
  pub nqueue : List Notice.Fields
  pub locked : Bool
  pub uid : Bytes
  pub svcs : List Key
  pub port : ℤ
  pub server : Addr

abbrev pub State : Type 0
State = Client × Atp

-- start, for a client that is not running
unfoldable pub start : ℕ → State → Result State
start now (c, a) = elim (addreq now (register (text (b'#' ∷ c.uid)) c.svcs c.port c.server) a) [
  | ok a' ↦ ok (record c { nqueue = [] }, a')
  | err x ↦ err x
]

-- `self._nqueue.append(Notification(parse_notify_req(pdata)))`, under the mutex
noticed : Result Notice.Fields → State → Result Reply × State
noticed (ok n) (c, a) = (ok accept, (record c { nqueue = c.nqueue ++ n ∷ [] }, a))
noticed (err x) (c, a) = (err x, (record c { locked = true }, a))

unfoldable pub do_req : ℕ → List Flag → ℕ → ℕ → Bytes → Bytes → Addr → State → Result Reply × State
unfolding noticed
do_req now flags seq tid udata pdata sndr (c, a) =
    if eq_bytes udata (codes "NOTI")
    then (if c.locked then (err blocked, (c, a)) else noticed (parse_notify_req pdata) (c, a))
    else if eq_bytes udata (0 ∷ 0 ∷ 0 ∷ 0 ∷ [])
    then (ok accept, (c, a))
    else (ok ignore, (c, a))

unfoldable pub client_handlers : Handlers Client
client_handlers = record {
  do_req = do_req;
  do_rsp = λ now e s. (ok true, s);
  do_rel = λ now e s. (ok tt, s);
}

-- `int(userid)` of make_clear_req reads the text of the user's number
clear_text : ℕ → Option ℤ → Key → State → Result State
clear_text now none svc o = err value_error
clear_text now (some uid) svc (c, a) =
    elim (addreq now (clear_request uid (resolve svc) c.server) a) [
      | ok a' ↦ ok (c, a')
      | err x ↦ err x
    ]

unfoldable pub clear : ℕ → Key → State → Result State
unfolding clear_text
clear now svc (c, a) = clear_text now (int c.uid) svc (c, a)

-- `next()` where it does not wait, and none where nothing came before its timeout
unfoldable pub next : Client → Result (Option Notice.Fields) × Client
next c = if c.locked then (err blocked, c) else elim c.nqueue [
  | [] ↦ (ok none, c)
  | ◌∷◌ n rest ↦ (ok (some n), record c { nqueue = rest })
]

unfoldable pub peek : Client → Result (Option Notice.Fields)
peek c = if c.locked then err blocked else elim c.nqueue [ [] ↦ ok none | ◌∷◌ n rest ↦ ok (some n) ]

-- `len(client)`
unfoldable pub count : Client → Result ℕ
count c = if c.locked then err blocked else ok (length c.nqueue)
