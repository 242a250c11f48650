-- ===== src/Notifyd/Client.antt =====
-- class Client: one registration, and when the server last sent to it and heard from it.
use blitzmail.Common.{
  ℕ, ◌-◌, Bytes, Bool, ◌&&◌, ◌||◌, List, any, leb, ℤ, pos, eq_ℤ, eq_bytes, if◌then◌else◌,
}
use blitzmail.Atp.Queue.{Addr}
use blitzmail.Notifyd.Db.{Notice}

pub record Client : Type 0 where
  pub uid : ℤ
  pub ip : Bytes
  pub port : ℤ
  pub svcs : List ℤ
  pub smark : ℕ
  pub rmark : ℕ

-- Client.__init__
unfoldable pub client : ℤ → Bytes → ℤ → List ℤ → Client
client uid ip port svcs = record {
  uid = uid;
  ip = ip;
  port = port;
  svcs = svcs;
  smark = 0;
  rmark = 0;
}

unfoldable pub addr : Client → Addr
addr c = (c.ip, c.port)

unfoldable pub sendmark : ℕ → Client → Client
sendmark now c = record c { smark = now }

unfoldable pub recvmark : ℕ → Client → Client
recvmark now c = record c { rmark = now }

-- the clock does not run back, so the difference is no less than 0
unfoldable pub age : ℕ → Client → ℕ
age now c = if leb c.rmark c.smark then now - c.rmark else 0

-- __eq__
unfoldable pub same_client : Client → Client → Bool
same_client c d = eq_ℤ c.uid d.uid && (eq_bytes c.ip d.ip && eq_ℤ c.port d.port)

-- `notice.uid in (0, client.uid) and notice.type in client.svcs`
unfoldable pub wants : Client → Notice → Bool
wants c n = (eq_ℤ n.uid (pos 0) || eq_ℤ n.uid c.uid) && any (λ svc. eq_ℤ n.type svc) c.svcs
