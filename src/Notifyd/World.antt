-- ===== src/Notifyd/World.antt =====
-- class NotifyTCPServer: what the connections share. `main` opens one database file twice, so the
-- sticky notices of the TCP server are those of the UDP server.
use blitzmail.Common.{
  ℕ, Bytes, codes, eq_bytes, Bool, true, false, not, ◌||◌, List, [], Option, none, some, ℤ, eq_ℤ,
  if◌then◌else◌,
}
use blitzmail.Errors.{Result, ok, err}
use blitzmail.Notifyd.Db.{Notice, Database, enter, notices, cleartype}
use blitzmail.Notifyd.Client.{Client}
use blitzmail.Notifyd.Udp.{State, post, add_client, all_clients}

pub record World (db : Database) : Type 0 where
  -- the UDP server, and the database that the two share
  pub udp : State db
  -- is there a UDP server?
  pub has_udp : Bool
  -- the user that was validated last, and the privileged one
  pub auth : Option ℤ
  pub adm : Option ℤ

-- `self.adm is not None and self.auth == self.adm`
unfoldable pub is_privileged : Option ℤ → Option ℤ → Bool
is_privileged none auth = false
is_privileged (some adm) none = false
is_privileged (some adm) (some auth) = eq_ℤ auth adm

module _ {db : Database} where
  unfoldable pub check_perms : Bytes → World db → Bool
  unfolding is_privileged
  check_perms operation w =
      if not (eq_bytes operation (codes "list") || eq_bytes operation (codes "broadcast"))
      then true
      else is_privileged w.adm w.auth

  -- the world with its database replaced
  abbrev pub set_db : db.Store → World db → World db
  set_db store w = record w { udp = (record w.udp.0 { db = store }, w.udp.1) }

  unfoldable pub clear : ℤ → ℤ → World db → World db
  clear uid type w = set_db (cleartype db uid type w.udp.0.db) w

  -- `notices()`
  unfoldable pub all_notices : World db → List Notice
  all_notices w = notices db w.udp.0.db

  unfoldable pub clients : World db → Result (List Client)
  clients w = if w.has_udp then all_clients db w.udp else ok []

  unfoldable pub add_client_tcp :
      ℕ → ℤ → Bytes → ℤ → List ℤ → World db → Result (Unit {0}) × World db
  add_client_tcp now uid ip port svcs w =
      let (r, o) = add_client db now uid ip port svcs w.udp in
      if w.has_udp
      then elim r [ ok c ↦ (ok tt, record w { udp = o }) | err x ↦ (err x, record w { udp = o }) ]
      else (ok tt, w)

  unfoldable pub notify :
      ℕ → ℤ → ℤ → ℤ → Bool → Option Bytes → World db → Result (Unit {0}) × World db
  notify now uid type msgid sticky content w =
      let w' = if sticky then set_db (enter db uid type msgid content w.udp.0.db) w else w in
      let notice : Notice = record {
        uid = uid;
        type = type;
        msgid = msgid;
        sticky = sticky;
        content = content;
        rowid = none;
      } in
      let (r, o) = post db now notice w'.udp in
      if w.has_udp then (r, record w' { udp = o }) else (ok tt, w')
