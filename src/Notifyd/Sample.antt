-- ===== src/Notifyd/Sample.antt =====
-- A database of notices, a name directory and some states, for the tests.
use blitzmail.Common.{
  refl, codes, eq_bytes, true, false, not, ◌&&◌, List, [], ◌∷◌, ◌++◌, length, select, none, some,
  pos, eq_ℤ, if◌then◌else◌,
}
use blitzmail.Atp.Object.{Atp}
use blitzmail.Notifyd.Db.{Row, Notice, Database}
use blitzmail.Notifyd.Client.{Client}
use blitzmail.Notifyd.Udp.{State}
use blitzmail.Notifyd.Directory.{Directory, given, refused}
use blitzmail.Notifyd.World.{World}

-- the rows in a list, numbered by their place
abbrev pub table : Database
table = record {
  Store = List Row;
  rows = λ s. s;
  insert = λ uid type msgid content s.
      s
      ++ record { uid = uid; type = type; msgid = msgid; content = content; rowid = length s } ∷ [];
  delete = λ uid type. select (λ r. not (eq_ℤ r.uid uid && eq_ℤ r.type type));
  delete_all = λ s. [];
  rows-insert = λ uid type msgid content s. (length s, refl);
  rows-delete = λ uid type s. refl;
  rows-delete_all = λ s. refl;
}

-- a directory in which one response to every challenge is right, and it is that of user 42
abbrev pub phone_book : Directory
phone_book = record {
  Session = Unit;
  Answer = Unit;
  connect = λ now. some tt;
  begin_validate = λ d who. given (codes "123456701234567012345670", tt);
  answer = λ q pw.
      if eq_bytes pw (codes "765432107654321076543210")
      then given (codes "42")
      else refused (codes "Incorrect password.");
  close_fails = λ d. false;
  encrypt_challenge = λ challenge pw. pw;
}

-- a client that wants mail of user 7
abbrev pub seven : Client
seven = record {
  uid = pos 7;
  ip = codes "10.0.0.7";
  port = pos 2000;
  svcs = pos 1 ∷ [];
  smark = 5;
  rmark = 9;
}

abbrev pub idle : Atp
idle = record { tid = 3; maxage = 600; rqueue = []; lqueue = [] }

abbrev pub serving : State table
serving = (record { db = []; clients = seven ∷ []; locked = false }, idle)

abbrev pub world : World table
world = record { udp = serving; has_udp = true; auth = none; adm = some (pos 42) }

abbrev pub mail : Notice
mail = record {
  uid = pos 7;
  type = pos 1;
  msgid = pos 11;
  sticky = false;
  content = none;
  rowid = none;
}
