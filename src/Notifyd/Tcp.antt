-- ===== src/Notifyd/Tcp.antt =====
-- class NotifyTCPHandler: the commands of one connection, and the loop that reads them.
-- The commands are those of a client that takes what is written to it; a turn whose write fails is
-- `lost` in Handle.
pub mod Handle
pub mod Kept
pub mod Auth
pub mod Reach
pub mod Sequence
pub mod Post
pub mod End
mod Tests
use blitzmail.Common.{
  ℕ, Bytes, codes, eq_bytes, ltb, Bool, true, false, not, ◌&&◌, ◌||◌, ◌==◌, List, [], ◌∷◌, ◌++◌,
  map, length, Option, none, some, ℤ, pos, eq_ℤ, if◌then◌else◌,
}
use blitzmail.Common.Decimal.{str, int, rstrip}
use blitzmail.Common.Lines.{upper, lower, readline, split_space, re_split}
use blitzmail.Errors.{Result, ok, err, attribute_error, value_error, type_error, directory_error}
use blitzmail.Notifyd.Db.{Database}
use blitzmail.Notifyd.Client.{Client}
use blitzmail.Notifyd.Directory.{Directory, Outcome, given, refused, raised}
use blitzmail.Notifyd.Wire.{
  crlf, ints, is_octal24, notice_line, client_line, concat, read_data, may_not_broadcast, is_some,
}
use blitzmail.Notifyd.World.{
  World, check_perms, clear, all_notices, clients, add_client_tcp, notify,
}

-- One connection: what is still to be read, what was written, and the validation in progress.
pub record Conn (dir : Directory) : Type 0 where
  pub input : Bytes
  pub output : Bytes
  pub quit : Bool
  pub dnd : Option dir.Session
  pub resp : Option (Bytes × dir.Answer)

module _ (db : Database) (dir : Directory) where
  abbrev pub Io : Type 0
  Io = Conn dir × World db

  -- how a handler ends, and with what
  abbrev pub Done : Type 0
  Done = Result (Unit {0}) × Io

  abbrev pub write : Bytes → Io → Io
  write t (c, w) = (record c { output = c.output ++ t }, w)

  -- a line is written, and the handler returns
  abbrev pub say : Bytes → Io → Done
  say t io = (ok tt, write (t ++ crlf) io)

  -- the end of a handler that called the server, which may have raised
  abbrev pub told : Bytes → Conn dir → Result (Unit {0}) × World db → Done
  told t c (ok _, w) = say t (c, w)
  told t c (err x, w) = (err x, (c, w))

  unfoldable pub cmd_unknown : Bytes → Io → Done
  cmd_unknown cmd = say (codes "500 Unknown command: " ++ upper cmd)

  unfoldable pub cmd_quit : Io → Done
  cmd_quit (c, w) = say (codes "221 Bye now!") (record c { quit = true }, record w { auth = none })

  unfoldable pub cmd_noop : Io → Done
  cmd_noop = say (codes "200 Nothing.")

  abbrev pub wrong_number : Io → Done
  wrong_number = say (codes "501 Wrong number of arguments.")

  abbrev pub invalid_argument : Io → Done
  invalid_argument = say (codes "501 Invalid argument.")

  abbrev pub no_broadcast : Io → Done
  no_broadcast = say (codes "554 Broadcast permission denied.")

  abbrev pub no_permission : Io → Done
  no_permission = say (codes "554 Permission denied.")

  cleared : Option (List ℤ) → Io → Done
  cleared (some (uid ∷ type ∷ [])) (c, w) =
      if may_not_broadcast uid w
      then no_broadcast (c, w)
      else say (codes "200 Notifications cleared.") (c, clear uid type w)
  cleared other io = invalid_argument io

  unfoldable pub cmd_clear : List Bytes → Io → Done
  unfolding cleared
  cmd_clear args io = if length args == 2 then cleared (ints args) io else wrong_number io

  notified : ℕ → Option (List ℤ) → Io → Done
  notified now (some (len ∷ uid ∷ type ∷ msgid ∷ sticky ∷ [])) (c, w) =
      let (content, rest) = read_data len c.input in
      let c' = record c { input = rest } in
      if may_not_broadcast uid w
      then no_broadcast (c', w)
      else told (codes "200 Ok.") c'
          (notify now uid type msgid (not (eq_ℤ sticky (pos 0))) content w)
  notified now other io = invalid_argument io

  unfoldable pub cmd_notify : ℕ → List Bytes → Io → Done
  unfolding notified
  cmd_notify now args io = if length args == 5 then notified now (ints args) io else wrong_number io

  -- after begin_validate: a refusal ends the session with the directory
  begun : dir.Session → Outcome (Bytes × dir.Answer) → Io → Done
  begun d (given r) (c, w) = say (codes "300 " ++ r.0) (record c { dnd = some d; resp = some r }, w)
  begun d (refused t) (c, w) =
      let (c', w') = write (codes "550 " ++ t ++ crlf) (record c { dnd = some d }, w) in
      if dir.close_fails d
      then (err directory_error, (c', w'))
      else (ok tt, (record c' { dnd = none; resp = none }, w'))
  begun d (raised x) (c, w) = (err x, (record c { dnd = some d }, w))

  connected : Option dir.Session → Bytes → Io → Done
  unfolding begun
  connected none name io = say (codes "450 Name directory unavailable.") io
  connected (some d) name io = begun d (dir.begin_validate d name) io

  unfoldable pub cmd_user : ℕ → List Bytes → Io → Done
  unfolding connected
  cmd_user now (name ∷ []) io = connected (dir.connect now) name io
  cmd_user now args io = wrong_number io

  -- The `finally` of PASE and PASS. With no session `self.dnd.close()` raises AttributeError, which
  -- takes the place of any other exception; the clause that should catch it catches DNDError alone.
  pub finally_close : Done → Done
  finally_close (r, (c, w)) = elim c.dnd [
    | none ↦ (err attribute_error, (c, w))
    | some d ↦ (r, (record c { dnd = none; resp = none }, w))
  ]

  -- `self.server.auth = int(result.uid)`
  validated : Option ℤ → Io → Done
  validated none io = (err value_error, io)
  validated (some uid) (c, w) = say (codes "200 User validated.") (c, record w { auth = some uid })

  answered : Outcome Bytes → Io → Done
  unfolding validated
  answered (given uid) io = validated (int uid) io
  answered (refused t) io = say (codes "551 " ++ t) io
  answered (raised x) io = (err x, io)

  -- without a challenge `self.resp[…]` raises TypeError
  respond : (Bytes × dir.Answer → Bytes) → Option (Bytes × dir.Answer) → Io → Done
  unfolding answered
  respond make none io = (err type_error, io)
  respond make (some r) io = answered (dir.answer r.1 (make r)) io

  unfoldable pub cmd_pase : List Bytes → Io → Done
  unfolding finally_close respond
  cmd_pase (pw ∷ []) (c, w) =
      finally_close
        (if is_octal24 pw then respond (λ r. pw) c.resp (c, w) else invalid_argument (c, w))
  cmd_pase args io = finally_close (wrong_number io)

  unfoldable pub cmd_pass : List Bytes → Io → Done
  unfolding finally_close respond
  cmd_pass (pw ∷ []) (c, w) = finally_close (
      if ltb 8 (length pw)
      then invalid_argument (c, w)
      else respond (λ r. dir.encrypt_challenge r.0 pw) c.resp (c, w))
  cmd_pass args io = finally_close (wrong_number io)

  enrolled : ℕ → Bytes → Option ℤ → Option (List ℤ) → Option ℤ → Io → Done
  enrolled now ip (some uid) (some svcs) (some port) (c, w) =
      told (codes "200 Ok.") c (add_client_tcp now uid ip port svcs w)
  enrolled now ip uid svcs port io = invalid_argument io

  with_client : ℕ → List Bytes → Io → Done
  unfolding enrolled
  with_client now (uid ∷ ip ∷ port ∷ svc ∷ svcs) io =
      enrolled now ip (int uid) (ints (svc ∷ svcs)) (int port) io
  with_client now args io = wrong_number io

  unfoldable pub cmd_client : ℕ → List Bytes → Io → Done
  unfolding with_client
  cmd_client now args (c, w) =
      if check_perms (codes "client") w then with_client now args (c, w) else no_permission (c, w)

  list_notices : Io → Io
  list_notices (c, w) =
      let notes = all_notices w in
      write
        (codes "101 "
          ++ str (length notes)
          ++ crlf
          ++ concat (map notice_line notes)
          ++ codes "200 Ok."
          ++ crlf)
        (c, w)

  listed : ℕ → Io → Result (List Client) → Done
  listed now io (ok cs) = (
    ok tt,
    write
        (codes "101 "
          ++ str (length cs)
          ++ crlf
          ++ concat (map (client_line now) cs)
          ++ codes "200 Ok."
          ++ crlf)
        io,
  )
  listed now io (err x) = (err x, io)

  list_key : ℕ → Bytes → Io → Done
  unfolding list_notices listed
  list_key now key io =
      if eq_bytes key (codes "notices")
      then (ok tt, list_notices io)
      else if eq_bytes key (codes "clients")
      then listed now io (clients io.1)
      else if eq_bytes key (codes "all")
      then listed now (list_notices io) (clients io.1)
      else say (codes "501 Invalid list selector.") io

  with_list : ℕ → List Bytes → Io → Done
  unfolding list_key
  with_list now (key ∷ []) io = list_key now (lower key) io
  with_list now args io = wrong_number io

  unfoldable pub cmd_list : ℕ → List Bytes → Io → Done
  unfolding with_list
  cmd_list now args (c, w) =
      if check_perms (codes "list") w then with_list now args (c, w) else no_permission (c, w)

  -- `getattr(self, 'cmd_%s' % cmd.upper(), self.cmd_unknown)(cmd, args)`
  unfoldable pub perform : ℕ → Bytes → List Bytes → Io → Done
  perform now cmd args io =
      let name = upper cmd in
      if eq_bytes name (codes "QUIT")
      then cmd_quit io
      else if eq_bytes name (codes "NOOP")
      then cmd_noop io
      else if eq_bytes name (codes "CLEAR")
      then cmd_clear args io
      else if eq_bytes name (codes "NOTIFY")
      then cmd_notify now args io
      else if eq_bytes name (codes "USER")
      then cmd_user now args io
      else if eq_bytes name (codes "PASE")
      then cmd_pase args io
      else if eq_bytes name (codes "PASS")
      then cmd_pass args io
      else if eq_bytes name (codes "CLIENT")
      then cmd_client now args io
      else if eq_bytes name (codes "LIST")
      then cmd_list now args io
      else cmd_unknown cmd io
