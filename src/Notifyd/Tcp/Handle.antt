-- ===== src/Notifyd/Tcp/Handle.antt =====
-- NotifyTCPHandler.handle: the loop that reads commands.
use blitzmail.Common.{
  Bytes, codes, eq_bytes, Bool, false, length, ◌==◌, not, ◌&&◌, ◌||◌, List, [], ◌∷◌, ◌++◌, ℕ, none,
  some, if◌then◌else◌,
}
use blitzmail.Common.Decimal.{rstrip}
use blitzmail.Common.Lines.{upper, readline, split_space, re_split}
use blitzmail.Errors.{Error, Result, ok, err, socket_error, attribute_error}
use blitzmail.Notifyd.Db.{Database}
use blitzmail.Notifyd.Directory.{Directory}
use blitzmail.Notifyd.Wire.{crlf, is_some}
use blitzmail.Notifyd.Tcp.{Conn, Io, Done, say, perform}

-- the command of a line, and its arguments
unfoldable pub parse_line : Bytes → Bytes × List Bytes
parse_line line =
    let (cmd, more) = split_space (rstrip line) in
    (cmd, elim more [ none ↦ [] | some text ↦ re_split text ])

-- the beginning of `handle`
unfoldable pub connection : {dir : Directory} → Bytes → Conn dir
connection input = record {
  input = input;
  output = codes "220 Notification server ready." ++ crlf;
  quit = false;
  dnd = none;
  resp = none;
}

-- `except socket.error: pass` around the loop
unfoldable pub caught : Error → Result (Unit {0})
caught socket_error = ok tt
caught x = err x

-- how a turn ends in which a write raised socket.error, by how it ends if none does: that write is the
-- end of all but the `finally` of PASE and PASS, whose AttributeError takes its place
unfoldable pub cut_short : Result (Unit {0}) → Result (Unit {0})
cut_short (err attribute_error) = err attribute_error
cut_short r = ok tt

module _ (db : Database) (dir : Directory) where
  -- only a response may follow USER: anything else ends the validation, and is not performed
  unfoldable pub sequenced : ℕ → Bytes → List Bytes → Io db dir → Done db dir
  sequenced now cmd args (c, w) =
      if is_some c.dnd
        && not (eq_bytes (upper cmd) (codes "PASS") || eq_bytes (upper cmd) (codes "PASE"))
      then say db dir (codes "503 Bad sequence of commands.")
          (record c { dnd = none; resp = none }, w)
      else perform db dir now cmd args (c, w)

  -- one turn of the loop
  unfoldable pub turn : ℕ → Io db dir → Done db dir
  unfolding sequenced
  turn now (c, w) =
      let (line, rest) = readline c.input in
      let (cmd, args) = parse_line line in sequenced now cmd args (record c { input = rest }, w)

  -- The last turn of a client that takes nothing more: the first write of the turn, if it comes to one,
  -- raises socket.error. The handlers change the shared state before they write, but for QUIT; of the
  -- connection, which is over, the input alone is kept up.
  unfoldable pub lost : ℕ → Io db dir → Done db dir
  unfolding caught cut_short
  lost now (c, w) =
      let (r, (c', w')) = turn now (c, w) in
      (
        if length c'.output == length c.output
            then (elim r [ ok _ ↦ ok tt | err x ↦ caught x ])
            else cut_short r,
        (record c { input = c'.input }, if c'.quit then w else w'),
      )

  -- The loop `while not self.quit`, one turn for each reading of the clock, with whether the client
  -- takes what is written in that turn, and `except socket.error`.
  unfoldable pub serve : List (ℕ × Bool) → Io db dir → Done db dir
  unfolding caught
  serve [] io = (ok tt, io)
  serve ((now, taken) ∷ clock) (c, w) =
      let (r, io) = turn now (c, w) in
      if c.quit
      then (ok tt, (c, w))
      else if taken
      then (elim r [ ok _ ↦ serve clock io | err x ↦ (caught x, io) ])
      else lost now (c, w)
