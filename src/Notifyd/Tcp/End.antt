-- ===== src/Notifyd/Tcp/End.antt =====
-- The end of the input: `readline` returns an empty text, and the loop goes on until a write fails.
use blitzmail.Common.{Bytes, codes}
use blitzmail.Notifyd.Directory.{Directory}
use blitzmail.Notifyd.World.{World}

abbrev complaint : Bytes
complaint = codes "500 Unknown command: \r\n"
