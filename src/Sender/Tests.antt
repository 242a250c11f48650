-- ===== src/Sender/Tests.antt =====
-- A post by a session at concrete values.
use blitzmail.Common.{
  ◌≡◌, refl, Bytes, codes, true, false, [], ◌∷◌, ◌++◌, none, some, pos, if◌then◌else◌,
}
use blitzmail.Common.Decimal.{str}
use blitzmail.Common.Lines.{str_ℤ, join}
use blitzmail.Errors.{ok}
use blitzmail.Packet.Service.{code, resolve}
use blitzmail.Notifyd.Sample.{table, phone_book, world}
use blitzmail.Notifyd.World.{notify}
use blitzmail.Notifyd.Wire.{may_not_broadcast}
use blitzmail.Notifyd.Tcp.{Conn, told, no_broadcast}
use blitzmail.Notifyd.Tcp.Handle.{turn}
use blitzmail.Sender.{Session, service, sender_id, post_data, rawsend, cmd1, post_notify}
use blitzmail.Sender.Post.{received, turn-post_notify}

abbrev session : Session
session = record { is_connected = true; user_info = none }

abbrev conn : Conn phone_book
conn = record { input = []; output = []; quit = false; dnd = none; resp = none }

abbrev hi : Bytes
hi = 2 ∷ codes "hi"

abbrev sent : Bytes
sent = codes "NOTIFY 3,7,1,11,1\n" ++ hi

hi_lem : post_data (pos 1) (some (codes "hi")) ≡ ok hi
unfolding post_data
hi_lem = refl

sent_lem :
    post_notify 30 (code (pos 1)) (some (codes "hi")) (some (pos 7)) (some (pos 11)) true session
    ≡ ok sent
unfolding post_notify service resolve sender_id post_data rawsend cmd1 join str_ℤ str
sent_lem = refl

turn-post_notify_example :
    turn table phone_book 31 (record conn { input = sent ++ codes "QUIT\n" }, world) ≡ (
      if may_not_broadcast (pos 7) world
      then no_broadcast table phone_book (record conn { input = codes "QUIT\n" }, world)
      else told table phone_book
          (codes "200 Ok.")
          (record conn { input = codes "QUIT\n" })
          (notify 31 (pos 7) (pos 1) (pos 11) true (received hi) world))
turn-post_notify_example =
    turn-post_notify table phone_book 31 30 (pos 1) (pos 7) (some (codes "hi")) (some (pos 11)) true
      session conn world hi sent (codes "QUIT\n") refl hi_lem sent_lem refl
