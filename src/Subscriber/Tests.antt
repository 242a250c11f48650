-- ===== src/Subscriber/Tests.antt =====
-- The client at concrete states.
use blitzmail.Common.{◌≡◌, refl, arith, Bytes, codes, false, [], ◌∷◌, ◌++◌, none, some, pos}
use blitzmail.Errors.{ok, err, value_error}
use blitzmail.Packet.Struct.{be32, pack_i}
use blitzmail.Packet.Service.{name, code, resolve, pack_key}
use blitzmail.Packet.Notice.{make_notify_req}
use blitzmail.Atp.Queue.{Elem, Addr, elem, request_packet, request, notify, response}
use blitzmail.Atp.Object.{Atp, receive}
use blitzmail.Atp.Object.Pass.{datagram}
use blitzmail.Atp.Object.Datagram.{arrived}
use blitzmail.Subscriber.{Client, do_req, client_handlers}
use blitzmail.Subscriber.Arrive.{receive-notify, do_req_truncated}

abbrev client : Client
client = record {
  nqueue = (pos 1, pos 7, pos 5, []) ∷ (pos 1, pos 7, pos 6, []) ∷ [];
  locked = false;
  uid = codes "7";
  svcs = name "mail" ∷ [];
  port = pos 2000;
  server = (codes "10.0.0.1", pos 2154);
}

abbrev atp : Atp
atp = record { tid = 3; maxage = 300; rqueue = []; lqueue = [] }

abbrev from : Addr
from = (codes "10.0.0.1", pos 2154)

do_req_truncated_example :
    (do_req 30 [] 1 4 (codes "NOTI") (1 ∷ 2 ∷ []) from (client, atp)).0 ≡ err value_error
do_req_truncated_example =
    (do_req_truncated 30 [] 1 4 (1 ∷ 2 ∷ []) from client atp (omega arith) refl).0

abbrev body : Bytes
body = 0 ∷ 0 ∷ 0 ∷ 1 ∷ 0 ∷ 0 ∷ 0 ∷ 7 ∷ 0 ∷ 0 ∷ 0 ∷ 11 ∷ []

abbrev queued : Elem
queued = record {
  orig = 20;
  time = 1;
  tid = 9;
  content = request_packet 9 (codes "NOTI") (some (body ++ codes "hi"));
  addr = (codes "10.0.0.7", pos 2000);
}

queued_lem :
    request 20 9
      (notify (pos 7) (code (pos 1)) (pos 11) (some (codes "hi")) (codes "10.0.0.7", pos 2000))
    ≡ ok queued
unfolding request make_notify_req resolve pack_key pack_i be32 elem
queued_lem = refl

receive-notify_example : receive client_handlers 30 (datagram queued).0 from (client, atp) ≡ (
  ok tt,
  (
    record client { nqueue = client.nqueue ++ (pos 1, pos 7, pos 11, codes "hi") ∷ [] },
    record atp { rqueue = response 30 (arrived queued.content) none from ∷ [] },
  ),
)
receive-notify_example =
    receive-notify 1 7 11 (some (codes "hi")) (omega arith) (omega arith) (omega arith)
      (omega arith) 30 20 9 (codes "10.0.0.7", pos 2000) from queued client atp (omega arith)
      queued_lem refl
