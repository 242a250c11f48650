-- ===== src/Notifyd/Tests.antt =====
-- The theorems of the UDP server and the database at concrete states.
use blitzmail.Common.{
  ℕ, ◌≡◌, refl, arith, Bytes, codes, false, if◌then◌else◌, List, [], ◌∷◌, ◌++◌, map, select, any,
  none, ℤ, pos,
}
use blitzmail.Errors.{ok, err, blocked, struct_error}
use blitzmail.Packet.Struct.{be32, pack_i}
use blitzmail.Packet.Service.{code, resolve, pack_key}
use blitzmail.Packet.Notice.{make_notify_req}
use blitzmail.Atp.Object.{Atp, Sent, pass}
use blitzmail.Notifyd.Db.{Notice}
use blitzmail.Notifyd.Client.{client, same_client, wants}
use blitzmail.Notifyd.Udp.{new_server, add_client, post}
use blitzmail.Notifyd.Udp.Table.{AreDistinct, registrations, registrations-add_client}
use blitzmail.Notifyd.Udp.Held.{post_too_large}
use blitzmail.Notifyd.Udp.Delivery.{post_delivers, notified, queued, tid_after}
use blitzmail.Notifyd.Udp.Run.{
  Event, arrived, posted, added, entered, removed, stopped, woken, happen_all,
  happen_all-new_server,
}
use blitzmail.Notifyd.Sample.{table, seven, idle, serving, mail}

registrations-add_client_example :
    registrations
      (add_client table 20 (pos 7) (codes "10.0.0.7") (pos 2000) (pos 2 ∷ []) serving).1.0.clients
    ≡ (if any
          (λ c. same_client c (client (pos 7) (codes "10.0.0.7") (pos 2000) (pos 2 ∷ [])))
          (seven ∷ [])
        then registrations (seven ∷ [])
        else registrations (seven ∷ [])
          ++ client (pos 7) (codes "10.0.0.7") (pos 2000) (pos 2 ∷ []) ∷ [])
registrations-add_client_example =
    registrations-add_client table 20 (pos 7) (codes "10.0.0.7") (pos 2000) (pos 2 ∷ []) serving.0
      idle refl

abbrev huge : Notice
huge = record mail { msgid = pos 4294967296 }

-- a client registers, and the server is stopped
abbrev evening : List Event
evening = added 21 (pos 8) (codes "10.0.0.8") (pos 2000) (pos 1 ∷ []) ∷ stopped 22 ∷ woken 23 ∷ []

post_too_large_example :
    ((post table 20 huge serving).0 ≡ err struct_error)
    × ((happen_all table evening (post table 20 huge serving).1).0.clients
        ≡ (post table 20 huge serving).1.0.clients)
    × ((later : ℕ) (m : Notice)
        → post table later m (happen_all table evening (post table 20 huge serving).1)
          ≡ (err blocked, happen_all table evening (post table 20 huge serving).1))
    × ((later : ℕ) (uid : ℤ) (ip : Bytes) (port : ℤ) (svcs : List ℤ)
        → add_client table later uid ip port svcs
            (happen_all table evening (post table 20 huge serving).1)
          ≡ (err blocked, happen_all table evening (post table 20 huge serving).1))
unfolding wants
post_too_large_example =
    post_too_large table 20 huge serving.0 idle evening refl (4294967296, refl, omega arith) refl

abbrev body : Bytes
body = 0 ∷ 0 ∷ 0 ∷ 1 ∷ 0 ∷ 0 ∷ 0 ∷ 7 ∷ 0 ∷ 0 ∷ 0 ∷ 11 ∷ []

mail_body : make_notify_req (code mail.type) mail.uid mail.msgid mail.content ≡ ok body
unfolding make_notify_req resolve pack_i be32 pack_key
mail_body = refl

post_delivers_example : post table 20 mail serving ≡ (
  ok tt,
  (
    record { db = []; clients = map (notified 20 mail) (seven ∷ []); locked = false },
    record idle {
      rqueue = queued 20 3 body (select (λ c. wants c mail) (seven ∷ []));
      tid = tid_after 3 (select (λ c. wants c mail) (seven ∷ []));
    },
  ),
)
post_delivers_example = post_delivers 20 mail body mail_body table serving.0 idle refl

abbrev day : List Event
day =
    added 20 (pos 7) (codes "10.0.0.7") (pos 2000) (pos 1 ∷ [])
    ∷ entered (pos 7) (pos 1) (pos 3) none
    ∷ posted 21 mail
    ∷ removed (pos 7) (pos 1)
    ∷ stopped 21
    ∷ woken 22
    ∷ arrived 23 (1 ∷ 2 ∷ 3 ∷ []) (codes "10.0.0.7", pos 2000)
    ∷ []

happen_all-new_server_example :
    AreDistinct (happen_all table day (new_server table 3 600 [])).0.clients
    × ((a : Atp) × (out : Sent) × (pass 24 (happen_all table day (new_server table 3 600 [])).1
          ≡ ok (a, out)))
happen_all-new_server_example =
    happen_all-new_server table 3 600 [] day 24 (omega arith)
      (tt, (tt, (tt, (tt, (tt, (tt, ((omega arith, (omega arith, (omega arith, tt))), tt)))))))
