-- ===== src/Atp/Tests.antt =====
-- A client with one registration, sent at time 100.
use blitzmail.Common.{◌≡◌, refl, arith, Bytes, codes, [], ◌∷◌, some, pos, select}
use blitzmail.Errors.{ok}
use blitzmail.Packet.Atp.{req, xo}
use blitzmail.Atp.Queue.{Addr, Elem, touch, is_due, is_older}
use blitzmail.Atp.Object.{Atp, new_atp, pass, receive, dispatch, default_handlers}
use blitzmail.Atp.Object.Pass.{datagram, pass_lem}
use blitzmail.Atp.Object.Sendable.{IsQueued, IsReady, IsQueued-IsSendable}
use blitzmail.Atp.Object.Datagram.{arrived, receive-datagram}

abbrev server_addr : Addr
server_addr = (codes "129.170.16.1", pos 2154)

abbrev client_addr : Addr
client_addr = (codes "129.170.20.7", pos 4000)

abbrev pending : Elem
pending = record {
  orig = 90;
  time = 1;
  tid = 65535;
  content = record {
    kind = req;
    flags = xo ∷ [];
    seq = 1;
    tid = 65535;
    udata = codes "CLEN";
    pdata = some (0 ∷ []);
  };
  addr = server_addr;
}

pending-IsQueued : IsQueued pending
pending-IsQueued = record {
  fit = record { kind = tt; flags = (tt, tt); seq = omega arith; tid = omega arith; udata = refl };
  tid = refl;
}

abbrev client : Atp
client = record { tid = 65535; maxage = 300; rqueue = pending ∷ []; lqueue = [] }

client-IsReady : IsReady client
client-IsReady = record { tid = omega arith; pending = (pending-IsQueued, tt); releases = tt }

pass_lem_example :
    pass 100 client
    ≡ ok (record client { rqueue = record pending { time = 100 } ∷ [] }, datagram pending ∷ [])
unfolding select is_due is_older touch
pass_lem_example = pass_lem 100 client (IsQueued-IsSendable pending pending-IsQueued, tt) tt

abbrev release_bytes : Bytes
release_bytes = 3 ∷ 0xe0 ∷ 1 ∷ 255 ∷ 255 ∷ codes "CLEN"

receive-datagram_example :
    receive default_handlers 101 (datagram pending).0 client_addr (tt, new_atp 7)
    ≡ dispatch default_handlers 101 req (arrived pending.content) client_addr (tt, new_atp 7)
receive-datagram_example =
    receive-datagram default_handlers 101 pending client_addr (tt, new_atp 7) pending-IsQueued
