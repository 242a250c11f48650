-- ===== src/Atp/Object/Exchange.antt =====
-- A whole transaction between two objects: request, response and release.
use blitzmail.Common.{ℕ, List, [], ◌∷◌}
use blitzmail.Errors.{Result, ok, ◌>>=◌}
use blitzmail.Packet.Atp.{Packet}
use blitzmail.Atp.Queue.{Addr, Elem}
use blitzmail.Atp.Object.{Atp, Sent, Handlers, pass, receive, default_handlers}

-- Datagrams arrive in the order in which they were sent.
pub deliver : {S : Type 0} → Handlers S → ℕ → Addr → Sent → S × Atp → Result (S × Atp)
deliver h now from [] o = ok o
deliver h now from ((pkt, _) ∷ rest) o =
    let (r, o') = receive h now pkt from o in r >>= λ _. deliver h now from rest o'

-- A request goes from the client to the server, the response back, and the release to the server.
pub transaction : ℕ → Atp → Atp → Addr → Addr → Result (Atp × Atp)
transaction now client server from to = do
  (c1, requests) ← pass now client
  (_, s1) ← deliver default_handlers now from requests (tt, server)
  (s2, responses) ← pass now s1
  (_, c2) ← deliver default_handlers now to responses (tt, c1)
  (c3, releases) ← pass now c2
  (_, s3) ← deliver default_handlers now from releases (tt, s2)
  ok (c3, s3)

-- an object with these queues
abbrev at : ℕ → ℕ → List Elem → List Elem → Atp
at t m rq lq = record { tid = t; maxage = m; rqueue = rq; lqueue = lq }
