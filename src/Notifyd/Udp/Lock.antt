-- ===== src/Notifyd/Udp/Lock.antt =====
-- The mutex of the table of clients: a notice that cannot be made into a packet leaves it held.
use blitzmail.Common.{
  ℕ, ◌≡◌, ◌≤◌, ◌^◌, ap, ◌∙◌, arith, Bytes, true, false, List, [], ◌∷◌, any, ℤ, pos, Bool-cases, inl,
  inr,
}
use blitzmail.Errors.{err, blocked, struct_error}
use blitzmail.Packet.Service.{resolve, pack_key}
use blitzmail.Packet.Struct.{pack_i-cases, pack_i_too_large}
use blitzmail.Packet.Notice.{make_notify_req}
use blitzmail.Atp.Queue.{request}
use blitzmail.Atp.Object.{Atp, addreq}
use blitzmail.Notifyd.Db.{Notice, Database}
use blitzmail.Notifyd.Client.{Client, wants}
use blitzmail.Notifyd.Udp.{
  Server, still_held, offer, post_each, add_client, post, update, write_poll, all_clients, stop,
}

module _ (db : Database) (now : ℕ) (s : Server db.Store) (a : Atp) where
  -- While the mutex is held, every method that wants it waits, and nothing is changed.
  pub held_blocks :
      s.locked ≡ true
      → ((uid : ℤ) (ip : Bytes) (port : ℤ) (svcs : List ℤ)
          → add_client db now uid ip port svcs (s, a) ≡ (err blocked, (s, a)))
        × ((n : Notice) → post db now n (s, a) ≡ (err blocked, (s, a)))
        × ((ip : Bytes) (port : ℤ) → update db now ip port s ≡ (err blocked, s))
        × (write_poll db now (s, a) ≡ (err blocked, (s, a)))
        × (stop db now (s, a) ≡ (err blocked, (s, a)))
        × (all_clients db (s, a) ≡ err blocked)
  unfolding add_client post update write_poll stop all_clients
  held_blocks held =
      (λ uid ip port svcs. rw held, λ n. rw held, λ ip port. rw held, rw held, rw held, rw held)

  -- A method that returns gives the mutex back, and one that raises does not.
  pub locked-post :
      (n : Notice)
      → s.locked ≡ false
      → (post db now n (s, a)).1.0.locked ≡ still_held (post db now n (s, a)).0
  unfolding post
  locked-post n free = rw free

  post-eq-post_each :
      (n : Notice) → s.locked ≡ false → (post db now n (s, a)).0 ≡ (post_each now n s.clients a).0
  unfolding post
  post-eq-post_each n free = rw free

-- the message identifier of a notice that no packet can hold
abbrev pub IsTooLarge : ℤ → Type 0
IsTooLarge z = (n : ℕ) × (z ≡ pos n) × (2 ^ 32 ≤ n)

offer_too_large :
    (now : ℕ) (c : Client) (n : Notice) (a : Atp)
    → IsTooLarge n.msgid
    → offer now c n a ≡ err struct_error
unfolding offer addreq request make_notify_req resolve pack_key
offer_too_large now c n a (big, e, h) =
    ground (arith, pack_i-cases n.type, pack_i-cases n.uid, pack_i_too_large big h)

post_each_too_large :
    (now : ℕ) (n : Notice) (cs : List Client) (a : Atp)
    → IsTooLarge n.msgid
    → any (λ c. wants c n) cs ≡ true
    → (post_each now n cs a).0 ≡ err struct_error
unfolding post_each
post_each_too_large now n [] a big h = cc
post_each_too_large now n (c ∷ cs) a big h = elim (Bool-cases (wants c n)) [
  | inl e ↦ rw (e, offer_too_large now c n a big, post_each)
  | inr e ↦ rw (e, post_each) (post_each_too_large now n cs a big (rw e at h))
]

-- Posted while a client wants it, such a notice raises struct.error and leaves the mutex held.
pub post_too_large-held :
    (db : Database) (now : ℕ) (n : Notice) (s : Server db.Store) (a : Atp)
    → s.locked ≡ false
    → IsTooLarge n.msgid
    → any (λ c. wants c n) s.clients ≡ true
    → ((post db now n (s, a)).0 ≡ err struct_error) × ((post db now n (s, a)).1.0.locked ≡ true)
post_too_large-held db now n s a free big wanted =
    let raised : (post db now n (s, a)).0 ≡ err struct_error =
      post-eq-post_each db now s a n free ∙ post_each_too_large now n s.clients a big wanted in
    (raised, locked-post db now s a n free ∙ ap still_held raised)
