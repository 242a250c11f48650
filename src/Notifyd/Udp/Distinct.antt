-- ===== src/Notifyd/Udp/Distinct.antt =====
-- No client stands twice in the table, whatever the server does.
use blitzmail.Common.{
  ℕ, ◌≡◌, refl, sym, subst, ◌∙◌, arith, Bytes, Bool, false, List, [], ◌∷◌, ◌++◌, select, any, All,
  All-select, ℤ, if◌then◌else◌, Bool-cases, inl, inr,
}
use blitzmail.Atp.Object.{Atp}
use blitzmail.Notifyd.Db.{Notice, Database}
use blitzmail.Notifyd.Client.{Client, client, same_client}
use blitzmail.Notifyd.Udp.{Server, live, add_client, post, update, write_poll, stop}
use blitzmail.Notifyd.Udp.Lock.{held_blocks}
use blitzmail.Notifyd.Udp.Table.{
  registration, registrations, AreDistinct, registrations-add_client, registrations-post,
  registrations-update,
}

others_to :
    (c : Client) (cs : List Client)
    → All (λ d. same_client c d ≡ false) cs
    → All (λ d. same_client (registration c) d ≡ false) (registrations cs)
unfolding registration client same_client
others_to c [] h = tt
others_to c (d ∷ cs) h = (h.0, others_to c cs h.1)

others_from :
    (c : Client) (cs : List Client)
    → All (λ d. same_client (registration c) d ≡ false) (registrations cs)
    → All (λ d. same_client c d ≡ false) cs
unfolding registration client same_client
others_from c [] h = tt
others_from c (d ∷ cs) h = (h.0, others_from c cs h.1)

distinct_to : (cs : List Client) → AreDistinct cs → AreDistinct (registrations cs)
distinct_to [] h = tt
distinct_to (c ∷ cs) h = (others_to c cs h.0, distinct_to cs h.1)

distinct_from : (cs : List Client) → AreDistinct (registrations cs) → AreDistinct cs
distinct_from [] h = tt
distinct_from (c ∷ cs) h = (others_from c cs h.0, distinct_from cs h.1)

-- Distinctness is a matter of the registrations alone.
AreDistinct-registrations :
    (cs ds : List Client) → registrations ds ≡ registrations cs → AreDistinct cs → AreDistinct ds
AreDistinct-registrations cs ds e h =
    distinct_from ds (subst AreDistinct (sym e) (distinct_to cs h))

AreDistinct-select :
    (p : Client → Bool) (cs : List Client) → AreDistinct cs → AreDistinct (select p cs)
unfolding select
AreDistinct-select p [] h = tt
AreDistinct-select p (c ∷ cs) h = elim (Bool-cases (p c)) [
  | inl e ↦ rw e (All-select (λ d. same_client c d ≡ false) p cs h.0, AreDistinct-select p cs h.1)
  | inr e ↦ rw e (AreDistinct-select p cs h.1)
]

others_append :
    (c new : Client) (cs : List Client)
    → All (λ d. same_client c d ≡ false) cs
    → same_client c new ≡ false
    → All (λ d. same_client c d ≡ false) (cs ++ new ∷ [])
others_append c new [] h e = (e, tt)
others_append c new (d ∷ cs) h e = (h.0, others_append c new cs h.1 e)

AreDistinct-append :
    (new : Client) (cs : List Client)
    → AreDistinct cs
    → any (λ c. same_client c new) cs ≡ false
    → AreDistinct (cs ++ new ∷ [])
AreDistinct-append new [] h e = (tt, tt)
AreDistinct-append new (c ∷ cs) h e =
    (others_append c new cs h.0 (ground arith), AreDistinct-append new cs h.1 (ground arith))

any-registrations :
    (new : Client) (cs : List Client)
    → any (λ c. same_client c new) (registrations cs) ≡ any (λ c. same_client c new) cs
unfolding registration client same_client
any-registrations new [] = refl
any-registrations new (c ∷ cs) = ground (arith, any-registrations new cs)

added :
    (new : Client) (cs : List Client)
    → AreDistinct cs
    → AreDistinct
        (if any (λ c. same_client c new) cs then registrations cs else registrations cs ++ new ∷ [])
added new cs h = elim (Bool-cases (any (λ c. same_client c new) cs)) [
  | inl e ↦ rw e (distinct_to cs h)
  | inr e ↦
      rw e (
        AreDistinct-append new (registrations cs) (distinct_to cs h) (any-registrations new cs ∙ e))
]

module _ (db : Database) (now : ℕ) (s : Server db.Store) (a : Atp) (h : AreDistinct s.clients) where
  pub add_client-AreDistinct :
      (uid : ℤ) (ip : Bytes) (port : ℤ) (svcs : List ℤ)
      → AreDistinct (add_client db now uid ip port svcs (s, a)).1.0.clients
  add_client-AreDistinct uid ip port svcs = elim (Bool-cases s.locked) [
    | inl held ↦ rw ((held_blocks db now s a held).0 uid ip port svcs) h
    | inr free ↦ distinct_from _ (
        rw (registrations-add_client db now uid ip port svcs s a free)
          (added (client uid ip port svcs) s.clients h))
  ]

  pub post-AreDistinct : (n : Notice) → AreDistinct (post db now n (s, a)).1.0.clients
  post-AreDistinct n = AreDistinct-registrations s.clients _ (registrations-post db now n s a) h

  pub update-AreDistinct : (ip : Bytes) (port : ℤ) → AreDistinct (update db now ip port s).1.clients
  update-AreDistinct ip port =
      AreDistinct-registrations s.clients _ (registrations-update db now ip port s) h

  pub write_poll-AreDistinct : AreDistinct (write_poll db now (s, a)).1.0.clients
  unfolding write_poll live
  write_poll-AreDistinct = elim (Bool-cases s.locked) [
    | inl held ↦ rw held h
    | inr free ↦ rw free (AreDistinct-select _ s.clients h)
  ]

  pub stop-AreDistinct : AreDistinct (stop db now (s, a)).1.0.clients
  unfolding stop
  stop-AreDistinct = elim (Bool-cases s.locked) [ inl held ↦ rw held h | inr free ↦ rw free h ]
