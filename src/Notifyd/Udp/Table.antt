-- ===== src/Notifyd/Udp/Table.antt =====
-- Which registrations the table holds: each user, address and port once.
use blitzmail.Common.{
  ℕ, ◌≡◌, refl, sym, ap, ap₂, ◌∙◌, arith, Bytes, false, ◌&&◌, List, [], ◌∷◌, ◌++◌, map, map-append,
  any, All, ℤ, if◌then◌else◌, Bool-cases, inl, inr, eq_ℤ, eq_bytes,
}
use blitzmail.Errors.{Result-cases}
use blitzmail.Atp.Object.{Atp}
use blitzmail.Notifyd.Db.{Notice, Database, notices}
use blitzmail.Notifyd.Client.{Client, client, sendmark, recvmark, same_client, wants}
use blitzmail.Notifyd.Udp.{
  Server, offer, send_sticky, enrol, post_each, update_each, add_client, post, update,
}

-- a client without the marks of time
unfoldable pub registration : Client → Client
unfolding client
registration c = client c.uid c.ip c.port c.svcs

abbrev pub registrations : List Client → List Client
registrations = map registration

-- no two clients of the table are equal
abbrev pub AreDistinct : List Client → Type 0
AreDistinct [] = Unit
AreDistinct (c ∷ cs) = All (λ d. same_client c d ≡ false) cs × AreDistinct cs

registration-sendmark : (now : ℕ) (c : Client) → registration (sendmark now c) ≡ registration c
unfolding registration sendmark
registration-sendmark now c = refl

registration-recvmark : (now : ℕ) (c : Client) → registration (recvmark now c) ≡ registration c
unfolding registration recvmark
registration-recvmark now c = refl

registration-send_sticky :
    (now : ℕ) (c : Client) (ns : List Notice) (a : Atp)
    → registration (send_sticky now c ns a).1 ≡ registration c
unfolding send_sticky
registration-send_sticky now c [] a = refl
registration-send_sticky now c (n ∷ ns) a = elim (Bool-cases (wants c n)) [
  | inl e ↦ elim (Result-cases (offer now c n a)) [
    | inl (a', made) ↦
        rw (e, made, send_sticky)
          (registration-send_sticky now (sendmark now c) ns a' ∙ registration-sendmark now c)
    | inr (x, failed) ↦ rw (e, failed, send_sticky)
  ]
  | inr e ↦ rw (e, send_sticky) (registration-send_sticky now c ns a)
]

registrations-post_each :
    (now : ℕ) (n : Notice) (cs : List Client) (a : Atp)
    → registrations (post_each now n cs a).1 ≡ registrations cs
unfolding post_each
registrations-post_each now n [] a = refl
registrations-post_each now n (c ∷ cs) a = elim (Bool-cases (wants c n)) [
  | inl e ↦ elim (Result-cases (offer now c n a)) [
    | inl (a', made) ↦
        rw (e, made, post_each)
          (ap₂ ◌∷◌ (registration-sendmark now c) (registrations-post_each now n cs a'))
    | inr (x, failed) ↦ rw (e, failed, post_each)
  ]
  | inr e ↦ rw (e, post_each) (ap (λ t. registration c ∷ t) (registrations-post_each now n cs a))
]

registrations-update_each :
    (now : ℕ) (ip : Bytes) (port : ℤ) (cs : List Client)
    → registrations (update_each now ip port cs) ≡ registrations cs
unfolding update_each
registrations-update_each now ip port [] = refl
registrations-update_each now ip port (c ∷ cs) =
    elim (Bool-cases (eq_bytes c.ip ip && eq_ℤ c.port port)) [
      | inl e ↦
          rw e (ap₂ ◌∷◌ (registration-recvmark now c) (registrations-update_each now ip port cs))
      | inr e ↦ rw e (ap (λ t. registration c ∷ t) (registrations-update_each now ip port cs))
    ]

-- the table that `enrol` leaves
abbrev table : List Client × Client × List Client → List Client
table (before, out, after) = before ++ out ∷ after

registrations-enrol :
    (now : ℕ) (new : Client) (cs : List Client)
    → registrations (table (enrol now new cs)) ≡ (
        if any (λ c. same_client c new) cs
        then registrations cs
        else registrations cs ++ registration new ∷ [])
unfolding enrol
registrations-enrol now new [] = refl
registrations-enrol now new (c ∷ cs) = elim (Bool-cases (same_client c new)) [
  | inl e ↦ rw e (ap (λ t. t ∷ registrations cs) (registration-recvmark now c))
  | inr e ↦ rw e (ground (arith, registrations-enrol now new cs))
]

replaced :
    (before after : List Client) (out out' : Client)
    → registration out' ≡ registration out
    → registrations (before ++ out' ∷ after) ≡ registrations (before ++ out ∷ after)
replaced before after out out' e =
    map-append registration before (out' ∷ after)
    ∙ ap (λ r. registrations before ++ (r ∷ registrations after)) e
    ∙ sym (map-append registration before (out ∷ after))

module _ (db : Database) (now : ℕ) where
  -- the client that a registration makes, and the table and the notices that go with it
  abbrev newcomer : ℤ → Bytes → ℤ → List ℤ → Client
  newcomer uid ip port svcs = recvmark now (sendmark now (client uid ip port svcs))

  clients-add_client :
      (uid : ℤ) (ip : Bytes) (port : ℤ) (svcs : List ℤ) (s : Server db.Store) (a : Atp)
      → s.locked ≡ false
      → (add_client db now uid ip port svcs (s, a)).1.0.clients ≡ (
          let (before, out, after) = enrol now (newcomer uid ip port svcs) s.clients in
          before ++ (send_sticky now out (notices db s.db) a).1 ∷ after)
  unfolding add_client
  clients-add_client uid ip port svcs s a free =
      let out = (enrol now (newcomer uid ip port svcs) s.clients).1 in
      elim (Result-cases (send_sticky now out (notices db s.db) a).0) [
        | inl (u, e) ↦ rw (free, e)
        | inr (x, e) ↦ rw (free, e)
      ]

  -- A client that registers is added at the end of the table, unless a client of the same user,
  -- address and port is there: then the registrations stay as they are, whatever services the new
  -- one names. So it is also where the call raises.
  pub registrations-add_client :
      (uid : ℤ) (ip : Bytes) (port : ℤ) (svcs : List ℤ) (s : Server db.Store) (a : Atp)
      → s.locked ≡ false
      → registrations (add_client db now uid ip port svcs (s, a)).1.0.clients ≡ (
          if any (λ c. same_client c (client uid ip port svcs)) s.clients
          then registrations s.clients
          else registrations s.clients ++ client uid ip port svcs ∷ [])
  unfolding same_client sendmark recvmark client registration
  registrations-add_client uid ip port svcs s a free =
      let new = newcomer uid ip port svcs in
      let (before, out, after) = enrol now new s.clients in
      ap registrations (clients-add_client uid ip port svcs s a free)
      ∙ replaced before after out (send_sticky now out (notices db s.db) a).1
          (registration-send_sticky now out (notices db s.db) a)
      ∙ registrations-enrol now new s.clients

  pub registrations-post :
      (n : Notice) (s : Server db.Store) (a : Atp)
      → registrations (post db now n (s, a)).1.0.clients ≡ registrations s.clients
  unfolding post
  registrations-post n s a = elim (Bool-cases s.locked) [
    | inl held ↦ rw held
    | inr free ↦ rw free (registrations-post_each now n s.clients a)
  ]

  pub registrations-update :
      (ip : Bytes) (port : ℤ) (s : Server db.Store)
      → registrations (update db now ip port s).1.clients ≡ registrations s.clients
  unfolding update
  registrations-update ip port s = elim (Bool-cases s.locked) [
    | inl held ↦ rw held
    | inr free ↦ rw free (registrations-update_each now ip port s.clients)
  ]
