-- ===== src/Notifyd/Tcp/Kept.antt =====
-- The commands that leave the validated user as it was.
use blitzmail.Common.{
  ℕ, ◌≡◌, refl, ◌∙◌, arith, Bytes, codes, eq_bytes, Bool, List, [], ◌∷◌, Option, none, some, ℤ,
  Bool-cases, inl, inr, length, ◌==◌,
}
use blitzmail.Common.Decimal.{int}
use blitzmail.Common.Lines.{lower}
use blitzmail.Errors.{Result, ok, err}
use blitzmail.Notifyd.Db.{Database}
use blitzmail.Notifyd.Client.{Client}
use blitzmail.Notifyd.Directory.{Directory, Outcome, given, refused, raised}
use blitzmail.Notifyd.World.{World, check_perms, clear, clients, add_client_tcp, notify}
use blitzmail.Notifyd.Wire.{ints, may_not_broadcast}
use blitzmail.Notifyd.Tcp.{
  Conn, Io, Done, told, cleared, cmd_clear, notified, cmd_notify, begun, connected, cmd_user,
  finally_close, enrolled, with_client, cmd_client, listed, list_key, with_list, cmd_list,
  list_notices,
}

module _ (db : Database) where
  auth-notify :
      (now : ℕ) (uid type msgid : ℤ) (sticky : Bool) (content : Option Bytes) (w : World db)
      → (notify now uid type msgid sticky content w).1.auth ≡ w.auth
  unfolding notify
  auth-notify now uid type msgid sticky content w = ground arith

  auth-add_client_tcp :
      (now : ℕ) (uid : ℤ) (ip : Bytes) (port : ℤ) (svcs : List ℤ) (w : World db)
      → (add_client_tcp now uid ip port svcs w).1.auth ≡ w.auth
  unfolding add_client_tcp
  auth-add_client_tcp now uid ip port svcs w = ground arith

module _ (db : Database) (dir : Directory) where
  -- the user of the world after a handler
  abbrev pub auth_of : Done db dir → Option ℤ
  auth_of d = d.1.1.auth

  auth-told :
      (t : Bytes) (c : Conn dir) (r : Result (Unit {0}) × World db)
      → auth_of (told db dir t c r) ≡ r.1.auth
  auth-told t c (ok u, w) = refl
  auth-told t c (err x, w) = refl

  pub auth-cmd_clear :
      (args : List Bytes) (io : Io db dir) → auth_of (cmd_clear db dir args io) ≡ io.1.auth
  unfolding cmd_clear cleared clear
  auth-cmd_clear args (c, w) = ground arith

  auth-notified :
      (now : ℕ) (zs : Option (List ℤ)) (io : Io db dir)
      → auth_of (notified db dir now zs io) ≡ io.1.auth
  unfolding notified
  auth-notified now (some (len ∷ uid ∷ type ∷ msgid ∷ sticky ∷ [])) (c, w) =
      elim (Bool-cases (may_not_broadcast uid w)) [
        | inl e ↦ rw e
        | inr e ↦ rw e (auth-told (codes "200 Ok.") _ _ ∙ auth-notify db now uid type msgid _ _ w)
      ]
  auth-notified now none io = refl
  auth-notified now (some []) io = refl
  auth-notified now (some (a ∷ [])) io = refl
  auth-notified now (some (a ∷ b ∷ [])) io = refl
  auth-notified now (some (a ∷ b ∷ c ∷ [])) io = refl
  auth-notified now (some (a ∷ b ∷ c ∷ d ∷ [])) io = refl
  auth-notified now (some (a ∷ b ∷ c ∷ d ∷ e ∷ f ∷ g)) io = refl

  pub auth-cmd_notify :
      (now : ℕ) (args : List Bytes) (io : Io db dir)
      → auth_of (cmd_notify db dir now args io) ≡ io.1.auth
  unfolding cmd_notify
  auth-cmd_notify now args io = elim (Bool-cases (length args == 5)) [
    | inl five ↦ rw five (auth-notified now (ints args) io)
    | inr other ↦ rw other
  ]

  auth-begun :
      (d : dir.Session) (r : Outcome (Bytes × dir.Answer)) (io : Io db dir)
      → auth_of (begun db dir d r io) ≡ io.1.auth
  unfolding begun
  auth-begun d (given r) (c, w) = refl
  auth-begun d (refused t) (c, w) = ground arith
  auth-begun d (raised x) (c, w) = refl

  pub auth-cmd_user :
      (now : ℕ) (args : List Bytes) (io : Io db dir)
      → auth_of (cmd_user db dir now args io) ≡ io.1.auth
  unfolding cmd_user connected
  auth-cmd_user now [] io = refl
  auth-cmd_user now (name ∷ []) io = go (dir.connect now)
    where
      go : (o : Option dir.Session) → auth_of (connected db dir o name io) ≡ io.1.auth
      go none = refl
      go (some d) = auth-begun d (dir.begin_validate d name) io
  auth-cmd_user now (name ∷ more ∷ args) io = refl

  pub auth-finally_close : (d : Done db dir) → auth_of (finally_close db dir d) ≡ auth_of d
  unfolding finally_close
  auth-finally_close (r, (c, w)) = ground arith

  auth-with_client :
      (now : ℕ) (args : List Bytes) (io : Io db dir)
      → auth_of (with_client db dir now args io) ≡ io.1.auth
  unfolding with_client enrolled
  auth-with_client now [] io = refl
  auth-with_client now (a ∷ []) io = refl
  auth-with_client now (a ∷ b ∷ []) io = refl
  auth-with_client now (a ∷ b ∷ c ∷ []) io = refl
  auth-with_client now (uid ∷ ip ∷ port ∷ svc ∷ svcs) (c, w) =
      go (int uid) (ints (svc ∷ svcs)) (int port)
    where
      go :
          (u : Option ℤ) (s : Option (List ℤ)) (p : Option ℤ)
          → auth_of (enrolled db dir now ip u s p (c, w)) ≡ w.auth
      go none s p = refl
      go (some u) none p = refl
      go (some u) (some s) none = refl
      go (some u) (some s) (some p) =
          auth-told (codes "200 Ok.") c _ ∙ auth-add_client_tcp db now u ip p s w

  pub auth-cmd_client :
      (now : ℕ) (args : List Bytes) (io : Io db dir)
      → auth_of (cmd_client db dir now args io) ≡ io.1.auth
  unfolding cmd_client
  auth-cmd_client now args (c, w) = elim (Bool-cases (check_perms (codes "client") w)) [
    | inl e ↦ rw e (auth-with_client now args (c, w))
    | inr e ↦ rw e
  ]

  auth-listed :
      (now : ℕ) (io : Io db dir) (r : Result (List Client))
      → auth_of (listed db dir now io r) ≡ io.1.auth
  unfolding listed
  auth-listed now io (ok cs) = refl
  auth-listed now io (err x) = refl

  auth-list_key :
      (now : ℕ) (key : Bytes) (io : Io db dir) → auth_of (list_key db dir now key io) ≡ io.1.auth
  unfolding list_key list_notices
  auth-list_key now key io = elim (Bool-cases (eq_bytes key (codes "notices"))) [
    | inl e ↦ rw e
    | inr e ↦ elim (Bool-cases (eq_bytes key (codes "clients"))) [
      | inl f ↦ rw (e, f) (auth-listed now io (clients io.1))
      | inr f ↦ elim (Bool-cases (eq_bytes key (codes "all"))) [
        | inl g ↦ rw (e, f, g) (auth-listed now (list_notices db dir io) (clients io.1))
        | inr g ↦ rw (e, f, g)
      ]
    ]
  ]

  pub auth-cmd_list :
      (now : ℕ) (args : List Bytes) (io : Io db dir)
      → auth_of (cmd_list db dir now args io) ≡ io.1.auth
  unfolding cmd_list with_list
  auth-cmd_list now args (c, w) = elim (Bool-cases (check_perms (codes "list") w)) [
    | inl e ↦ rw e (go args)
    | inr e ↦ rw e
  ]
    where
      go : (args : List Bytes) → auth_of (with_list db dir now args (c, w)) ≡ w.auth
      go [] = refl
      go (key ∷ []) = auth-list_key now (lower key) (c, w)
      go (key ∷ more ∷ args) = refl
