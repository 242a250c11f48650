-- ===== src/Notifyd/Tcp/Reach.antt =====
-- What the threads of all connections, the reader and the writer can make of the shared state.
use blitzmail.Common.{ℕ, ◌≡◌, refl, subst, codes, true, Option, none, some, ℤ, eq_ℤ→eq, Bytes}
use blitzmail.Common.Decimal.{int}
use blitzmail.Notifyd.Db.{Database}
use blitzmail.Notifyd.Directory.{Directory, given}
use blitzmail.Notifyd.Udp.Run.{Event, happen}
use blitzmail.Notifyd.World.{World, check_perms, is_privileged}
use blitzmail.Notifyd.Tcp.{Conn}
use blitzmail.Notifyd.Tcp.Handle.{turn}
use blitzmail.Notifyd.Tcp.Auth.{IsValidated, turn-IsValidated}

module _ (db : Database) (dir : Directory) where
  -- One step: a turn of some connection, whatever its own state, or an event at the UDP server.
  pub data Step : World db → World db → Type 0 where
    served : (now : ℕ) (c : Conn dir) (w : World db) → Step w (turn db dir now (c, w)).1.1
    happened : (e : Event) (w : World db) → Step w (record w { udp = happen db e w.udp })

  pub data Reaches : World db → World db → Type 0 where
    here : {w : World db} → Reaches w w
    next : {w v u : World db} → Reaches w v → Step v u → Reaches w u

  Step-IsValidated : {w v : World db} → Step w v → IsValidated dir w.auth → IsValidated dir v.auth
  Step-IsValidated (served now c w) h = turn-IsValidated db dir now (c, w) h
  Step-IsValidated (happened e w) h = h

  pub Reaches-IsValidated :
      {w v : World db} → Reaches w v → IsValidated dir w.auth → IsValidated dir v.auth
  Reaches-IsValidated here h = h
  Reaches-IsValidated (next r s) h = Step-IsValidated s (Reaches-IsValidated r h)

  -- the privileged user, if that is the one validated last
  privileged :
      (adm auth : Option ℤ)
      → IsValidated dir auth
      → is_privileged adm auth ≡ true
      → (uid : ℤ) × (adm ≡ some uid)
        × ((q : dir.Answer) × (pw t : Bytes) × (dir.answer q pw ≡ given t) × (int t ≡ some uid))
  unfolding is_privileged
  privileged none auth h p = cc
  privileged (some adm) none h p = cc
  privileged (some adm) (some auth) h p =
      (adm, refl, subst (λ u. IsValidated dir (some u)) (eq_ℤ→eq auth adm p) h)

  -- In a server where no user was validated at first, nobody may broadcast, whatever commands any
  -- connections send and whatever arrives by UDP, until the directory has accepted a response with
  -- the identifier of the privileged user.
  pub broadcast_IsValidated :
      {w v : World db}
      → Reaches w v
      → w.auth ≡ none
      → check_perms (codes "broadcast") v ≡ true
      → (uid : ℤ) × (v.adm ≡ some uid)
        × ((q : dir.Answer) × (pw t : Bytes) × (dir.answer q pw ≡ given t) × (int t ≡ some uid))
  unfolding check_perms
  broadcast_IsValidated {v} r fresh p =
      privileged v.adm v.auth (Reaches-IsValidated r (rw fresh tt)) p
