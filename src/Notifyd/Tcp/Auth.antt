-- ===== src/Notifyd/Tcp/Auth.antt =====
-- Who is the validated user: the one that the directory named last, for every connection at once.
use blitzmail.Common.{
  ℕ, ◌≡◌, refl, sym, subst, Bytes, codes, eq_bytes, Bool, true, false, List, [], ◌∷◌, Option, none,
  some, ℤ, if◌then◌else◌, Bool-cases, inl, inr, length, ltb,
}
use blitzmail.Common.Decimal.{int}
use blitzmail.Common.Lines.{upper}
use blitzmail.Notifyd.Db.{Database}
use blitzmail.Notifyd.Directory.{Directory, Outcome, given, refused, raised}
use blitzmail.Notifyd.World.{clear, notify}
use blitzmail.Notifyd.Wire.{is_octal24}
use blitzmail.Notifyd.Tcp.{
  Io, Done, cmd_unknown, cmd_quit, cmd_noop, cmd_clear, cmd_notify, cmd_user, validated, answered,
  respond, cmd_pase, cmd_pass, cmd_client, cmd_list, perform,
}
use blitzmail.Notifyd.Tcp.Handle.{sequenced, turn}
use blitzmail.Notifyd.Tcp.Kept.{
  auth-cmd_clear, auth-cmd_notify, auth-cmd_user, auth-finally_close, auth-cmd_client,
  auth-cmd_list,
}

-- what holds of both ways of a test holds of the test; the first may use that the test succeeded
choose :
    (test : Bool) {A : Type 0} (P : A → Type 0) {v w : A} → P v → P w → P (if test then v else w)
choose true P pass fail = pass
choose false P pass fail = fail

choose_if :
    (test : Bool) {A : Type 0} (P : A → Type 0) {v w : A}
    → (test ≡ true → P v)
    → P w
    → P (if test then v else w)
choose_if true P pass fail = pass refl
choose_if false P pass fail = fail

-- the directory has answered some response with this user
abbrev pub IsValidated : Directory → Option ℤ → Type 0
IsValidated dir none = Unit
IsValidated dir (some uid) =
    (q : dir.Answer) × (pw t : Bytes) × (dir.answer q pw ≡ given t) × (int t ≡ some uid)

module _ (db : Database) (dir : Directory) where
  -- the validated user that a handler leaves
  abbrev user_of : Done db dir → Option ℤ
  user_of d = d.1.1.auth

  -- a completed validation names the user that the directory gave
  respond-IsValidated :
      (make : Bytes × dir.Answer → Bytes) (r : Option (Bytes × dir.Answer)) (io : Io db dir)
      → IsValidated dir io.1.auth
      → IsValidated dir (user_of (respond db dir make r io))
  unfolding respond answered validated
  respond-IsValidated make none io h = h
  respond-IsValidated make (some (challenge, q)) (c, w) h =
      go (dir.answer q (make (challenge, q))) refl
    where
      named :
          (t : Bytes) (u : Option ℤ)
          → dir.answer q (make (challenge, q)) ≡ given t
          → int t ≡ u
          → IsValidated dir (user_of (validated db dir u (c, w)))
      named t none e i = h
      named t (some uid) e i = (q, make (challenge, q), t, e, i)

      go :
          (o : Outcome Bytes)
          → dir.answer q (make (challenge, q)) ≡ o
          → IsValidated dir (user_of (answered db dir o (c, w)))
      go (given t) e = named t (int t) e refl
      go (refused t) e = h
      go (raised x) e = h

  cmd_pase-IsValidated :
      (args : List Bytes) (io : Io db dir)
      → IsValidated dir io.1.auth
      → IsValidated dir (user_of (cmd_pase db dir args io))
  unfolding cmd_pase
  cmd_pase-IsValidated [] io h = rw (auth-finally_close db dir) h
  cmd_pase-IsValidated (pw ∷ []) (c, w) h = elim (Bool-cases (is_octal24 pw)) [
    | inl e ↦ rw (auth-finally_close, e) (respond-IsValidated (λ r. pw) c.resp (c, w) h)
    | inr e ↦ rw (auth-finally_close, e) h
  ]
  cmd_pase-IsValidated (pw ∷ more ∷ args) io h = rw (auth-finally_close db dir) h

  cmd_pass-IsValidated :
      (args : List Bytes) (io : Io db dir)
      → IsValidated dir io.1.auth
      → IsValidated dir (user_of (cmd_pass db dir args io))
  unfolding cmd_pass
  cmd_pass-IsValidated [] io h = rw (auth-finally_close db dir) h
  cmd_pass-IsValidated (pw ∷ []) (c, w) h = elim (Bool-cases (ltb 8 (length pw))) [
    | inl e ↦ rw (auth-finally_close, e) h
    | inr e ↦
        rw (auth-finally_close, e)
          (respond-IsValidated (λ r. dir.encrypt_challenge r.0 pw) c.resp (c, w) h)
  ]
  cmd_pass-IsValidated (pw ∷ more ∷ args) io h = rw (auth-finally_close db dir) h

  -- the choice of a handler by name
  pub perform-cases :
      (P : Done db dir → Type 0) (now : ℕ) (cmd : Bytes) (args : List Bytes) (io : Io db dir)
      → P (cmd_quit db dir io)
      → P (cmd_noop db dir io)
      → P (cmd_clear db dir args io)
      → P (cmd_notify db dir now args io)
      → P (cmd_user db dir now args io)
      → (eq_bytes (upper cmd) (codes "PASE") ≡ true → P (cmd_pase db dir args io))
      → (eq_bytes (upper cmd) (codes "PASS") ≡ true → P (cmd_pass db dir args io))
      → P (cmd_client db dir now args io)
      → P (cmd_list db dir now args io)
      → P (cmd_unknown db dir cmd io)
      → P (perform db dir now cmd args io)
  unfolding perform
  perform-cases P now cmd args io quit noop clear notify user pase pass client list other =
      choose _ P quit (
        choose _ P noop (
          choose _ P clear (
            choose _ P notify (
              choose _ P user (
                choose_if _ P pase
                  (choose_if _ P pass (choose _ P client (choose _ P list other))))))))

  perform-IsValidated :
      (now : ℕ) (cmd : Bytes) (args : List Bytes) (io : Io db dir)
      → IsValidated dir io.1.auth
      → IsValidated dir (user_of (perform db dir now cmd args io))
  unfolding cmd_quit cmd_noop cmd_unknown
  perform-IsValidated now cmd args io h =
      perform-cases (λ d. IsValidated dir (user_of d)) now cmd args io tt h
        (subst (IsValidated dir) (sym (auth-cmd_clear db dir args io)) h)
        (subst (IsValidated dir) (sym (auth-cmd_notify db dir now args io)) h)
        (subst (IsValidated dir) (sym (auth-cmd_user db dir now args io)) h)
        (λ e. cmd_pase-IsValidated args io h) (λ e. cmd_pass-IsValidated args io h)
        (subst (IsValidated dir) (sym (auth-cmd_client db dir now args io)) h)
        (subst (IsValidated dir) (sym (auth-cmd_list db dir now args io)) h) h

  -- One turn of any connection leaves a user that the directory has validated, or none.
  pub turn-IsValidated :
      (now : ℕ) (io : Io db dir)
      → IsValidated dir io.1.auth
      → IsValidated dir (user_of (turn db dir now io))
  unfolding turn sequenced
  turn-IsValidated now (c, w) h =
      choose _ (λ d. IsValidated dir (user_of d)) h (perform-IsValidated now _ _ _ h)
