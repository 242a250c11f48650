-- ===== src/Notifyd/Tcp/Sequence.antt =====
-- The protocol of a validation: USER, and then one PASS or PASE.
use blitzmail.Common.{
  ℕ, ◌≡◌, refl, Bytes, codes, eq_bytes, eq_bytes→eq, Bool, true, false, not, ◌||◌, List, [], ◌∷◌,
  ◌++◌, Option, none, some, Bool-cases, inl, inr, if◌then◌else◌, ltb, length, ◌⊎◌,
}
use blitzmail.Common.{ℤ}
use blitzmail.Common.Decimal.{int}
use blitzmail.Common.Lines.{upper, readline}
use blitzmail.Errors.{ok, err, attribute_error}
use blitzmail.Notifyd.Db.{Database}
use blitzmail.Notifyd.Directory.{Directory, Outcome, given, refused, raised}
use blitzmail.Notifyd.World.{World}
use blitzmail.Notifyd.Wire.{is_octal24, is_some}
use blitzmail.Notifyd.Tcp.{
  Conn, Io, Done, finally_close, respond, answered, validated, cmd_pase, cmd_pass, perform,
}
use blitzmail.Notifyd.Tcp.Handle.{parse_line, sequenced, turn}

-- PASS and PASE, in letters of either case
abbrev pub IsResponse : Bytes → Type 0
IsResponse cmd = (upper cmd ≡ codes "PASS") ⊎ (upper cmd ≡ codes "PASE")

module _ (db : Database) (dir : Directory) where
  -- no validation is in progress
  abbrev pub IsIdle : Conn dir → Type 0
  IsIdle c = (c.dnd ≡ none) × (c.resp ≡ none)

  dnd-validated : (u : Option ℤ) (io : Io db dir) → (validated db dir u io).1.0.dnd ≡ io.0.dnd
  unfolding validated
  dnd-validated none io = refl
  dnd-validated (some uid) io = refl

  dnd-answered : (o : Outcome Bytes) (io : Io db dir) → (answered db dir o io).1.0.dnd ≡ io.0.dnd
  unfolding answered
  dnd-answered (given t) io = dnd-validated (int t) io
  dnd-answered (refused t) io = refl
  dnd-answered (raised x) io = refl

  -- completing a validation leaves the session with the directory to the `finally`
  dnd-respond :
      (make : Bytes × dir.Answer → Bytes) (r : Option (Bytes × dir.Answer)) (io : Io db dir)
      → (respond db dir make r io).1.0.dnd ≡ io.0.dnd
  unfolding respond
  dnd-respond make none io = refl
  dnd-respond make (some (challenge, q)) io = dnd-answered (dir.answer q (make (challenge, q))) io

  -- Both commands are a body and the `finally`, and the body leaves the session open.
  abbrev IsClosed : Conn dir → Done db dir → Type 0
  IsClosed c r = (d : Done db dir) × (r ≡ finally_close db dir d) × (d.1.0.dnd ≡ c.dnd)

  either :
      (b : Bool) (x y : Done db dir) (io : Io db dir)
      → x.1.0.dnd ≡ io.0.dnd
      → y.1.0.dnd ≡ io.0.dnd
      → (if b then x else y).1.0.dnd ≡ io.0.dnd
  either true x y io p q = p
  either false x y io p q = q

  cmd_pase-IsClosed : (args : List Bytes) (io : Io db dir) → IsClosed io.0 (cmd_pase db dir args io)
  unfolding cmd_pase
  cmd_pase-IsClosed [] io = (_, refl, refl)
  cmd_pase-IsClosed (pw ∷ []) (c, w) =
      (_, refl, either (is_octal24 pw) _ _ (c, w) (dnd-respond (λ r. pw) c.resp (c, w)) refl)
  cmd_pase-IsClosed (pw ∷ more ∷ args) io = (_, refl, refl)

  cmd_pass-IsClosed : (args : List Bytes) (io : Io db dir) → IsClosed io.0 (cmd_pass db dir args io)
  unfolding cmd_pass
  cmd_pass-IsClosed [] io = (_, refl, refl)
  cmd_pass-IsClosed (pw ∷ []) (c, w) =
      (_, refl, either (ltb 8 (length pw)) _ _ (c, w) refl (dnd-respond _ c.resp (c, w)))
  cmd_pass-IsClosed (pw ∷ more ∷ args) io = (_, refl, refl)

  perform_response :
      (now : ℕ) (cmd : Bytes) (args : List Bytes) (io : Io db dir)
      → IsResponse cmd
      → IsClosed io.0 (perform db dir now cmd args io)
  unfolding perform
  perform_response now cmd args io (inl pass) = rw pass (cmd_pass-IsClosed args io)
  perform_response now cmd args io (inr pase) = rw pase (cmd_pase-IsClosed args io)

  closed :
      (r : Done db dir) (dnd : Option dir.Session) (d : dir.Session)
      → dnd ≡ some d
      → r.1.0.dnd ≡ dnd
      → IsIdle (finally_close db dir r).1.0
  unfolding finally_close
  closed (r, (c, w)) dnd d e h = rw (h, e) (refl, refl)

  unclosed :
      (r : Done db dir) (dnd : Option dir.Session)
      → dnd ≡ none
      → r.1.0.dnd ≡ dnd
      → (finally_close db dir r).0 ≡ err attribute_error
  unfolding finally_close
  unclosed (r, (c, w)) dnd e h = rw (h, e)

  -- A PASS or PASE without a USER before it raises AttributeError, which ends the connection, whatever
  -- its arguments; the attempt to catch this in the `finally` clause catches another exception.
  pub perform_unsolicited :
      (now : ℕ) (cmd : Bytes) (args : List Bytes) (c : Conn dir) (w : World db)
      → IsResponse cmd
      → c.dnd ≡ none
      → (perform db dir now cmd args (c, w)).0 ≡ err attribute_error
  perform_unsolicited now cmd args c w response idle =
      let (d, e, h) = perform_response now cmd args (c, w) response in
      rw e (unclosed d c.dnd idle h)

  IsResponse-cases :
      (cmd : Bytes)
      → IsResponse cmd
        ⊎ (not (eq_bytes (upper cmd) (codes "PASS") || eq_bytes (upper cmd) (codes "PASE")) ≡ true)
  IsResponse-cases cmd = elim (Bool-cases (eq_bytes (upper cmd) (codes "PASS"))) [
    | inl pass ↦ inl (inl (eq_bytes→eq _ _ pass))
    | inr other ↦ elim (Bool-cases (eq_bytes (upper cmd) (codes "PASE"))) [
      | inl pase ↦ inl (inr (eq_bytes→eq _ _ pase))
      | inr neither ↦ inr (rw (other, neither))
    ]
  ]

  is_other :
      (cmd : Bytes)
      → ¬ IsResponse cmd
      → not (eq_bytes (upper cmd) (codes "PASS") || eq_bytes (upper cmd) (codes "PASE")) ≡ true
  is_other cmd h = elim (IsResponse-cases cmd) [ inl r ↦ absurd (h r) | inr other ↦ other ]

  as_performed :
      (now : ℕ) (cmd : Bytes) (args : List Bytes) (io : Io db dir)
      → IsResponse cmd
      → sequenced db dir now cmd args io ≡ perform db dir now cmd args io
  unfolding sequenced
  as_performed now cmd args (c, w) (inl pass) = elim (Bool-cases (is_some c.dnd)) [
    | inl e ↦ rw (pass, e)
    | inr e ↦ rw e
  ]
  as_performed now cmd args (c, w) (inr pase) = elim (Bool-cases (is_some c.dnd)) [
    | inl e ↦ rw (pase, e)
    | inr e ↦ rw e
  ]

  -- while a validation is in progress, another command is answered by 503 and not performed
  sequenced_other :
      (now : ℕ) (cmd : Bytes) (args : List Bytes) (c : Conn dir) (w : World db) (d : dir.Session)
      → c.dnd ≡ some d
      → not (eq_bytes (upper cmd) (codes "PASS") || eq_bytes (upper cmd) (codes "PASE")) ≡ true
      → sequenced db dir now cmd args (c, w) ≡ (
        ok tt,
        (
          record c {
            dnd = none;
            resp = none;
            output = c.output ++ codes "503 Bad sequence of commands.\r\n";
          },
          w,
        ),
      )
  unfolding sequenced
  sequenced_other now cmd args c w d busy other = rw (busy, other)

  sequenced_once :
      (now : ℕ) (cmd : Bytes) (args : List Bytes) (c : Conn dir) (w : World db) (d : dir.Session)
      → c.dnd ≡ some d
      → IsIdle (sequenced db dir now cmd args (c, w)).1.0
  sequenced_once now cmd args c w d busy = elim (IsResponse-cases cmd) [
    | inl response ↦
        (let (r, e, h) = perform_response now cmd args (c, w) response in
          rw (as_performed now cmd args (c, w) response, e) (closed r c.dnd d busy h))
    | inr other ↦ rw (sequenced_other now cmd args c w d busy other) (refl, refl)
  ]

  -- A USER allows one attempt: the next turn ends the validation, whatever command it brings and
  -- however that ends.
  pub turn_once :
      (now : ℕ) (c : Conn dir) (w : World db) (d : dir.Session)
      → c.dnd ≡ some d
      → IsIdle (turn db dir now (c, w)).1.0
  unfolding turn
  turn_once now c w d busy =
      sequenced_once now _ _ (record c { input = (readline c.input).1 }) w d busy

  -- If the line after USER is another command than PASS and PASE, then all that happens is that the
  -- line is read and answered by 503: the command is not performed.
  pub turn_other :
      (now : ℕ) (c : Conn dir) (w : World db) (d : dir.Session)
      → c.dnd ≡ some d
      → ¬ IsResponse (parse_line (readline c.input).0).0
      → turn db dir now (c, w) ≡ (
        ok tt,
        (
          record c {
            input = (readline c.input).1;
            output = c.output ++ codes "503 Bad sequence of commands.\r\n";
            dnd = none;
            resp = none;
          },
          w,
        ),
      )
  unfolding turn
  turn_other now c w d busy other =
      sequenced_other now _ _ (record c { input = (readline c.input).1 }) w d busy
        (is_other _ other)
