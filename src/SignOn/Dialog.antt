-- ===== src/SignOn/Dialog.antt =====
-- The dialog of a client that signs on.
use blitzmail.Common.{
  ℕ, ◌+◌, ◌*◌, ◌<◌, ◌≡◌, ◌≢◌, refl, ap, ◌∙◌, arith, Bytes, codes, Bool, true, false, not, ◌==◌, [],
  ◌∷◌, ◌++◌, Option, none, some, pos, if◌then◌else◌, Bool-cases, inl, inr,
}
use blitzmail.Errors.{ok, err, value_error, session_error, protocol_error}
use blitzmail.Link.Answer.{IsLine}
use blitzmail.Blitz.Online.{online, says, tell-online, hear-says, hear-unwanted, expect_value-says}
use blitzmail.Link.{shut}
use blitzmail.SignOn.{
  Account, is_connected, forgotten, quit, close, Network, peer, unreachable, Push, never, always,
  ask, connect, client_version, wants_push, busy, admitted, greet, dial, reconnect, sign_on,
}

abbrev pub greeting : (Bytes → Bytes → Bytes) → Bytes → Bytes → Bytes → Bytes → Bytes
greeting encrypt uid password challenge sent =
    ((sent ++ (codes "VERS " ++ client_version ++ codes "\n"))
      ++ (codes "UID# " ++ uid ++ codes "\n"))
    ++ (codes "PASE " ++ encrypt challenge password ++ codes "\n")

module _ (encrypt : Bytes → Bytes → Bytes) (uid password version challenge : Bytes) (w : ℕ)
    (hw : w < 10) (hv : IsLine version) (hc : IsLine challenge) where
  greet_lem :
      (push : Push) (a : Account) (rest sent : Bytes) (warn : Bool)
      → greet encrypt push uid password (record a {
        session = online (says w 10 version ++ (says w 33 challenge ++ rest)) sent warn;
      })
        ≡ admitted push (record a {
          session = online rest (greeting encrypt uid password challenge sent) (not (w == 0));
          blitzserv = some version;
        })
  unfolding greet
  greet_lem push a rest sent warn =
      let vers = codes "VERS " ++ client_version ++ codes "\n" in
      let id = codes "UID# " ++ uid ++ codes "\n" in
      let flag = not (w == 0) in
      rw (
        tell-online,
        hear-says w 10 version (says w 33 challenge ++ rest) (sent ++ vers) warn hw (omega arith) hv
            refl,
        tell-online,
        hear-says w 33 challenge rest ((sent ++ vers) ++ id) flag hw (omega arith) hc refl,
        tell-online,
      )

  -- an account that is not connected, whose user the directory has named
  abbrev pub away : Account → Bytes → Bool → Account
  away a sent warn = record a {
    session = record {
      link = record { is_connected = false; input = []; sent = sent };
      warn_flag = warn;
    };
    half_open = false;
    user_info = some (record { password = password; uid = some uid });
  }

  abbrev pub arrived : Account → Bytes → Bytes → Account
  arrived a rest sent = record a {
    session = online rest sent (not (w == 0));
    half_open = false;
    user_info = some (record { password = password; uid = some uid });
    blitzserv = some version;
    gl_cache = none;
    pl_cache = none;
    fl_cache = none;
    session_id = none;
  }

  reconnect-greeted :
      (push : Push) (a : Account) (rest sent : Bytes) (warn : Bool)
      → reconnect encrypt
          (peer (says w 10 version ++ (says w 33 challenge ++ rest)))
          push
          (away a sent warn)
        ≡ admitted push (arrived a rest (greeting encrypt uid password challenge sent))
  unfolding reconnect dial close connect shut
  reconnect-greeted push a rest sent warn =
      greet_lem push (forgotten (away a sent warn)) rest sent false

  admitted_30 :
      (push : Push) (a : Account) (text rest sent : Bytes)
      → IsLine text
      → admitted push (arrived a (says w 30 text ++ rest) sent) ≡ (ok tt, arrived a rest sent)
  unfolding admitted
  admitted_30 never a text rest sent line =
      rw (hear-says w 30 text rest sent (not (w == 0)) hw (omega arith) line refl)
  admitted_30 always a text rest sent line = rw (
      expect_value-says (30 ∷ 34 ∷ []) w 30 text rest sent (not (w == 0)) hw (omega arith) line
        refl)
  admitted_30 (ask decide) a text rest sent line = rw (
      expect_value-says (30 ∷ 34 ∷ []) w 30 text rest sent (not (w == 0)) hw (omega arith) line
        refl)

  admitted_34 :
      (push : Push) (a : Account) (text rest sent : Bytes)
      → push ≢ never
      → IsLine text
      → admitted push (arrived a (says w 34 text ++ rest) sent)
        ≡ busy push (34, text) (arrived a rest sent)
  unfolding admitted
  admitted_34 never a text rest sent some_push line = absurd (some_push refl)
  admitted_34 always a text rest sent some_push line = rw (
      expect_value-says (30 ∷ 34 ∷ []) w 34 text rest sent (not (w == 0)) hw (omega arith) line
        refl)
  admitted_34 (ask decide) a text rest sent some_push line = rw (
      expect_value-says (30 ∷ 34 ∷ []) w 34 text rest sent (not (w == 0)) hw (omega arith) line
        refl)

  quit_10 :
      (done rest sent : Bytes) (warn : Bool)
      → IsLine done
      → quit (online (says w 10 done ++ rest) sent warn)
        ≡ (ok tt, online rest (sent ++ codes "QUIT\n") (not (w == 0)))
  unfolding quit
  quit_10 done rest sent warn line = rw (
    tell-online,
    hear-says w 10 done rest (sent ++ codes "QUIT\n") warn hw (omega arith) line refl,
  )

  module _ (a : Account) (text rest sent : Bytes) (warn : Bool) (line : IsLine text) where
    abbrev pub said : ℕ → Bytes → Network
    said n more = peer (says w 10 version ++ (says w 33 challenge ++ (says w n text ++ more)))

    abbrev pub greeted : Bytes
    greeted = greeting encrypt uid password challenge sent

    -- With a server that accepts the password, reconnect succeeds whatever push_off is: it has sent
    -- its version, the user's number and the encrypted challenge, each after the answer before it,
    -- and keeps the server's version; the session is as new, with no cache and no more than that.
    pub reconnect_accepted :
        (push : Push)
        → reconnect encrypt (said 30 rest) push (away a sent warn) ≡ (ok tt, arrived a rest greeted)
    reconnect_accepted push =
        reconnect-greeted push a (says w 30 text ++ rest) sent warn
        ∙ admitted_30 push a text rest greeted line

    -- the account after the session was abandoned
    abbrev pub abandoned : Account
    abandoned = record (away a (greeted ++ codes "QUIT\n") false) {
      blitzserv = none;
      gl_cache = none;
      pl_cache = none;
      fl_cache = none;
      session_id = none;
    }

    -- With an account that is in use, reconnect asks what push_off says of the server's text: if it
    -- is true the other client is pushed off and the session stands; if it is false the session is
    -- closed and forgotten, and the answer is raised as ProtocolError. The server answers PUSH and
    -- QUIT with 10; push_off is true or a function.
    pub reconnect_busy :
        (push : Push) (done : Bytes)
        → push ≢ never
        → IsLine done
        → reconnect encrypt (said 34 (says w 10 done ++ rest)) push (away a sent warn) ≡ (
            if wants_push push text
            then (ok tt, arrived a rest (greeted ++ codes "PUSH\n"))
            else (err (protocol_error (pos 34) text), abandoned))
    unfolding busy close shut
    reconnect_busy push done some_push line' =
        reconnect-greeted push a (says w 34 text ++ (says w 10 done ++ rest)) sent warn
        ∙ admitted_34 push a text (says w 10 done ++ rest) greeted some_push line
        ∙ elim (Bool-cases (wants_push push text)) [
          | inl yes_push ↦ rw (
            yes_push,
            tell-online,
            hear-says w 10 done rest (greeted ++ codes "PUSH\n") (not (w == 0)) hw (omega arith)
                line' refl,
          )
          | inr no_push ↦ rw (no_push, quit_10 done rest greeted (not (w == 0)) line')
        ]

    -- With push_off false, an account in use makes reconnect raise ProtocolError, but the connection
    -- is left open: the session is still connected, so that sign_on refuses to try again.
    pub reconnect_never :
        (pw : Option Bytes) (env : Option (Option Bytes)) (found : Option Bytes) (network : Network)
        (push : Push)
        → (let out = reconnect encrypt (said 34 rest) never (away a sent warn) in
            (out.0 ≡ err (protocol_error (pos (w * 100 + 34)) text))
            × (out.1 ≡ arrived a rest greeted)
            × (sign_on encrypt network push pw env found out.1 ≡ (err value_error, out.1)))
    unfolding admitted sign_on
    reconnect_never pw env found network push =
        let ended : reconnect encrypt (said 34 rest) never (away a sent warn)
            ≡ (err (protocol_error (pos (w * 100 + 34)) text), arrived a rest greeted) =
          reconnect-greeted never a (says w 34 text ++ rest) sent warn
          ∙ rw
              (hear-unwanted 30 w 34 text rest greeted (not (w == 0)) hw (omega arith) line refl) in
        (ap (λ r. r.0) ended, ap (λ r. r.1) ended, rw ended)

  -- A host that does not answer makes reconnect raise SessionError, and leaves a socket that did not
  -- connect: the session counts as connected, so that sign_on refuses until it is closed.
  pub reconnect_unreachable :
      (push push' : Push) (a : Account) (sent : Bytes) (warn : Bool) (pw : Option Bytes)
      (env : Option (Option Bytes)) (found : Option Bytes) (network : Network)
      → (let out = reconnect encrypt unreachable push (away a sent warn) in
          (out.0 ≡ err session_error)
          × (is_connected out.1 ≡ true)
          × (sign_on encrypt network push' pw env found out.1 ≡ (err value_error, out.1)))
  unfolding reconnect dial close connect shut sign_on
  reconnect_unreachable push push' a sent warn pw env found network = (refl, refl, refl)
