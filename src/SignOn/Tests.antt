-- ===== src/SignOn/Tests.antt =====
-- Signing on to an account that is free, and to one that is in use.
use blitzmail.Common.{
  ◌<◌, ◌≡◌, refl, arith, Bytes, codes, false, [], ◌++◌, none, pos, if◌then◌else◌,
}
use blitzmail.Common.Decimal.{rstrip}
use blitzmail.Errors.{ok, err, value_error, protocol_error}
use blitzmail.Link.Answer.{IsLine}
use blitzmail.Blitz.Online.{online, says}
use blitzmail.SignOn.{Account, unknown, never, always, ask, wants_push, reconnect, sign_on}
use blitzmail.SignOn.Dialog.{
  away, arrived, abandoned, said, greeted, reconnect_busy, reconnect_never,
}

done-IsLine : IsLine (codes "Ok")
unfolding rstrip
done-IsLine = record { inside = ground arith; trimmed = refl }

abbrev encrypt : Bytes → Bytes → Bytes
encrypt challenge password = challenge ++ password

abbrev account : Account
account = record {
  session = online [] [] false;
  half_open = false;
  user_info = none;
  blitzserv = none;
  gl_cache = none;
  pl_cache = none;
  fl_cache = none;
  session_id = none;
}

below : 0 < 10
below = omega arith

reconnect_busy_example :
    reconnect encrypt
      (said encrypt
        (codes "42")
        (codes "pw")
        (codes "Ok")
        (codes "Ok")
        0
        below
        done-IsLine
        done-IsLine
        account
        (codes "Ok")
        []
        []
        false
        done-IsLine
        34
        (says 0 10 (codes "Ok") ++ []))
      (ask (λ text. false))
      (away encrypt
        (codes "42")
        (codes "pw")
        (codes "Ok")
        (codes "Ok")
        0
        below
        done-IsLine
        done-IsLine
        account
        []
        false)
    ≡ (if wants_push (ask (λ text. false)) (codes "Ok")
        then (
          ok tt,
          arrived encrypt
              (codes "42")
              (codes "pw")
              (codes "Ok")
              (codes "Ok")
              0
              below
              done-IsLine
              done-IsLine
              account
              []
              (greeted encrypt
                  (codes "42")
                  (codes "pw")
                  (codes "Ok")
                  (codes "Ok")
                  0
                  below
                  done-IsLine
                  done-IsLine
                  account
                  (codes "Ok")
                  []
                  []
                  false
                  done-IsLine
                ++ codes "PUSH\n"),
        )
        else (
          err (protocol_error (pos 34) (codes "Ok")),
          abandoned encrypt
              (codes "42")
              (codes "pw")
              (codes "Ok")
              (codes "Ok")
              0
              below
              done-IsLine
              done-IsLine
              account
              (codes "Ok")
              []
              []
              false
              done-IsLine,
        ))
reconnect_busy_example =
    reconnect_busy encrypt (codes "42") (codes "pw") (codes "Ok") (codes "Ok") 0 below done-IsLine
      done-IsLine account (codes "Ok") [] [] false done-IsLine (ask (λ text. false)) (codes "Ok")
      (λ same. cc) done-IsLine

reconnect_never_example :
    (let out =
        reconnect encrypt
          (said encrypt
            (codes "42")
            (codes "pw")
            (codes "Ok")
            (codes "Ok")
            0
            below
            done-IsLine
            done-IsLine
            account
            (codes "Ok")
            []
            []
            false
            done-IsLine
            34
            [])
          never
          (away encrypt
            (codes "42")
            (codes "pw")
            (codes "Ok")
            (codes "Ok")
            0
            below
            done-IsLine
            done-IsLine
            account
            []
            false) in
      (out.0 ≡ err (protocol_error (pos 34) (codes "Ok")))
      × (out.1
          ≡ arrived encrypt
              (codes "42")
              (codes "pw")
              (codes "Ok")
              (codes "Ok")
              0
              below
              done-IsLine
              done-IsLine
              account
              []
              (greeted encrypt
                (codes "42")
                (codes "pw")
                (codes "Ok")
                (codes "Ok")
                0
                below
                done-IsLine
                done-IsLine
                account
                (codes "Ok")
                []
                []
                false
                done-IsLine))
      × (sign_on encrypt unknown always none none none out.1 ≡ (err value_error, out.1)))
reconnect_never_example =
    reconnect_never encrypt (codes "42") (codes "pw") (codes "Ok") (codes "Ok") 0 below done-IsLine
      done-IsLine account (codes "Ok") [] [] false done-IsLine none none none unknown always
