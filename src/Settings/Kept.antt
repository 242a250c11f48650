-- ===== src/Settings/Kept.antt =====
-- What the server keeps for the user comes back as it was set.
use blitzmail.Common.{
  ℕ, suc, ◌<◌, ◌≡◌, ◌≢◌, refl, ap, arith, Bytes, codes, eq_bytes_refl, Bool, not, All, length, ◌==◌,
  [], ◌∷◌, ◌++◌, append_assoc, none, some, ℤ,
}
use blitzmail.Common.Decimal.{str, IsDigit, int}
use blitzmail.Errors.{ok}
use blitzmail.Link.Answer.{IsLine, reply}
use blitzmail.Blitz.{value_of, is_flagged, to_int}
use blitzmail.Blitz.Online.{
  online, says, tell-online, hear-says, expect_value-says, read_block-online, to_int-str,
  str-IsLine,
}
use blitzmail.Prefs.{quote}
use blitzmail.Prefs.Read.{read_pref-quote}
use blitzmail.SignOn.{Account}
use blitzmail.Message.Outbound.{returns}
use blitzmail.Message.Outbound.Composed.{newlines-returns}
use blitzmail.Settings.{
  set_vacation_msg, get_vacation_msg, at_key, preference, get_session_id, unless_empty,
  get_forwarding,
}

length-returns : (s : Bytes) → length (returns s) ≡ length s
unfolding returns
length-returns [] = refl
length-returns (c ∷ s) = ap suc (length-returns s)

-- what the server says to VTXT, where it keeps these bytes
abbrev pub keeps : ℕ → Bytes → Bytes → Bytes
keeps w kept done = says w 50 (str (length kept)) ++ (kept ++ says w 10 done)

-- The vacation message goes to the server after its length, with returns for the ends of lines; where
-- the server gives those bytes back, the message read is the one that was set, if there is no return
-- in it.
pub get_vacation_msg-set_vacation_msg :
    (text go done : Bytes) (w : ℕ) (rest sent : Bytes) (warn : Bool)
    → w < 10
    → IsLine go
    → IsLine done
    → All (λ c. c ≢ 13) text
    → (set_vacation_msg text (online (says w 50 go ++ (says w 10 done ++ rest)) sent warn) ≡ (
      ok tt,
      online rest
          ((sent ++ (codes "VDAT " ++ str (length (returns text)) ++ codes "\n")) ++ returns text)
          (not (w == 0)),
    ))
      × (get_vacation_msg (online (keeps w (returns text) done ++ rest) sent warn)
          ≡ (ok (some text), online rest (sent ++ codes "VTXT\n") (not (w == 0))))
unfolding set_vacation_msg get_vacation_msg
get_vacation_msg-set_vacation_msg text go done w rest sent warn hw hgo hdone plain =
    let told = sent ++ (codes "VDAT " ++ str (length text) ++ codes "\n") in
    let flag = not (w == 0) in
    let asked = sent ++ codes "VTXT\n" in
    let kept = returns text in
    let after = says w 10 done ++ rest in
    (
      rw
          (
            tell-online,
            length-returns text,
            hear-says w 50 go after told warn hw (omega arith) hgo refl,
          )
          (rw (
            tell-online,
            hear-says w 10 done rest (told ++ kept) flag hw (omega arith) hdone refl,
          )),
      rw
          (
            tell-online,
            append_assoc (says w 50 (str (length kept))) (kept ++ says w 10 done) rest,
            append_assoc kept (says w 10 done) rest,
            expect_value-says (2 ∷ 50 ∷ []) w 50 (str (length kept)) (kept ++ after) asked warn hw
                (omega arith) (str-IsLine (length kept)) refl,
            to_int-str (length kept),
          )
          (rw (
            read_block-online kept after asked flag,
            hear-says w 10 done rest asked flag hw (omega arith) hdone refl,
            newlines-returns text plain,
          )),
    )

module _ (code v rest : Bytes) (key : ℤ) (f : ℕ) (digits : All IsDigit code)
    (number : int code ≡ some key) (last : value_of key ≡ 0) (line : IsLine (quote v)) where
  preference-quote :
      (name sent : Bytes) (warn : Bool)
      → preference (suc f) name (online (reply code (quote v) ++ rest) sent warn) ≡ (
        ok (some v),
        online rest (sent ++ (codes "PREF " ++ name ++ codes "\n")) (is_flagged key),
      )
  unfolding preference at_key
  preference-quote name sent warn =
      rw
        (read_pref-quote code v rest name key f (online (reply code (quote v) ++ rest) sent warn)
          digits number last line refl refl)
        (rw (eq_bytes_refl name))

  -- The forwarding address is the value that the server keeps, and none where that is empty.
  pub get_forwarding-quote :
      (sent : Bytes) (warn : Bool)
      → get_forwarding (suc f) (online (reply code (quote v) ++ rest) sent warn) ≡ (
        ok (unless_empty (some v)),
        online rest (sent ++ codes "PREF ForwardTo\n") (is_flagged key),
      )
  unfolding get_forwarding
  get_forwarding-quote sent warn = rw (preference-quote (codes "ForwardTo") sent warn)

  -- The identifier of the session is asked for once: it is kept, and a later call sends nothing.
  pub get_session_id_lem :
      (id : ℤ) (a : Account) (sent : Bytes) (warn : Bool)
      → to_int v ≡ ok id
      → a.session_id ≡ none
      → (get_session_id
            (suc f)
            (record a { session = online (reply code (quote v) ++ rest) sent warn })
          ≡ (
            ok id,
            record a {
              session = online rest (sent ++ codes "PREF SessionId\n") (is_flagged key);
              session_id = some id;
            },
          ))
        × (get_session_id (suc f) (record a { session_id = some id })
            ≡ (ok id, record a { session_id = some id }))
  unfolding get_session_id
  get_session_id_lem id a sent warn e unknown =
      (rw unknown (rw (preference-quote (codes "SessionId") sent warn) (rw e)), refl)
