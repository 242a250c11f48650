-- ===== src/Prefs/Read.antt =====
-- A preference as the server keeps it.
use blitzmail.Common.{
  ℕ, suc, ◌≡◌, ap, ◌∙◌, Bytes, codes, Bool, true, All, [], ◌∷◌, ◌++◌, some, ℤ, if◌then◌else◌,
}
use blitzmail.Common.Decimal.{int, IsDigit}
use blitzmail.Common.Lines.{join}
use blitzmail.Errors.{Result, ok, err, not_connected}
use blitzmail.Link.{Link, raw_send}
use blitzmail.Link.Answer.{IsLine, reply, next_answer-ok}
use blitzmail.Blitz.{Blitz, value_of, is_flagged, expect_value}
use blitzmail.Prefs.{put, name_at, collect, sent, munge_pref, quote, fixed, read_pref}
use blitzmail.Prefs.Quote.{unquote-quote}

module _ (code text rest : Bytes) (key : ℤ) (d : All IsDigit code) (i : int code ≡ some key)
    (last : value_of key ≡ 0) (t : IsLine text) where
  expect_value-reply :
      (b : Blitz)
      → b.link.is_connected ≡ true
      → b.link.input ≡ reply code text ++ rest
      → expect_value (0 ∷ 1 ∷ 2 ∷ 3 ∷ []) b ≡ (
        ok (0, text),
        record { link = record b.link { input = rest }; warn_flag = is_flagged key },
      )
  unfolding expect_value
  expect_value-reply b up e = rw (next_answer-ok b.link code text rest key up e d i t, last)

  collect-last :
      (f : ℕ) (name : Bytes) (b : Blitz)
      → b.link.is_connected ≡ true
      → b.link.input ≡ reply code text ++ rest
      → collect (suc f) (name ∷ []) [] b ≡ (
        ok ((name, some text) ∷ []),
        record { link = record b.link { input = rest }; warn_flag = is_flagged key },
      )
  unfolding collect put name_at
  collect-last f name b up e =
      rw (expect_value-reply b up e, collect) (rw (expect_value-reply b up e))

raw_send-up :
    (text : Bytes) (l : Link)
    → l.is_connected ≡ true
    → raw_send text l ≡ (ok tt, record l { sent = l.sent ++ text })
unfolding raw_send
raw_send-up text l up = go l.is_connected up
  where
    go :
        (b : Bool)
        → b ≡ true
        → Path
            (Result (Unit {0}) × Link)
            (if b then (ok tt, record l { sent = l.sent ++ text }) else (err not_connected, l))
            (ok tt, record l { sent = l.sent ++ text })
    go b up = rw up

-- The value that a server keeps for a preference, quoted as write_pref sends it, is what read_pref
-- returns for the name, whatever marks stand in it; the answer's code is 0 but for a multiple of 100,
-- which sets the flag of warnings. One turn of the loop is enough.
pub read_pref-quote :
    (code v rest name : Bytes) (key : ℤ) (f : ℕ) (b : Blitz)
    → All IsDigit code
    → int code ≡ some key
    → value_of key ≡ 0
    → IsLine (quote v)
    → b.link.is_connected ≡ true
    → b.link.input ≡ reply code (quote v) ++ rest
    → read_pref (suc f) (name ∷ []) b ≡ (
      ok ((name, some v) ∷ []),
      record {
        link = record b.link {
          input = rest;
          sent = b.link.sent ++ (codes "PREF " ++ name ++ codes "\n");
        };
        warn_flag = is_flagged key;
      },
    )
unfolding read_pref munge_pref sent fixed join
read_pref-quote code v rest name key f b d i last t up e =
    let question = codes "PREF " ++ name ++ codes "\n" in
    let l : Link = record b.link { sent = b.link.sent ++ question } in
    ap fixed (
      ap (λ r. sent r (suc f) (name ∷ []) b.warn_flag) (raw_send-up question b.link up)
      ∙ collect-last code (quote v) rest key d i last t f name
          (record { link = l; warn_flag = b.warn_flag }) up e)
    ∙ ap
        (λ w. (
          ok ((name, w) ∷ []),
          record { link = record l { input = rest }; warn_flag = is_flagged key },
        ))
        (unquote-quote v)
