-- ===== src/Message/Commands/Moved.antt =====
-- A message is moved; its header is kept.
use blitzmail.Common.{
  ℕ, suc, ◌<◌, ◌≡◌, ◌≢◌, refl, ap, ◌∙◌, arith, Bytes, codes, eq_bytes, Bool, true, false, not, ltb,
  ◌&&◌, length, ◌==◌, eq_ℤ, List, [], ◌∷◌, ◌++◌, append_assoc, Option, none, some, ℤ, negsuc,
  if◌then◌else◌, lt→ltb,
}
use blitzmail.Common.Decimal.{str}
use blitzmail.Errors.{ok}
use blitzmail.Link.Answer.{IsLine}
use blitzmail.Blitz.{return, to_int}
use blitzmail.Blitz.Online.{online, says, tell-online, hear-says, expect_value-says}
use blitzmail.Blitz.Listing.{says_all, IsAnswer, Made, until_lem, settle}
use blitzmail.Message.{Summary}
use blitzmail.Message.Header.{BlitzHeader, count}
use blitzmail.Message.Commands.{
  load_header, cached_or, get_header, move_message, touch_own, move_to,
}

abbrev pub move_line : Summary → Bytes → ℕ → Bytes
move_line m op target =
    op
    ++ codes " "
    ++ str m.folder_id
    ++ codes " "
    ++ str target
    ++ codes " "
    ++ m.message_id
    ++ codes "\n"

-- the answers that follow the first: the last of them has the code 0
abbrev pub Closes : ℕ × Bytes → List (ℕ × Bytes) → List (ℕ × Bytes) → Type 0
Closes = Made (0 ∷ 1 ∷ []) (λ n. n == 0) (λ a. ok a)

and_true : (b : Bool) → (b && true) ≡ b
and_true true = refl
and_true false = refl

module _ (m : Summary) (target : ℕ) (w : ℕ) (hw : w < 10) (text : Bytes) (z : ℤ) (b : ℕ × Bytes)
    (more read : List (ℕ × Bytes)) (rest sent : Bytes) (warn : Bool) (line : IsLine text)
    (number : to_int text ≡ ok z) (second : IsAnswer (0 ∷ 1 ∷ []) b)
    (closes : Closes b more read) where
  abbrev moving : Summary
  moving = record m {
    session = online (says w 1 text ++ (says_all w (b ∷ more) ++ rest)) sent warn;
  }

  move_message_lem :
      (op : Bytes)
      → move_message (suc (length more)) op target moving ≡ (
        ok tt,
        record m {
          session = online rest (sent ++ move_line m op target) (not (w == 0));
          expires =
              if not (eq_ℤ z (negsuc 0)) && not (eq_bytes op (codes "COPY")) then z else m.expires;
          touched = (m.touched ++ m.folder_id ∷ []) ++ target ∷ [];
        },
      )
  unfolding move_message touch_own
  move_message_lem op =
      let told = sent ++ move_line m op target in
      let flag = not (w == 0) in
      let after = says_all w more ++ rest in
      rw
        (
          tell-online,
          append_assoc (says w b.0 b.1) (says_all w more) rest,
          hear-says w 1 text (says w b.0 b.1 ++ after) told warn hw (omega arith) line refl,
          number,
        )
        (rw (
          expect_value-says (0 ∷ 1 ∷ []) w b.0 b.1 after told flag hw second.0 second.1 second.2,
          until_lem (0 ∷ 1 ∷ []) (λ n. n == 0) (λ a. ok a) w b more read rest told flag hw closes,
          settle w more,
        ))

  -- A message that is moved is in the new folder, both folders are marked as out of date, and its
  -- expiry is the number of the first answer, as the server's clock counts, unless that is -1; the
  -- answers are read up to the first with the code 0.
  pub move_to_lem : move_to (suc (length more)) target moving ≡ (
    ok tt,
    record m {
      session = online rest (sent ++ move_line m (codes "MOVE") target) (not (w == 0));
      expires = if not (eq_ℤ z (negsuc 0)) then z else m.expires;
      folder_id = target;
      touched =
          (((m.touched ++ m.folder_id ∷ []) ++ target ∷ []) ++ m.folder_id ∷ []) ++ target ∷ [];
    },
  )
  unfolding move_to touch_own
  move_to_lem = rw (move_message_lem (codes "MOVE")) (rw (and_true (not (eq_ℤ z (negsuc 0)))))

load_header-h_cache :
    (m : Summary) {m' : Summary} {h : BlitzHeader}
    → load_header m ≡ (ok h, m')
    → m'.h_cache ≡ some h
unfolding load_header
load_header-h_cache m e = ground arith

header_at_hand :
    (m : Summary) (h : BlitzHeader)
    → 0 < count h
    → m.h_cache ≡ some h
    → get_header false m ≡ (ok h, m)
unfolding get_header
header_at_hand m h some_lines held = rw held (rw (lt→ltb 0 (count h) some_lines))

-- A header that get_header has returned is returned again without a word to the server, unless it is
-- asked for by force, if there is any line in it.
pub get_header_again :
    (force : Bool) (m : Summary) {m' : Summary} {h : BlitzHeader}
    → 0 < count h
    → get_header force m ≡ (ok h, m')
    → get_header false m' ≡ (ok h, m')
unfolding get_header
get_header_again force m {m'} {h} some_lines e =
    from (if force then none else m.h_cache) (known force) e
  where
    known :
        (force : Bool)
        → (if force then none else m.h_cache) ≢ none
        → m.h_cache ≡ (if force then none else m.h_cache)
    known true held = absurd (held refl)
    known false held = refl

    loaded : load_header m ≡ (ok h, m') → get_header false m' ≡ (ok h, m')
    loaded e = header_at_hand m' h some_lines (load_header-h_cache m e)

    choose :
        (k : BlitzHeader) (b : Bool)
        → m.h_cache ≡ some k
        → (if b then return k else load_header) m ≡ (ok h, m')
        → get_header false m' ≡ (ok h, m')
    choose k true held e =
        let ended : m ≡ m' = ap (λ p. p.1) e in
        let same : k ≡ h = cc in rw (← ended) (header_at_hand m h some_lines (held ∙ ap some same))
    choose k false held e = loaded e

    from :
        (o : Option BlitzHeader)
        → (o ≢ none → m.h_cache ≡ o)
        → cached_or o m ≡ (ok h, m')
        → get_header false m' ≡ (ok h, m')
    from none held e = loaded e
    from (some k) held e = choose k (ltb 0 (count k)) (held (λ none_held. cc)) e
