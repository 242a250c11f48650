-- ===== src/Folder/Item.antt =====
-- The messages of a folder by their place.
use blitzmail.Common.{
  ℕ, suc, ◌+◌, ◌-◌, ◌<◌, ◌≡◌, ◌≢◌, refl, ◌∙◌, arith, Bytes, codes, Bool, true, false, not, ltb,
  ◌==◌, [], ◌∷◌, ◌++◌, append-nil, Bool-cases, inl, inr, Option, none, some, ℤ, pos, negsuc,
  if◌then◌else◌,
}
use blitzmail.Common.Decimal.{str}
use blitzmail.Common.Lines.{str_ℤ}
use blitzmail.Errors.{Result, ok, err, index_error}
use blitzmail.Link.Answer.{IsLine}
use blitzmail.Blitz.{listing, until}
use blitzmail.Blitz.Online.{online, says, tell-online, expect_value-says}
use blitzmail.Message.Info.{Info, parse_response}
use blitzmail.Folder.{Facts, Folder, range, facts, get_summaries, item_at, item}
use blitzmail.Folder.Loaded.{reloads, asks, reloaded, Knows, facts_lem}

-- a folder that is up to date
abbrev pub current : ℕ → Facts → Bytes → Bytes → Bool → Folder
current id x input sent warn = record {
  session = online input sent warn;
  id = id;
  need_rl = false;
  facts = some x;
}

abbrev pub fsum : ℕ → Bytes → Bytes
fsum id rng = codes "FSUM " ++ str id ++ codes " " ++ rng ++ codes "\n"

-- The place that an index stands for, counted from 0: a negative one counts from the end.
abbrev pub place : ℤ → ℕ → Option ℕ
place (pos n) count = if ltb n count then some n else none
place (negsuc n) count = if ltb n count then some (count - suc n) else none

-- the answer of the server to a request for the summary at a place, and the request
abbrev pub said : ℕ → (ℕ → Bytes) → Option ℕ → Bytes
said w line none = []
said w line (some p) = says w 0 (line p)

abbrev pub requests : ℕ → Option ℕ → Bytes
requests id none = []
requests id (some p) = fsum id (str_ℤ (pos (p + 1)))

abbrev pub got : (ℕ → Info × ℤ) → Option ℕ → Result (Info × ℤ)
got made none = err index_error
got made (some p) = ok (made p)

abbrev pub told_of : ℕ → Option ℕ → Bool → Bool
told_of w none warn = warn
told_of w (some p) warn = not (w == 0)

module _ (delivered : Bytes → Option ℤ) (w : ℕ) (hw : w < 10) (id : ℕ) (x : Facts) where
  facts-current :
      (input sent : Bytes) (warn : Bool)
      → facts (current id x input sent warn) ≡ (ok x, current id x input sent warn)
  unfolding facts
  facts-current input sent warn = refl

  one_summary :
      (f : ℕ) (lo : ℤ) (line rest sent : Bytes) (warn : Bool) (i : Info × ℤ)
      → x.count ≢ 0
      → IsLine line
      → parse_response delivered line ≡ ok i
      → get_summaries delivered
          (suc f)
          (some lo)
          none
          (current id x (says w 0 line ++ rest) sent warn)
        ≡ (ok (i ∷ []), current id x rest (sent ++ fsum id (str_ℤ lo)) (not (w == 0)))
  unfolding get_summaries listing until range
  one_summary f lo line rest sent warn i some_there h e =
      let filled : (x.count == 0) ≡ false = ground (arith, some_there) in
      rw (
        facts-current,
        filled,
        tell-online,
        expect_value-says (0 ∷ 1 ∷ []) w 0 line rest (sent ++ fsum id (str_ℤ lo)) warn hw
            (omega arith) h refl,
        e,
      )

  module _ (line : ℕ → Bytes) (made : ℕ → Info × ℤ)
      (lines : (p : ℕ)
        → p < x.count
        → IsLine (line p) × (parse_response delivered (line p) ≡ ok (made p))) where
    item_at-current :
        (f n : ℕ) (rest sent : Bytes) (warn : Bool)
        → (let p = place (pos n) x.count in
            item_at delivered (suc f) n (current id x (said w line p ++ rest) sent warn)
            ≡ (got made p, current id x rest (sent ++ requests id p) (told_of w p warn)))
    unfolding item_at
    item_at-current f n rest sent warn = elim (Bool-cases (ltb n x.count)) [
      | inl e ↦
          (let inside = lines n (ground (arith, e)) in
            rw (
              e,
              facts-current,
              e,
              one_summary f (pos (n + 1)) (line n) rest sent warn (made n) (ground (arith, e))
                  inside.0 inside.1,
            ))
      | inr e ↦ rw (e, facts-current, e, append-nil)
    ]

    item-current :
        (f : ℕ) (z : ℤ) (rest sent : Bytes) (warn : Bool)
        → (let p = place z x.count in
            item delivered (suc f) z (current id x (said w line p ++ rest) sent warn)
            ≡ (got made p, current id x rest (sent ++ requests id p) (told_of w p warn)))
    unfolding item
    item-current f (pos n) rest sent warn = item_at-current f n rest sent warn
    item-current f (negsuc n) rest sent warn = elim (Bool-cases (ltb n x.count)) [
      | inl e ↦
          (let inside : ltb (x.count - suc n) x.count ≡ true = ground (arith, e) in
            rw (e, facts-current, e)
              (rw inside at (item_at-current f (x.count - suc n) rest sent warn)))
      | inr e ↦ rw (e, facts-current, e, append-nil)
    ]

-- A method that asks for the facts first finds the folder as it is after they were loaded.
item-facts :
    (delivered : Bytes → Option ℤ) (f : ℕ) (z : ℤ) (x : Facts) (fd fd' : Folder)
    → facts fd ≡ (ok x, fd')
    → facts fd' ≡ (ok x, fd')
    → item delivered f z fd ≡ item delivered f z fd'
unfolding item item_at
item-facts delivered f (pos n) x fd fd' e e' = rw (e, e')
item-facts delivered f (negsuc n) x fd fd' e e' = rw (e, e')

-- `folder[z]` is the message at the place z counts to, from the start or, where z is negative, from
-- the end, and IndexError outside of the folder. The folder's facts are loaded first where it is out
-- of date, and it is up to date afterwards; then the one summary is asked for, and nothing where the
-- index is out of range. The server's line for each place in the folder must be one that is parsed.
pub item_lem :
    (delivered : Bytes → Option ℤ) (w id : ℕ) (need : Bool) (known : Option Facts) (x : Facts)
    (line : ℕ → Bytes) (made : ℕ → Info × ℤ) (f : ℕ) (z : ℤ) (rest sent : Bytes) (warn : Bool)
    → w < 10
    → Knows id need known x
    → ((p : ℕ) → p < x.count → IsLine (line p) × (parse_response delivered (line p) ≡ ok (made p)))
    → (let p = place z x.count in
        item delivered (suc f) z (record {
          session = online (reloads w id need x ++ (said w line p ++ rest)) sent warn;
          id = id;
          need_rl = need;
          facts = known;
        })
        ≡ (
          got made p,
          current id x rest
              ((sent ++ asks id need) ++ requests id p)
              (told_of w p (reloaded w need warn)),
        ))
item_lem delivered w id need known x line made f z rest sent warn hw h lines =
    let p = place z x.count in
    let fd : Folder = record {
      session = online (reloads w id need x ++ (said w line p ++ rest)) sent warn;
      id = id;
      need_rl = need;
      facts = known;
    } in
    let fd' = current id x (said w line p ++ rest) (sent ++ asks id need) (reloaded w need warn) in
    item-facts delivered (suc f) z x fd fd'
      (facts_lem w id need known x (said w line p ++ rest) sent warn hw h)
      (facts-current delivered w hw id x (said w line p ++ rest) (sent ++ asks id need)
        (reloaded w need warn))
    ∙ item-current delivered w hw id x line made lines f z rest (sent ++ asks id need)
        (reloaded w need warn)
