-- ===== src/Folder/Loaded.antt =====
-- A folder that is out of date is loaded again before it is used.
use blitzmail.Common.{
  ℕ, ◌<◌, ◌≡◌, ◌≢◌, refl, ap, arith, Bytes, codes, Bool, true, false, not, All, ◌==◌, [], ◌∷◌, ◌++◌,
  append-nil, Option, none, some, if◌then◌else◌,
}
use blitzmail.Common.Decimal.{str, str-All, IsDigit}
use blitzmail.Common.Match.{number-str, number-str_end, shaped, is_digit}
use blitzmail.Errors.{Result, ok}
use blitzmail.Link.Answer.{IsLine}
use blitzmail.Blitz.Online.{online, says, tell-online, hear-says}
use blitzmail.Folder.{
  Facts, Folder, size_at, name_cut, name_and_size, info_re, parse_info, reload, facts,
}

-- the line that describes a folder
abbrev pub write_facts : ℕ → Facts → Bytes
write_facts id x =
    str id ++ b',' ∷ (str x.count ++ b',' ∷ b'"' ∷ (x.name ++ b'"' ∷ b',' ∷ str x.size))

-- a name of at least one character, on one line
pub record IsName (s : Bytes) : Type 0 where
  pub initial : ℕ
  pub others : Bytes
  pub parts : s ≡ initial ∷ others
  pub initial_inside : initial ≢ 10
  pub others_inside : All (λ c. c ≢ 10) others

size_at-plain : (c : ℕ) (s : Bytes) → c ≢ b'"' → size_at (c ∷ s) ≡ none
unfolding size_at shaped
size_at-plain c s h = ground arith

name_cut-plain : (s : Bytes) → All IsDigit s → name_cut s ≡ none
unfolding name_cut
name_cut-plain [] h = refl
name_cut-plain (c ∷ s) h =
    rw (size_at-plain c s (λ e. omega (arith, e, h.0)), name_cut-plain s h.1) (same (c == 10))
  where
    same : (b : Bool) → ◌≡◌ {A = Option (Bytes × ℕ)} (if b then none else none) none
    same true = refl
    same false = refl

size_at-end : (n : ℕ) → size_at (b'"' ∷ b',' ∷ str n) ≡ some n
unfolding size_at shaped
size_at-end n = rw (size_at, number-str_end n)

other : (c d : ℕ) → c ≢ d → (c == d) ≡ false
other c d h = ground (arith, h)

name_cut-end : (n : ℕ) → name_cut (b'"' ∷ b',' ∷ str n) ≡ some ([], n)
unfolding name_cut
name_cut-end n = rw (
  size_at-end n,
  size_at-plain b',' (str n) (λ e. omega (arith, e)),
  name_cut-plain (str n) (str-All n),
)

name_cut-append :
    (s : Bytes) (n : ℕ) → All (λ c. c ≢ 10) s → name_cut (s ++ b'"' ∷ b',' ∷ str n) ≡ some (s, n)
unfolding name_cut
name_cut-append [] n h = name_cut-end n
name_cut-append (c ∷ s) n h = rw (name_cut-append s n h.1, other c 10 h.0)

name_and_size-append :
    (s : Bytes) (n : ℕ) → IsName s → name_and_size (s ++ b'"' ∷ b',' ∷ str n) ≡ some ((s, n), [])
unfolding name_and_size
name_and_size-append s n h =
    rw (h.parts, other h.initial 10 h.initial_inside, name_cut-append h.others n h.others_inside)

comma : (rest : Bytes) → shaped (codes ",") (b',' ∷ rest) ≡ some (codes ",", rest)
unfolding shaped
comma rest = refl

comma_mark : (rest : Bytes) → shaped (codes ",\"") (b',' ∷ b'"' ∷ rest) ≡ some (codes ",\"", rest)
unfolding shaped
comma_mark rest = refl

comma_lem : is_digit b',' ≡ false
unfolding is_digit
comma_lem = refl

info_re-write_facts :
    (id : ℕ) (x : Facts) → IsName x.name → info_re (write_facts id x) ≡ some ((id, x), [])
unfolding info_re
info_re-write_facts id x h =
    let named = x.name ++ b'"' ∷ b',' ∷ str x.size in
    rw (
      number-str id b',' (str x.count ++ b',' ∷ b'"' ∷ named) comma_lem,
      comma (str x.count ++ b',' ∷ b'"' ∷ named),
      number-str x.count b',' (b'"' ∷ named) comma_lem,
      comma_mark named,
      name_and_size-append x.name x.size h,
    )

parse_info-write_facts :
    (id : ℕ) (x : Facts) (fd : Folder)
    → IsName x.name
    → parse_info (write_facts id x) fd ≡ (ok tt, record fd { id = id; facts = some x })
unfolding parse_info
parse_info-write_facts id x fd h = rw (info_re-write_facts id x h)

-- what the server says to `reload`, and what it is sent
abbrev pub reloads : ℕ → ℕ → Bool → Facts → Bytes
reloads w id need x = if need then says w 0 (write_facts id x) else []

abbrev pub asks : ℕ → Bool → Bytes
asks id need = if need then codes "FLIS " ++ str id ++ codes "\n" else []

abbrev pub reloaded : ℕ → Bool → Bool → Bool
reloaded w need warn = if need then not (w == 0) else warn

-- the facts that hold of a folder: those that it has, unless they are to be loaded
abbrev pub Knows : ℕ → Bool → Option Facts → Facts → Type 0
Knows id need known x = (need ≡ false → known ≡ some x) × IsName x.name × IsLine (write_facts id x)

reload_lem :
    (w : ℕ) (fd : Folder) (x : Facts) (rest sent : Bytes) (warn : Bool)
    → w < 10
    → IsName x.name
    → IsLine (write_facts fd.id x)
    → reload (record fd { session = online (says w 0 (write_facts fd.id x) ++ rest) sent warn }) ≡ (
      ok tt,
      record fd {
        session = online rest (sent ++ (codes "FLIS " ++ str fd.id ++ codes "\n")) (not (w == 0));
        need_rl = false;
        facts = some x;
      },
    )
unfolding reload
reload_lem w fd x rest sent warn hw named line = rw (
  tell-online,
  hear-says w 0 (write_facts fd.id x) rest (sent ++ (codes "FLIS " ++ str fd.id ++ codes "\n")) warn
      hw (omega arith) line refl,
  parse_info-write_facts fd.id x,
)

pub facts_lem :
    (w id : ℕ) (need : Bool) (known : Option Facts) (x : Facts) (rest sent : Bytes) (warn : Bool)
    → w < 10
    → Knows id need known x
    → facts (record {
      session = online (reloads w id need x ++ rest) sent warn;
      id = id;
      need_rl = need;
      facts = known;
    })
      ≡ (
        ok x,
        record {
          session = online rest (sent ++ asks id need) (reloaded w need warn);
          id = id;
          need_rl = false;
          facts = some x;
        },
      )
unfolding facts
facts_lem w id true known x rest sent warn hw h =
    let fd : Folder = record {
      session = online [] [] warn;
      id = id;
      need_rl = true;
      facts = known;
    } in
    rw (reload_lem w fd x rest sent warn hw h.1 h.2)
facts_lem w id false none x rest sent warn hw h = cc (h.0 refl)
facts_lem w id false (some y) x rest sent warn hw h =
    let loaded : Facts → Result Facts × Folder = λ y. (
      ok y,
      record { session = online rest sent warn; id = id; need_rl = false; facts = some y },
    ) in
    let same : some y ≡ some x = h.0 refl in let e : y ≡ x = cc in rw append-nil (ap loaded e)
