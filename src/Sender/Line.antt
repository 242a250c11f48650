-- ===== src/Sender/Line.antt =====
-- A command line of numbers, written by a session, is read back by the server's handler.
use blitzmail.Common.{
  ℕ, ◌≤◌, ◌≡◌, refl, ap, ap₂, arith, Bytes, codes, List, [], ◌∷◌, ◌++◌, map, All, All-append, some,
  ℤ, pos, negsuc,
}
use blitzmail.Common.Decimal.{int, rstrip, int-str, int-negative}
use blitzmail.Notifyd.Tcp.Handle.{parse_line}
use blitzmail.Common.Fields.{IsPlain, commas-join}
use blitzmail.Common.Lines.{str_ℤ, readline, split_space, without_spaces, re_split, join}

without_spaces-numeral : (s : Bytes) → All IsPlain s → without_spaces s ≡ s
unfolding without_spaces
without_spaces-numeral [] h = refl
without_spaces-numeral (c ∷ s) h = ground arith

map-without_spaces : (ws : List Bytes) → All (All IsPlain) ws → map without_spaces ws ≡ ws
map-without_spaces [] h = refl
map-without_spaces (w ∷ ws) h = ap₂ ◌∷◌ (without_spaces-numeral w h.0) (map-without_spaces ws h.1)

-- The words of a joined line come back.
pub re_split-join :
    (w : Bytes) (ws : List Bytes)
    → All IsPlain w
    → All (All IsPlain) ws
    → re_split (join (codes ",") (w ∷ ws)) ≡ w ∷ ws
unfolding re_split
re_split-join w ws h hs = rw (commas-join w ws h hs) (ap (λ t. w ∷ t) (map-without_spaces ws hs))

-- the characters of such a line
abbrev pub IsDark : ℕ → Type 0
IsDark c = 33 ≤ c

dark : (s : Bytes) → All IsPlain s → All IsDark s
dark [] h = tt
dark (c ∷ s) h = (ground arith, dark s h.1)

pub join-IsDark : (ws : List Bytes) → All (All IsPlain) ws → All IsDark (join (codes ",") ws)
unfolding join
join-IsDark [] h = tt
join-IsDark (w ∷ []) h = dark w h.0
join-IsDark (w ∷ v ∷ ws) h =
    All-append IsDark w _ (dark w h.0) (ground arith, join-IsDark (v ∷ ws) h.1)

pub readline-append :
    (s rest : Bytes) → All (λ c. 32 ≤ c) s → readline (s ++ 10 ∷ rest) ≡ (s ++ 10 ∷ [], rest)
unfolding readline
readline-append [] rest h = refl
readline-append (c ∷ s) rest h = ground (arith, readline-append s rest h.1)

rstrip-dark : (s : Bytes) → All IsDark s → rstrip (s ++ 10 ∷ []) ≡ s
unfolding rstrip
rstrip-dark [] h = refl
rstrip-dark (c ∷ s) h = ground (arith, rstrip-dark s h.1)

join-cons :
    (w : Bytes) (ws : List Bytes) (c : ℕ) (t : Bytes)
    → w ≡ c ∷ t
    → (rest : Bytes) × (join (codes ",") (w ∷ ws) ≡ c ∷ rest)
unfolding join
join-cons w [] c t e = (t, e)
join-cons w (v ∷ ws) c t e = (t ++ (codes "," ++ join (codes ",") (v ∷ ws)), rw e)

-- a text with a word before it keeps it when the newline goes
rstrip_word :
    (c : ℕ) (s : Bytes)
    → All IsDark (c ∷ s)
    → rstrip (codes "NOTIFY " ++ (c ∷ s) ++ 10 ∷ []) ≡ codes "NOTIFY " ++ (c ∷ s)
unfolding rstrip
rstrip_word c s h = ground (arith, rstrip-dark s h.1)

rstrip_line :
    (w : Bytes) (ws : List Bytes) (c : ℕ) (t : Bytes)
    → All (All IsPlain) (w ∷ ws)
    → w ≡ c ∷ t
    → rstrip (codes "NOTIFY " ++ join (codes ",") (w ∷ ws) ++ 10 ∷ [])
      ≡ codes "NOTIFY " ++ join (codes ",") (w ∷ ws)
rstrip_line w ws c t h e =
    let (rest, eq) = join-cons w ws c t e in
    rw eq (rstrip_word c rest (rw eq at (join-IsDark (w ∷ ws) h)))

pub parse_line-numbers :
    (w : Bytes) (ws : List Bytes) (c : ℕ) (t : Bytes)
    → All (All IsPlain) (w ∷ ws)
    → w ≡ c ∷ t
    → parse_line (codes "NOTIFY " ++ join (codes ",") (w ∷ ws) ++ 10 ∷ [])
      ≡ (codes "NOTIFY", w ∷ ws)
unfolding parse_line split_space
parse_line-numbers w ws c t h e = rw (rstrip_line w ws c t h e) (rw (re_split-join w ws h.0 h.1))

pub int-str_ℤ : (z : ℤ) → int (str_ℤ z) ≡ some z
unfolding str_ℤ
int-str_ℤ (pos n) = int-str n
int-str_ℤ (negsuc n) = int-negative n
