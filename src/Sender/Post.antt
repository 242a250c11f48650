-- ===== src/Sender/Post.antt =====
-- A notice that a session posts reaches the server as it was meant.
use blitzmail.Common.{
  ℕ, ◌≤◌, ◌≡◌, refl, sym, ◌∙◌, arith, Bytes, codes, Bool, true, false, not, List, [], ◌∷◌, ◌++◌,
  append_assoc, length, take-length-append, drop-length-append, All, All-append, Option, none, some,
  ℤ, pos, eq_ℤ, if◌then◌else◌,
}
use blitzmail.Common.Decimal.{str, int, int-str}
use blitzmail.Common.Lines.{str_ℤ, readline, join}
use blitzmail.Errors.{ok, ok-injective}
use blitzmail.Packet.Service.{code, resolve}
use blitzmail.Notifyd.Db.{Database}
use blitzmail.Notifyd.Directory.{Directory}
use blitzmail.Notifyd.World.{World, notify}
use blitzmail.Notifyd.Wire.{ints, read_data, may_not_broadcast}
use blitzmail.Notifyd.Tcp.{Conn, told, no_broadcast}
use blitzmail.Notifyd.Tcp.Post.{cmd_notify_lem, turn-cmd_notify}
use blitzmail.Notifyd.Tcp.Handle.{turn}
use blitzmail.Sender.{Session, service, sender_id, post_data, rawsend, cmd1, message, post_notify}
use blitzmail.Common.Fields.{IsPlain, str-IsNumeral, str_ℤ-IsNumeral}
use blitzmail.Sender.Line.{IsDark, join-IsDark, readline-append, parse_line-numbers, int-str_ℤ}

-- what the data of a notice are when it arrives: none are sent for an empty text
abbrev pub received : Bytes → Option Bytes
received [] = none
received (c ∷ s) = some (c ∷ s)

-- the arguments of the command line
abbrev arguments : ℤ → ℤ → ℤ → Bool → Bytes → List Bytes
arguments uid type msgid sticky d =
    str (length d)
    ∷ str_ℤ uid
    ∷ str_ℤ type
    ∷ str_ℤ msgid
    ∷ (if sticky then codes "1" else codes "0")
    ∷ []

flag : Bool → ℤ
flag b = pos (if b then 1 else 0)

flag_lem : (b : Bool) → not (eq_ℤ (flag b) (pos 0)) ≡ b
unfolding flag
flag_lem true = ground arith
flag_lem false = ground arith

ints-arguments :
    (uid type msgid : ℤ) (sticky : Bool) (d : Bytes)
    → ints (arguments uid type msgid sticky d)
      ≡ some (pos (length d) ∷ uid ∷ type ∷ msgid ∷ flag sticky ∷ [])
unfolding ints int flag
ints-arguments uid type msgid true d =
    rw (int-str (length d), int-str_ℤ uid, int-str_ℤ type, int-str_ℤ msgid)
ints-arguments uid type msgid false d =
    rw (int-str (length d), int-str_ℤ uid, int-str_ℤ type, int-str_ℤ msgid)

arguments-IsPlain :
    (uid type msgid : ℤ) (sticky : Bool) (d : Bytes)
    → All (All IsPlain) (arguments uid type msgid sticky d)
arguments-IsPlain uid type msgid true d = (
  (str-IsNumeral (length d)).0,
  (
    (str_ℤ-IsNumeral uid).0,
    ((str_ℤ-IsNumeral type).0, ((str_ℤ-IsNumeral msgid).0, ((ground arith, tt), tt))),
  ),
)
arguments-IsPlain uid type msgid false d = (
  (str-IsNumeral (length d)).0,
  (
    (str_ℤ-IsNumeral uid).0,
    ((str_ℤ-IsNumeral type).0, ((str_ℤ-IsNumeral msgid).0, ((ground arith, tt), tt))),
  ),
)

read_data-append : (d rest : Bytes) → read_data (pos (length d)) (d ++ rest) ≡ (received d, rest)
unfolding read_data
read_data-append [] rest = refl
read_data-append (c ∷ d) rest =
    rw (take-length-append (c ∷ d) rest, drop-length-append (c ∷ d) rest)

-- the bytes of a posted notice
abbrev line : ℤ → ℤ → ℤ → Bool → Bytes → Bytes
line uid type msgid sticky d =
    codes "NOTIFY " ++ join (codes ",") (arguments uid type msgid sticky d) ++ 10 ∷ []

post_notify-line :
    (now : ℕ) (type uid : ℤ) (content : Option Bytes) (msg_id : Option ℤ) (sticky : Bool)
    (s : Session) (d : Bytes)
    → s.is_connected ≡ true
    → post_data type content ≡ ok d
    → post_notify now (code type) content (some uid) msg_id sticky s
      ≡ ok (line uid type (message now msg_id) sticky d ++ d)
unfolding post_notify service sender_id rawsend cmd1 resolve join
post_notify-line now type uid content msg_id sticky s d up made = rw (up, made)

light : (s : Bytes) → All IsDark s → All (λ c. 32 ≤ c) s
light [] h = tt
light (c ∷ s) h = (ground arith, light s h.1)

light_word : All (λ c. 32 ≤ c) (codes "NOTIFY ")
light_word = ground arith

readline-line :
    (uid type msgid : ℤ) (sticky : Bool) (d rest : Bytes)
    → readline (line uid type msgid sticky d ++ rest) ≡ (line uid type msgid sticky d, rest)
readline-line uid type msgid sticky d rest =
    let text = codes "NOTIFY " ++ join (codes ",") (arguments uid type msgid sticky d) in
    let words : All (λ c. 32 ≤ c) (join (codes ",") (arguments uid type msgid sticky d)) =
      light _ (join-IsDark _ (arguments-IsPlain uid type msgid sticky d)) in
    rw (append_assoc text (10 ∷ []) rest)
      (readline-append text rest (All-append (λ c. 32 ≤ c) (codes "NOTIFY ") _ light_word words))

module _ (db : Database) (dir : Directory) where
  -- A notice that a session accepts, so one of type 0 or of at most 255 bytes, and posts to a user that
  -- it names, over a connection where no validation is in progress, is what the server enters and posts: the same user, type, message and permanence, and the
  -- data that the session sent for it. Only if the user is 0 and the connection lacks the privilege,
  -- the answer is 554. What was sent after the notice is left to be read.
  pub turn-post_notify :
      (now at : ℕ) (type uid : ℤ) (content : Option Bytes) (msg_id : Option ℤ) (sticky : Bool)
      (s : Session) (c : Conn dir) (w : World db) (d sent rest : Bytes)
      → s.is_connected ≡ true
      → post_data type content ≡ ok d
      → post_notify at (code type) content (some uid) msg_id sticky s ≡ ok sent
      → c.dnd ≡ none
      → turn db dir now (record c { input = sent ++ rest }, w) ≡ (
          if may_not_broadcast uid w
          then no_broadcast db dir (record c { input = rest }, w)
          else told db dir
              (codes "200 Ok.")
              (record c { input = rest })
              (notify now uid type (message at msg_id) sticky (received d) w))
  turn-post_notify now at type uid content msg_id sticky s c w d sent rest up made e idle =
      let m = message at msg_id in
      let text = line uid type m sticky d in
      let same : sent ≡ text ++ d =
        ok-injective (sym e ∙ post_notify-line at type uid content msg_id sticky s d up made) in
      let (ch, t, eq) = (str-IsNumeral (length d)).1 in
      let read : readline (sent ++ rest) ≡ (text, d ++ rest) =
        rw (same, append_assoc text d rest) (readline-line uid type m sticky d (d ++ rest)) in
      let parsed =
        parse_line-numbers (str (length d)) _ ch t (arguments-IsPlain uid type m sticky d) eq in
      turn-cmd_notify db dir now text (d ++ rest) _ (record c { input = sent ++ rest }) w read
        parsed idle
      ∙ cmd_notify_lem db dir now _ (record c { input = d ++ rest }) w (pos (length d)) uid type m
          (flag sticky) (ints-arguments uid type m sticky d)
      ∙ rw (read_data-append d rest, flag_lem sticky)
