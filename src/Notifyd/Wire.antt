-- ===== src/Notifyd/Wire.antt =====
-- What the handlers of notify/notifyd.py read and write: arguments, data, and the lines of a listing.
use blitzmail.Common.{
  ℕ, zero, suc, Bytes, codes, eq_bytes, leb, Bool, true, false, not, ◌&&◌, ◌||◌, ◌==◌, List, [],
  ◌∷◌, ◌++◌, map, length, take, drop, Option, none, some, ℤ, pos, negsuc, eq_ℤ, if◌then◌else◌,
}
use blitzmail.Common.Decimal.{str, int}
use blitzmail.Common.Lines.{str_ℤ, join}
use blitzmail.Notifyd.Db.{Notice, Database}
use blitzmail.Notifyd.Client.{Client, age}
use blitzmail.Notifyd.World.{World, check_perms}

abbrev pub crlf : Bytes
crlf = 13 ∷ 10 ∷ []

-- `[int(s) for s in words]`
abbrev pub with_int : Option ℤ → Option (List ℤ) → Option (List ℤ)
with_int (some z) (some zs) = some (z ∷ zs)
with_int (some z) none = none
with_int none zs = none

unfoldable pub ints : List Bytes → Option (List ℤ)
ints [] = some []
ints (w ∷ ws) = with_int (int w) (ints ws)

-- `s.replace('"', '""')`
unfoldable pub double_quotes : Bytes → Bytes
double_quotes [] = []
double_quotes (c ∷ s) = if c == b'"' then b'"' ∷ b'"' ∷ double_quotes s else c ∷ double_quotes s

-- re.match(r'[0-7]{24}$', s), where `$` lets a newline stand at the end
all_octal : Bytes → Bool
all_octal [] = true
all_octal (c ∷ s) = (leb b'0' c && leb c b'7') && all_octal s

unfoldable pub is_octal24 : Bytes → Bool
unfolding all_octal
is_octal24 s =
    all_octal (take 24 s)
    && length (take 24 s) == 24
    && (eq_bytes (drop 24 s) [] || eq_bytes (drop 24 s) (10 ∷ []))

-- `note.data or ''`
unfoldable pub text_of : Option Bytes → Bytes
text_of none = []
text_of (some t) = t

unfoldable pub notice_line : Notice → Bytes
notice_line n =
    codes "110 "
    ++ join (codes ",") (
        str_ℤ n.uid
        ∷ str_ℤ n.type
        ∷ str_ℤ n.msgid
        ∷ (if n.sticky then codes "1" else codes "0")
        ∷ (codes "\"" ++ double_quotes (text_of n.content) ++ codes "\"")
        ∷ [])
    ++ crlf

unfoldable pub client_line : ℕ → Client → Bytes
client_line now c =
    codes "110 "
    ++ join (codes ",")
        (str_ℤ c.uid ∷ c.ip ∷ str_ℤ c.port ∷ join (codes ",") (map str_ℤ c.svcs) ∷ [])
    ++ codes " "
    ++ str (age now c)
    ++ crlf

abbrev pub concat : List Bytes → Bytes
concat [] = []
concat (s ∷ ss) = s ++ concat ss

abbrev pub is_some {ℓ} : {A : Type ℓ} → Option A → Bool
is_some none = false
is_some (some a) = true

-- the data that follow the line, and what is left to read
unfoldable pub read_data : ℤ → Bytes → Option Bytes × Bytes
read_data (pos zero) input = (none, input)
read_data (pos (suc n)) input = (some (take (suc n) input), drop (suc n) input)
read_data (negsuc n) input = (none, input)

-- `uid == 0 and not self.server.check_perms('broadcast')`
unfoldable pub may_not_broadcast : {db : Database} → ℤ → World db → Bool
may_not_broadcast uid w = eq_ℤ uid (pos 0) && not (check_perms (codes "broadcast") w)
