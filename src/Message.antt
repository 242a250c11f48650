-- ===== src/Message.antt =====
-- class BlitzSummary of bmesg.py: the summary of a message on the server, with its caches.
pub mod Parts
pub mod Served
pub mod Window
pub mod Body
pub mod Header
pub mod Info
pub mod Outbound
pub mod Commands
mod Tests
use blitzmail.Common.{
  ℕ, zero, suc, ◌+◌, ◌-◌, Bytes, codes, Bool, true, false, ltb, take, drop, length, map, ◌==◌, List,
  [], ◌∷◌, ◌++◌, Option, none, some, ℤ, if◌then◌else◌,
}
use blitzmail.Common.Decimal.{str}
use blitzmail.Errors.{Result}
use blitzmail.Message.Header.{BlitzHeader}
use blitzmail.Blitz.{Blitz, Call, go_on, ◌>>=◌, ◌>>◌, return, tell, hear, hear_block}

-- The folder is known by its number, and `touched` are the folders that were marked as out of date;
-- `message_id` is what `str` gives of the message's number; the cache of the body is a place in it
-- and the text from there.
pub record Summary : Type 0 where
  pub session : Blitz
  pub folder_id : ℕ
  pub message_id : Bytes
  pub size : ℕ
  pub expires : ℤ
  pub touched : List ℕ
  pub h_cache : Option BlitzHeader
  pub b_cache : Option (ℕ × Bytes)

-- a method of the session, called on the summary's one
abbrev pub on_session : {A : Type 0} → Call Blitz A → Call Summary A
on_session c m = let (r, b) = c m.session in (r, record m { session = b })

abbrev pub keep_window : ℕ × Bytes → Call Summary (ℕ × Bytes)
keep_window w m = return w (record m { b_cache = some w })

-- `s.replace('\r', '\n')`
unfoldable pub newlines : Bytes → Bytes
newlines = map (λ c. if c == 13 then 10 else c)

-- `s[i:j]`
unfoldable pub slice : ℕ → ℕ → Bytes → Bytes
slice i j s = take (j - i) (drop i s)

unfoldable pub path : Summary → Bytes
path m = str m.folder_id ++ codes "/" ++ m.message_id

unfoldable pub select : Call Summary (Unit {0})
select m =
    (do on_session (tell (codes "MESS " ++ path m ++ codes "\n")); on_session (hear 10); return tt)
      m

-- the command TEXT of _load_bcache, after `select` where the message is not yet selected
unfoldable pub fetch : Bool → ℕ → ℕ → Call Summary Bytes
fetch selected offset n = do
  if selected then return tt else select
  on_session (tell (codes "TEXT " ++ str offset ++ codes " " ++ str n ++ codes "\n"))
  on_session hear_block

-- `if offset < self.b_cache[0]: …`
unfoldable pub load_before : ℕ → ℕ × Bytes → Call Summary (ℕ × Bytes)
load_before offset w =
    if ltb offset w.0
    then (do block ← fetch false offset (w.0 - offset); keep_window (offset, block ++ w.1))
    else return w

-- `if endpos > len(self.b_cache[1]): …`
unfoldable pub load_after : Bool → ℕ → ℕ → ℕ × Bytes → Call Summary (ℕ × Bytes)
load_after selected offset endpos w =
    if ltb (length w.1) endpos
    then (do
      block ← fetch selected (w.0 + length w.1) (endpos - length w.1)
      keep_window (if length w.1 == 0 then (offset, block) else (w.0, w.1 ++ block)))
    else return w

-- _load_bcache
unfoldable pub load_from : Option (ℕ × Bytes) → ℕ → ℕ → Call Summary Bytes
load_from none offset n = do
  block ← fetch false offset n
  keep_window (offset, block)
  return (newlines block)
load_from (some w) offset n = do
  w' ← load_before offset w
  let endpos = offset - w'.0 + n
  w'' ← load_after (ltb offset w.0) offset endpos w'
  return (newlines (slice (offset - w''.0) endpos w''.1))

unfoldable pub load_bcache : ℕ → ℕ → Call Summary Bytes
load_bcache offset n m = load_from m.b_cache offset n m

-- `offset and length`: both given, and neither is 0
unfoldable pub asked : Option ℕ → Option ℕ → Option (ℕ × ℕ)
asked (some (suc o)) (some (suc n)) = some (suc o, suc n)
asked o n = none

-- the arguments of `_load_bcache`
abbrev pub part : Option ℕ → Option ℕ → ℕ → ℕ × ℕ
part offset n size = elim (asked offset n) [ some r ↦ r | none ↦ (0, size) ]

unfoldable pub get_body : Option ℕ → Option ℕ → Bool → Call Summary Bytes
get_body offset n force m =
    let m' = if force then record m { b_cache = none } else m in
    let (o, k) = part offset n m.size in load_bcache o k m'
