-- ===== src/Message/Commands.antt =====
-- The commands of class BlitzSummary of bmesg.py: the header, the marks, a move to another folder, and
-- what is read anew after a change.
pub mod Moved
use blitzmail.Common.{
  ℕ, zero, suc, ◌+◌, ◌-◌, Bytes, codes, eq_bytes, Bool, true, false, not, ltb, ◌&&◌, ◌==◌, eq_ℤ,
  List, [], ◌∷◌, ◌++◌, Option, none, some, ℤ, pos, negsuc, if◌then◌else◌,
}
use blitzmail.Common.Decimal.{str}
use blitzmail.Common.Lines.{str_ℤ, upper}
use blitzmail.Errors.{Result, ok, err}
use blitzmail.Blitz.{
  Blitz, Call, go_on, ◌>>=◌, ◌>>◌, return, raise, expect_value, tell, hear, hear_block, to_int,
  until,
}
use blitzmail.Message.{Summary, on_session, path, newlines, select}
use blitzmail.Message.Header.{BlitzHeader, header, count}
use blitzmail.Message.Info.{Info, parse_response}

abbrev keep_header : BlitzHeader → Call Summary BlitzHeader
keep_header h m = (ok h, record m { h_cache = some h })

load_header : Call Summary BlitzHeader
load_header = do
  select
  on_session (tell (codes "HEAD\n"))
  text ← on_session hear_block
  h ← raise (header (newlines text))
  keep_header h

-- a header with no lines counts as false
cached_or : Option BlitzHeader → Call Summary BlitzHeader
unfolding load_header
cached_or none = load_header
cached_or (some h) = if ltb 0 (count h) then return h else load_header

-- get_header
unfoldable pub get_header : Bool → Call Summary BlitzHeader
unfolding cached_or
get_header force m = cached_or (if force then none else m.h_cache) m

-- the groups of the line that `reload` reads, as far as a summary keeps them
abbrev keep_info : Info × ℤ → Call Summary (Unit {0})
keep_info i m =
    (ok tt, record m { message_id = str i.0.message_id; size = i.0.size; expires = i.0.expires })

-- reload
unfoldable pub reload : (Bytes → Option ℤ) → Call Summary (Unit {0})
reload delivered m =
    (do
      on_session (tell (codes "MSUM " ++ path m ++ codes "\n"))
      line ← on_session (hear 0)
      i ← raise (parse_response delivered line)
      keep_info i)
      m

-- set_expiration at a time in seconds, `2082826800` later on the server's clock
unfoldable pub set_expiration : (Bytes → Option ℤ) → ℕ → Call Summary (Unit {0})
unfolding reload
set_expiration delivered time m =
    (do
      on_session
          (tell (codes "EXPR " ++ path m ++ codes " " ++ str (time + 2082826800) ++ codes "\n"))
      on_session (hear 10)
      reload delivered)
      m

-- `offset + length - 1`
unfoldable pub last_of : ℕ → ℕ → ℤ
last_of zero zero = negsuc 0
last_of offset n = pos (offset + n - 1)

-- delete_body: the answer is the new number of the message, and the cache of the body is dropped
unfoldable pub delete_body : (Bytes → Option ℤ) → ℕ → ℕ → Call Summary (Unit {0})
unfolding reload
delete_body delivered offset n = do
  select
  on_session
      (tell (codes "TDEL " ++ str offset ++ codes "-" ++ str_ℤ (last_of offset n) ++ codes "\n"))
  id ← on_session (hear 0)
  λ m. (ok tt, record m { message_id = id; b_cache = none })
  reload delivered

-- mark_read and mark_unread
mark : Bytes → Call Summary Bytes
mark how m =
    (do
      on_session (tell (codes "MARK " ++ upper how ++ codes " " ++ path m ++ codes "\n"))
      on_session (hear 10))
      m

unfoldable pub mark_read : Call Summary Bytes
unfolding mark
mark_read = mark (codes "R")

unfoldable pub mark_unread : Call Summary Bytes
unfolding mark
mark_unread = mark (codes "U")

abbrev pub touch : ℕ → Call Summary (Unit {0})
touch id m = (ok tt, record m { touched = m.touched ++ id ∷ [] })

touch_own : Call Summary (Unit {0})
touch_own m = touch m.folder_id m

abbrev pub expire : Bytes → ℤ → Call Summary (Unit {0})
expire op z m = (
  ok tt,
  record m {
    expires = if not (eq_ℤ z (negsuc 0)) && not (eq_bytes op (codes "COPY")) then z else m.expires;
  },
)

-- _move_message, on fuel for the answers
unfoldable pub move_message : ℕ → Bytes → ℕ → Call Summary (Unit {0})
unfolding touch_own
move_message f op target m =
    (do
      on_session (
          tell (
            op
            ++ codes " "
            ++ str m.folder_id
            ++ codes " "
            ++ str target
            ++ codes " "
            ++ m.message_id
            ++ codes "\n"))
      text ← on_session (hear 1)
      z ← raise (to_int text)
      expire op z
      answer ← on_session (expect_value (0 ∷ 1 ∷ []))
      on_session (until f (0 ∷ 1 ∷ []) (λ n. n == 0) (λ a. ok a) answer)
      touch_own
      touch target)
      m

unfoldable pub move_to : ℕ → ℕ → Call Summary (Unit {0})
unfolding move_message
move_to f target = do
  move_message f (codes "MOVE") target
  touch_own
  λ m. (ok tt, record m { folder_id = target })
  touch target

unfoldable pub copy_to : ℕ → ℕ → Call Summary (Unit {0})
unfolding move_message
copy_to f target = do move_message f (codes "COPY") target; touch target
