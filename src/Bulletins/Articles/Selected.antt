-- ===== src/Bulletins/Articles/Selected.antt =====
-- A topic is selected, and a command gets its lines.
use blitzmail.Common.{
  ℕ, ◌+◌, ◌*◌, ◌<◌, ◌≡◌, ◌≢◌, refl, ap, arith, Bytes, codes, eq_bytes→eq, Bool, true, false, All,
  List, [], ◌∷◌, ◌++◌, append-nil, ◌==◌, Option, none, some, if◌then◌else◌,
}
use blitzmail.Errors.{ok}
use blitzmail.Link.{raw_send}
use blitzmail.Link.Answer.{IsLine, write_lines, up, read_lines-write_lines}
use blitzmail.Blitz.Online.{says, expect-says}
use blitzmail.Bulletins.Articles.{Board, cmd1, lines_of, is_selected, select}

-- a command with an argument
abbrev pub command : Bytes → Bytes → Bytes
command cmd arg = cmd ++ 32 ∷ (arg ++ codes "\n")

pub cmd1-up :
    (cmd arg input sent : Bytes)
    → cmd1 cmd arg (up input sent) ≡ (ok tt, up input (sent ++ command cmd arg))
unfolding cmd1 raw_send
cmd1-up cmd arg input sent = refl

pub lines_of-says :
    (w n : ℕ) (cmd arg text : Bytes) (ss : List Bytes) (rest sent : Bytes)
    → w < 10
    → n < 100
    → IsLine text
    → All IsLine ss
    → All (λ s. s ≢ codes ".") ss
    → lines_of (w * 100 + n) cmd arg (up (says w n text ++ (write_lines ss ++ rest)) sent)
      ≡ (ok ss, up rest (sent ++ command cmd arg))
unfolding lines_of
lines_of-says w n cmd arg text ss rest sent hw hn line h dots = rw (
  cmd1-up,
  expect-says (w * 100 + n) w n text (write_lines ss ++ rest) (sent ++ command cmd arg) hw hn line,
  itself,
  read_lines-write_lines ss rest (sent ++ command cmd arg) h dots,
)
  where
    itself : ((w * 100 + n) == (w * 100 + n)) ≡ true
    itself = ground arith

-- what the server says when a topic is selected, and what it is sent
abbrev pub selecting : Board → Bytes → Bytes
selecting b text = if is_selected b.topic.name b.g_select then [] else says 2 11 text

abbrev pub selects : Board → Bytes
selects b = if is_selected b.topic.name b.g_select then [] else command (codes "GROUP") b.topic.name

selected_lem :
    (name : Bytes) (selected : Option Bytes)
    → is_selected name selected ≡ true
    → selected ≡ some name
unfolding is_selected
selected_lem name none h = cc
selected_lem name (some n) h = ap some (eq_bytes→eq n name h)

pub select-up :
    (b : Board) (text rest sent : Bytes)
    → IsLine text
    → select (record b { link = up (selecting b text ++ rest) sent })
      ≡ (ok tt, record b { link = up rest (sent ++ selects b); g_select = some b.topic.name })
unfolding select
select-up b text rest sent line = go (is_selected b.topic.name b.g_select) refl
  where
    go :
        (chosen : Bool)
        → is_selected b.topic.name b.g_select ≡ chosen
        → select (record b { link = up ((if chosen then [] else says 2 11 text) ++ rest) sent }) ≡ (
          ok tt,
          record b {
            link = up rest (sent ++ (if chosen then [] else command (codes "GROUP") b.topic.name));
            g_select = some b.topic.name;
          },
        )
    go true e =
        rw (e, append-nil sent)
          (ap (λ s. (ok tt, record b { link = up rest sent; g_select = s }))
            (selected_lem b.topic.name b.g_select e))
    go false e =
        rw (e, cmd1-up)
          (rw (
            expect-says 211 2 11 text rest (sent ++ command (codes "GROUP") b.topic.name)
              (omega arith) (omega arith) line))
