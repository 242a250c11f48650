-- ===== src/Bulletins/Articles/Texts.antt =====
-- The texts of an article.
use blitzmail.Common.{ℕ, ◌+◌, ◌*◌, ◌<◌, ◌≡◌, ◌≢◌, arith, Bytes, codes, All, List, ◌++◌, some}
use blitzmail.Errors.{ok}
use blitzmail.Link.Answer.{IsLine, write_lines, up}
use blitzmail.Blitz.Online.{says}
use blitzmail.Bulletins.Articles.{Article, Board, fetch, get_message}
use blitzmail.Common.Lines.{join}
use blitzmail.Bulletins.Articles.Selected.{command, lines_of-says, selecting, selects, select-up}

-- A text of an article is fetched, after the topic is selected.
fetch-up :
    (b : Board) (a : Article) (w n : ℕ) (cmd : Bytes) (ss : List Bytes)
    (text text' rest sent : Bytes)
    → w < 10
    → n < 100
    → All IsLine ss
    → All (λ s. s ≢ codes ".") ss
    → IsLine text
    → IsLine text'
    → fetch (w * 100 + n) cmd a (record b {
      link = up (selecting b text ++ (says w n text' ++ (write_lines ss ++ rest))) sent;
    })
      ≡ (
        ok ss,
        record b {
          link = up rest ((sent ++ selects b) ++ command cmd a.id);
          g_select = some b.topic.name;
        },
      )
unfolding fetch
fetch-up b a w n cmd ss text text' rest sent hw hn h dots line line' =
    rw (select-up b text (says w n text' ++ (write_lines ss ++ rest)) sent line)
      (rw (lines_of-says w n cmd a.id text' ss rest (sent ++ selects b) hw hn line' h dots))

-- The text of an article is got as the server sends it, its lines joined by newlines; the topic is
-- selected first, unless it was the last to be selected.
pub get_message-up :
    (b : Board) (a : Article) (ss : List Bytes) (text text' rest sent : Bytes)
    → All IsLine ss
    → All (λ s. s ≢ codes ".") ss
    → IsLine text
    → IsLine text'
    → get_message a (record b {
      link = up (selecting b text ++ (says 2 20 text' ++ (write_lines ss ++ rest))) sent;
    })
      ≡ (
        ok (join (codes "\n") ss),
        record b {
          link = up rest ((sent ++ selects b) ++ command (codes "ARTICLE") a.id);
          g_select = some b.topic.name;
        },
      )
unfolding get_message
get_message-up b a ss text text' rest sent h dots line line' = rw (
    fetch-up b a 2 20 (codes "ARTICLE") ss text text' rest sent (omega arith) (omega arith) h dots
      line line')
