-- ===== src/Notifyd/Tcp/Tests.antt =====
-- The theorems of the TCP server at concrete states.
use blitzmail.Common.{
  ℕ, ◌≡◌, refl, ap, eq_bytes, inl, inr, Bytes, codes, true, false, List, [], ◌∷◌, ◌++◌, none, some,
  ℤ, pos, eq_ℤ, if◌then◌else◌,
}
use blitzmail.Common.Decimal.{int, rstrip, lstrip}
use blitzmail.Common.Lines.{upper, readline, split_space, re_split}
use blitzmail.Errors.{ok, err, attribute_error}
use blitzmail.Notifyd.Directory.{given}
use blitzmail.Notifyd.World.{check_perms, is_privileged, all_notices}
use blitzmail.Notifyd.Wire.{ints, is_octal24, read_data, may_not_broadcast}
use blitzmail.Notifyd.Sample.{table, phone_book, world}
use blitzmail.Notifyd.Tcp.{Conn, cmd_pase, cmd_list, cmd_notify, perform}
use blitzmail.Notifyd.Tcp.Handle.{parse_line, turn}
use blitzmail.Notifyd.Tcp.Reach.{here, next, served, broadcast_IsValidated}
use blitzmail.Notifyd.Tcp.Sequence.{IsIdle, IsResponse, perform_unsolicited, turn_once}
use blitzmail.Notifyd.Tcp.Post.{all_notices-cmd_notify, unprivileged_refused}

-- a connection with this input on which USER was answered
abbrev challenged : Bytes → Conn phone_book
challenged input = record {
  input = input;
  output = [];
  quit = false;
  dnd = some tt;
  resp = some (codes "123456701234567012345670", tt);
}

abbrev quiet : Bytes → Conn phone_book
quiet input = record { input = input; output = []; quit = false; dnd = none; resp = none }

abbrev password : Conn phone_book
password = challenged (codes "PASE 765432107654321076543210\r\n")

privileged_lem :
    check_perms (codes "broadcast") (turn table phone_book 30 (password, world)).1.1 ≡ true
unfolding check_perms is_privileged turn upper parse_line split_space rstrip readline perform
    cmd_pase re_split is_octal24 int
privileged_lem = refl

broadcast_IsValidated_example :
    (uid : ℤ) × ((turn table phone_book 30 (password, world)).1.1.adm ≡ some uid)
    × ((q : phone_book.Answer) × (pw t : Bytes) × (phone_book.answer q pw ≡ given t)
        × (int t ≡ some uid))
broadcast_IsValidated_example =
    broadcast_IsValidated table phone_book (next here (served 30 password world)) refl
      privileged_lem

perform_unsolicited_example :
    (perform table phone_book 30 (codes "pass") (codes "x" ∷ []) (quiet [], world)).0
    ≡ err attribute_error
unfolding upper
perform_unsolicited_example =
    perform_unsolicited table phone_book 30 (codes "pass") (codes "x" ∷ []) (quiet []) world
      (inl refl) refl

turn_once_example : IsIdle table phone_book (turn table phone_book 30 (password, world)).1.0
turn_once_example = turn_once table phone_book 30 password world tt refl

noop_lem : (r : IsResponse (parse_line (readline (codes "NOOP\r\nQUIT\r\n")).0).0) → ⊥
unfolding parse_line readline rstrip split_space upper
noop_lem (inl e) = let f : true ≡ false = ap (eq_bytes (codes "NOOP")) e in cc
noop_lem (inr e) = let f : true ≡ false = ap (eq_bytes (codes "NOOP")) e in cc

abbrev words : List Bytes
words = codes "2" ∷ codes "7" ∷ codes "1" ∷ codes "11" ∷ codes "1" ∷ []

words_lem : ints words ≡ some (pos 2 ∷ pos 7 ∷ pos 1 ∷ pos 11 ∷ pos 1 ∷ [])
unfolding ints int rstrip lstrip
words_lem = refl

may_lem : may_not_broadcast (pos 7) world ≡ false
unfolding may_not_broadcast
may_lem = refl

all_notices-cmd_notify_example :
    (n : ℕ) × (all_notices
        (cmd_notify table phone_book 30 words (quiet (codes "hiNOOP\r\n"), world)).1.1
      ≡ all_notices world
        ++ (if eq_ℤ (pos 1) (pos 0)
            then []
            else record {
              uid = pos 7;
              type = pos 1;
              msgid = pos 11;
              sticky = true;
              content = (read_data (pos 2) (codes "hiNOOP\r\n")).0;
              rowid = some n;
            }
              ∷ []))
all_notices-cmd_notify_example =
    all_notices-cmd_notify table phone_book 30 words (quiet (codes "hiNOOP\r\n")) world (pos 2)
      (pos 7) (pos 1) (pos 11) (pos 1) words_lem may_lem

abbrev broadcast_words : List Bytes
broadcast_words = codes "0" ∷ codes "0" ∷ codes "1" ∷ codes "11" ∷ codes "0" ∷ []

abbrev clear_words : List Bytes
clear_words = codes "0" ∷ codes "1" ∷ []

broadcast_words_lem : ints broadcast_words ≡ some (pos 0 ∷ pos 0 ∷ pos 1 ∷ pos 11 ∷ pos 0 ∷ [])
unfolding ints int rstrip lstrip
broadcast_words_lem = refl

clear_words_lem : ints clear_words ≡ some (pos 0 ∷ pos 1 ∷ [])
unfolding ints int rstrip lstrip
clear_words_lem = refl

no_right_lem : check_perms (codes "broadcast") world ≡ false
unfolding check_perms is_privileged
no_right_lem = refl

unprivileged_refused_example :
    cmd_list table phone_book 30 (codes "all" ∷ []) (quiet [], world)
    ≡ (ok tt, (record (quiet []) { output = codes "554 Permission denied.\r\n" }, world))
unprivileged_refused_example =
    (unprivileged_refused table phone_book 30 (quiet []) world broadcast_words clear_words
      (codes "all" ∷ []) (pos 0) (pos 1) (pos 11) (pos 0) no_right_lem broadcast_words_lem
      clear_words_lem).2
