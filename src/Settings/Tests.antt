-- ===== src/Settings/Tests.antt =====
-- A vacation message of two lines.
use blitzmail.Common.{◌≡◌, ◌≢◌, refl, arith, Bytes, codes, false, true, All, [], ◌++◌, some}
use blitzmail.Common.Decimal.{rstrip, str}
use blitzmail.Errors.{ok}
use blitzmail.Link.Answer.{IsLine}
use blitzmail.Blitz.Online.{online, says}
use blitzmail.Message.Outbound.{returns}
use blitzmail.Settings.{set_vacation_msg, get_vacation_msg}
use blitzmail.Settings.Kept.{keeps, get_vacation_msg-set_vacation_msg}

line_ok : IsLine (codes "Ok")
unfolding rstrip
line_ok = record {
  inside = ((λ e. omega (arith, e)), ((λ e. omega (arith, e)), tt));
  trimmed = refl;
}

abbrev text : Bytes
text = codes "I am\n"

plain : All (λ c. c ≢ 13) text
plain = (
  (λ e. omega (arith, e)),
  (
    (λ e. omega (arith, e)),
    ((λ e. omega (arith, e)), ((λ e. omega (arith, e)), ((λ e. omega (arith, e)), tt))),
  ),
)

get_vacation_msg-set_vacation_msg_example :
    (set_vacation_msg text
        (online (says 1 50 (codes "Ok") ++ (says 1 10 (codes "Ok") ++ [])) [] false)
      ≡ (ok tt, online [] (codes "VDAT 5\nI am\r") true))
    × (get_vacation_msg (online (keeps 1 (returns text) (codes "Ok") ++ []) [] false)
        ≡ (ok (some text), online [] (codes "VTXT\n") true))
unfolding returns str
get_vacation_msg-set_vacation_msg_example =
    get_vacation_msg-set_vacation_msg text (codes "Ok") (codes "Ok") 1 [] [] false (omega arith)
      line_ok line_ok plain
