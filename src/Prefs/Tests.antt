-- ===== src/Prefs/Tests.antt =====
-- A preference with marks in its value.
use blitzmail.Common.{◌≡◌, refl, arith, Bytes, codes, true, false, [], ◌∷◌, ◌++◌, some, pos}
use blitzmail.Common.Decimal.{int, rstrip, lstrip}
use blitzmail.Errors.{ok}
use blitzmail.Link.Answer.{IsLine, reply}
use blitzmail.Blitz.{Blitz, value_of, is_flagged}
use blitzmail.Prefs.{quote, doubled, read_pref}
use blitzmail.Prefs.Read.{read_pref-quote}

abbrev value : Bytes
value = codes "a\"b"

abbrev session : Blitz
session = record {
  link = record {
    is_connected = true;
    input = reply (codes "100") (quote value) ++ codes "010 Ok\r\n";
    sent = [];
  };
  warn_flag = false;
}

code_lem : int (codes "100") ≡ some (pos 100)
unfolding int rstrip lstrip
code_lem = refl

last_lem : value_of (pos 100) ≡ 0
unfolding value_of
last_lem = refl

value-IsLine : IsLine (quote value)
unfolding rstrip quote doubled
value-IsLine = record { inside = ground arith; trimmed = refl }

read_pref-quote_example : read_pref 1 (codes "ForwardTo" ∷ []) session ≡ (
  ok ((codes "ForwardTo", some value) ∷ []),
  record {
    link = record {
      is_connected = true;
      input = codes "010 Ok\r\n";
      sent = codes "PREF ForwardTo\n";
    };
    warn_flag = is_flagged (pos 100);
  },
)
read_pref-quote_example =
    read_pref-quote (codes "100") value (codes "010 Ok\r\n") (codes "ForwardTo") (pos 100) 0 session
      ((omega arith, omega arith), ((omega arith, omega arith), ((omega arith, omega arith), tt)))
      code_lem last_lem value-IsLine refl refl
