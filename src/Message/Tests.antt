-- ===== src/Message/Tests.antt =====
-- A message of one folder, its body read in parts, its header, its line, and one that is composed.
use blitzmail.Common.{
  ℕ, ◌≡◌, refl, arith, Bytes, codes, true, false, length, take, drop, List, [], ◌∷◌, ◌++◌, none,
  some, pos, map,
}
use blitzmail.Common.Decimal.{rstrip, lstrip, is_space, str, int}
use blitzmail.Common.Match.{shaped, is_digit}
use blitzmail.Errors.{ok, ◌>>=◌}
use blitzmail.Link.Answer.{IsLine}
use blitzmail.Blitz.{to_int}
use blitzmail.Blitz.Online.{online, says}
use blitzmail.Blitz.Listing.{says_all}
use blitzmail.Message.{Summary, newlines, asked, get_body}
use blitzmail.Message.Parts.{IsWindow, parts, window}
use blitzmail.Message.Served.{served, told, flag_after}
use blitzmail.Message.Body.{get_body_lem}
use blitzmail.Message.Header.{header, get, is_letter, is_name_char}
use blitzmail.Message.Header.Index.{named, as_first}
use blitzmail.Message.Header.Fold.{Field, IsField, entry, write_fields, get-header}
use blitzmail.Message.Info.{parse_response}
use blitzmail.Message.Info.RoundTrip.{
  Message, IsMessage, write_info, info_of, parse_response-write_info,
}
use blitzmail.Message.Outbound.{outcome, is_end, add_recipient, returns, set_body}
use blitzmail.Message.Outbound.Composed.{add_recipient_lem, get_body-set_body}
use blitzmail.Message.Commands.{move_to}
use blitzmail.Message.Commands.Moved.{move_line, move_to_lem}

abbrev ok_text : Bytes
ok_text = codes "Ok"

ok_text-IsLine : IsLine ok_text
unfolding rstrip
ok_text-IsLine = record { inside = ground arith; trimmed = refl }

-- a body of eleven bytes, of which three are in the cache
abbrev body : Bytes
body = codes "hello\rworld"

abbrev summary : Summary
summary = record {
  session = online [] [] false;
  folder_id = 4;
  message_id = codes "17";
  size = 11;
  expires = pos 0;
  touched = [];
  h_cache = none;
  b_cache = some (5, codes "\rwo");
}

abbrev missing : List (ℕ × ℕ)
missing = parts body summary.b_cache 2 8

get_body_lem_example :
    (get_body
        (some 2)
        (some 8)
        false
        (record summary { session = online (served 1 ok_text body false missing ++ []) [] false })
      ≡ (
        ok (newlines (take 8 (drop 2 body))),
        record summary {
          session = online [] (told summary false missing) (flag_after 1 missing false);
          b_cache = some (window body summary.b_cache 2 8);
        },
      ))
    × IsWindow body (window body summary.b_cache 2 8)
unfolding asked
get_body_lem_example =
    get_body_lem 1 ok_text body summary (some 2) (some 8) false [] [] false (omega arith)
      ok_text-IsLine refl (λ unforced. (refl, omega arith))

-- a line that is folded, and another of the same name
abbrev fields : List Field
fields =
    record {
      initial = b'T';
      letters = codes "o";
      start = b'a';
      text = codes "nn,";
      more = codes "bob" ∷ [];
    }
    ∷ record { initial = b't'; letters = codes "O"; start = b'c'; text = []; more = [] }
    ∷ []

fields-IsField :
    IsField (record {
      initial = b'T';
      letters = codes "o";
      start = b'a';
      text = codes "nn,";
      more = codes "bob" ∷ [];
    })
    × IsField (record { initial = b't'; letters = codes "O"; start = b'c'; text = []; more = [] })
unfolding is_letter is_name_char is_space lstrip
fields-IsField = (
  record {
    letter_first = refl;
    name_chars = (refl, tt);
    begins = refl;
    inside = ground arith;
    pieces = ((refl, ground arith), tt);
  },
  record { letter_first = refl; name_chars = (refl, tt); begins = refl; inside = tt; pieces = tt },
)

get-header_example :
    (header (write_fields fields) >>= get (codes "TO"))
    ≡ as_first (named (codes "TO") (map entry fields))
get-header_example = get-header fields (codes "TO") (fields-IsField.0, (fields-IsField.1, tt))

abbrev message : Message
message = record {
  id = 17;
  date = codes "02/03/06";
  time = codes "10:11:12";
  format = codes "1";
  sender = codes "Ann \"A\"";
  rcpt = codes "Bob";
  subject = codes "Hi";
  size = 11;
  enclosures = 0;
  status = b'N';
  expires = 3230000000;
}

message-IsMessage : IsMessage message
unfolding shaped is_digit
message-IsMessage = record {
  date_lem = refl;
  time_lem = refl;
  format_lem = refl;
  status_lem = refl;
}

parse_response-write_info_example :
    parse_response (λ s. some (pos 1138961472)) (write_info message)
    ≡ ok (info_of message, pos 1138961472)
parse_response-write_info_example =
    parse_response-write_info message (λ s. some (pos 1138961472)) message-IsMessage refl

-- a list of two members, one of whom is not found
add_recipient_lem_example :
    add_recipient
      (codes "RCPT")
      2
      (codes "staff")
      (online (says_all 0 ((44, ok_text) ∷ (42, ok_text) ∷ []) ++ []) [] false)
    ≡ (
      ok ((outcome 44, ok_text) ∷ (outcome 42, ok_text) ∷ []),
      online [] (codes "RCPT staff\n") false,
    )
unfolding is_end
add_recipient_lem_example =
    add_recipient_lem (codes "RCPT") (codes "staff") 0 (44, ok_text) ((42, ok_text) ∷ []) [] []
      false (omega arith) (omega arith, ok_text-IsLine, refl)
      (refl, (omega arith, ok_text-IsLine, refl), refl)

get_body-set_body_example :
    (set_body
        (codes "1")
        (codes "a\nb")
        (online (says 0 50 ok_text ++ (says 0 10 ok_text ++ [])) [] false)
      ≡ (
        ok ok_text,
        online []
            ((codes "MDAT "
                ++ str (length (returns (codes "a\nb")))
                ++ codes " "
                ++ codes "1"
                ++ codes "\n")
              ++ returns (codes "a\nb"))
            false,
      ))
    × ((get_body none none true (record (record summary { size = 3 }) {
      session =
          online (served 0 ok_text (returns (codes "a\nb")) false ((0, 3) ∷ []) ++ []) [] false;
    })).0
        ≡ ok (codes "a\nb"))
unfolding returns
get_body-set_body_example =
    get_body-set_body (codes "1") (codes "a\nb") ok_text ok_text 0 [] [] false
      (record summary { size = 3 }) (omega arith) ok_text-IsLine ok_text-IsLine (ground arith) refl

expiry_lem : to_int (codes "12") ≡ ok (pos 12)
unfolding to_int int rstrip lstrip
expiry_lem = refl

expiry-IsLine : IsLine (codes "12")
unfolding rstrip
expiry-IsLine = record { inside = ground arith; trimmed = refl }

move_to_lem_example :
    move_to 1 9 (record summary {
      session = online (says 0 1 (codes "12") ++ (says_all 0 ((0, ok_text) ∷ []) ++ [])) [] false;
    })
    ≡ (
      ok tt,
      record summary {
        session = online [] (move_line summary (codes "MOVE") 9) false;
        expires = pos 12;
        folder_id = 9;
        touched = 4 ∷ 9 ∷ 4 ∷ 9 ∷ [];
      },
    )
move_to_lem_example =
    move_to_lem summary 9 0 (omega arith) (codes "12") (pos 12) (0, ok_text) [] ((0, ok_text) ∷ [])
      [] [] false expiry-IsLine expiry_lem (omega arith, ok_text-IsLine, refl) (refl, refl)
