-- ===== src/Folder/Tests.antt =====
-- A folder of two messages that is out of date, and its last message.
use blitzmail.Common.{
  ℕ, ◌≡◌, refl, arith, Bytes, codes, true, false, [], ◌++◌, none, some, ℤ, pos, negsuc,
}
use blitzmail.Common.Decimal.{rstrip, str}
use blitzmail.Common.Match.{shaped, is_digit}
use blitzmail.Link.Answer.{IsLine}
use blitzmail.Blitz.Online.{online}
use blitzmail.Message.Info.{Info}
use blitzmail.Message.Info.RoundTrip.{
  Message, IsMessage, write_info, info_of, parse_response-write_info,
}
use blitzmail.Prefs.{doubled}
use blitzmail.Folder.{Facts, item}
use blitzmail.Folder.Loaded.{reloads, asks, reloaded, Knows, write_facts}
use blitzmail.Folder.Item.{current, place, said, got, requests, told_of, item_lem}

abbrev facts : Facts
facts = record { count = 2; name = codes "In"; size = 99 }

abbrev message : Message
message = record {
  id = 17;
  date = codes "02/03/06";
  time = codes "10:11:12";
  format = codes "1";
  sender = codes "Ann";
  rcpt = codes "Bob";
  subject = codes "Hi";
  size = 11;
  enclosures = 0;
  status = b'N';
  expires = 3230000000;
}

message-IsMessage : IsMessage message
unfolding shaped is_digit
message-IsMessage = record {
  date_lem = refl;
  time_lem = refl;
  format_lem = refl;
  status_lem = refl;
}

message-IsLine : IsLine (write_info message)
unfolding rstrip str doubled
message-IsLine = record { inside = ground arith; trimmed = refl }

facts-IsLine : IsLine (write_facts 5 facts)
unfolding rstrip str
facts-IsLine = record { inside = ground arith; trimmed = refl }

facts-Knows : Knows 5 true none facts
facts-Knows = (
  (λ up. cc),
  record {
    initial = b'I';
    others = codes "n";
    parts = refl;
    initial_inside = ground arith;
    others_inside = ground arith;
  },
  facts-IsLine,
)

abbrev line : ℕ → Bytes
line p = write_info message

abbrev made : ℕ → Info × ℤ
made p = (info_of message, pos 3)

item_lem_example :
    item
      (λ s. some (pos 3))
      1
      (negsuc 0)
      (record {
        session =
            online (reloads 0 5 true facts ++ (said 0 line (place (negsuc 0) 2) ++ [])) [] false;
        id = 5;
        need_rl = true;
        facts = none;
      })
    ≡ (
      got made (place (negsuc 0) 2),
      current 5 facts []
          (asks 5 true ++ requests 5 (place (negsuc 0) 2))
          (told_of 0 (place (negsuc 0) 2) (reloaded 0 true false)),
    )
item_lem_example =
    item_lem (λ s. some (pos 3)) 0 5 true none facts line made 0 (negsuc 0) [] [] false
      (omega arith) facts-Knows
      (λ p inside. (
        message-IsLine,
        parse_response-write_info message (λ s. some (pos 3)) message-IsMessage refl,
      ))
