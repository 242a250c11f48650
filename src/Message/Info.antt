-- ===== src/Message/Info.antt =====
-- _parse_response of BlitzSummary: the line that describes a message. What `time` makes of the date
-- of delivery depends on the time zone of the host, and is an argument.
pub mod RoundTrip
use blitzmail.Common.{
  ℕ, ◌-◌, Bytes, codes, Bool, true, false, leb, ◌&&◌, [], ◌∷◌, ◌++◌, Option, none, some, ℤ, sub_ℕ,
  if◌then◌else◌,
}
use blitzmail.Common.Match.{Match, then_match, ◌>>=◌, ◌>>◌, matched, number, shaped, quoted, at_end}
use blitzmail.Errors.{Result, ok, err, value_error}

-- the groups of the expression, and the time of delivery
pub record Info : Type 0 where
  pub message_id : ℕ
  pub delivery_date : Bytes
  pub delivery_time : Bytes
  pub message_format : Bytes
  pub sender_name : Bytes
  pub rcpt_name : Bytes
  pub subject : Bytes
  pub size : ℕ
  pub num_enclosures : ℕ
  pub status : ℕ
  pub expires : ℤ

-- `[A-Z]`
unfoldable pub capital : Match ℕ
capital [] = none
capital (c ∷ s) = if leb b'A' c && leb c b'Z' then some (c, s) else none

-- `_time_offset`, negated
abbrev pub time_offset : ℕ
time_offset = 2082826800

-- `_summ_re`
unfoldable pub summ_re : Match Info
summ_re = do
  id ← number
  shaped (codes ",")
  date ← shaped (codes "dd/dd/dd")
  shaped (codes ",")
  time ← shaped (codes "dd:dd:dd")
  shaped (codes ",")
  format ← shaped (codes "d")
  shaped (codes ",\"")
  sender ← quoted
  shaped (codes ",\"")
  rcpt ← quoted
  shaped (codes ",\"")
  subject ← quoted
  shaped (codes ",")
  size ← number
  shaped (codes ",")
  enclosures ← number
  shaped (codes ",")
  status ← capital
  shaped (codes ",")
  expires ← number
  at_end
  matched (record {
    message_id = id;
    delivery_date = date;
    delivery_time = time;
    message_format = format;
    sender_name = sender;
    rcpt_name = rcpt;
    subject = subject;
    size = size;
    num_enclosures = enclosures;
    status = status;
    expires = sub_ℕ expires time_offset;
  })

-- the groups, if `mktime(strptime(date + ' ' + time, '%m/%d/%y %H:%M:%S'))` is a time
dated : (Bytes → Option ℤ) → Option (Info × Bytes) → Result (Info × ℤ)
dated delivered none = err value_error
dated delivered (some (i, rest)) =
    elim (delivered (i.delivery_date ++ codes " " ++ i.delivery_time)) [
      | some t ↦ ok (i, t)
      | none ↦ err value_error
    ]

unfoldable pub parse_response : (Bytes → Option ℤ) → Bytes → Result (Info × ℤ)
unfolding dated
parse_response delivered line = dated delivered (summ_re line)
