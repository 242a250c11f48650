-- ===== src/Message/Info/RoundTrip.antt =====
-- The line of a message is read as the server writes it.
use blitzmail.Common.{
  ℕ, ◌≡◌, refl, ap, ◌∙◌, Bytes, codes, true, false, leb, ◌&&◌, ◌==◌, [], ◌∷◌, ◌++◌, Option, some, ℤ,
  sub_ℕ, Bool-cases, inl, inr,
}
use blitzmail.Common.Decimal.{str}
use blitzmail.Common.Match.{
  before, number-str, number-str_end, shaped, shaped-append, quoted, at_end, is_digit,
}
use blitzmail.Prefs.{doubled}
use blitzmail.Errors.{ok}
use blitzmail.Message.Info.{Info, capital, time_offset, summ_re, dated, parse_response}

quoted-plain :
    (c : ℕ) (s : Bytes) → (c == b'"') ≡ false → quoted (c ∷ s) ≡ before (c ∷ []) (quoted s)
unfolding quoted
quoted-plain c [] h = rw h
quoted-plain c (d ∷ s) h = rw h

quoted-mark : (s : Bytes) → quoted (b'"' ∷ b'"' ∷ s) ≡ before (b'"' ∷ b'"' ∷ []) (quoted s)
unfolding quoted
quoted-mark s = refl

quoted-end : (rest : Bytes) → quoted (b'"' ∷ b',' ∷ rest) ≡ some ([], b',' ∷ rest)
unfolding quoted
quoted-end rest = refl

quoted-doubled :
    (s rest : Bytes) → quoted (doubled s ++ b'"' ∷ b',' ∷ rest) ≡ some (doubled s, b',' ∷ rest)
unfolding doubled
quoted-doubled [] rest = quoted-end rest
quoted-doubled (c ∷ s) rest = elim (Bool-cases (c == b'"')) [
  | inl mark ↦ rw mark (
      quoted-mark (doubled s ++ b'"' ∷ b',' ∷ rest)
      ∙ ap (before (b'"' ∷ b'"' ∷ [])) (quoted-doubled s rest))
  | inr plain ↦ rw plain (
      quoted-plain c (doubled s ++ b'"' ∷ b',' ∷ rest) plain
      ∙ ap (before (c ∷ [])) (quoted-doubled s rest))
]

comma : (rest : Bytes) → shaped (codes ",") (b',' ∷ rest) ≡ some (codes ",", rest)
unfolding shaped
comma rest = refl

comma_mark : (rest : Bytes) → shaped (codes ",\"") (b',' ∷ b'"' ∷ rest) ≡ some (codes ",\"", rest)
unfolding shaped
comma_mark rest = refl

comma_lem : is_digit b',' ≡ false
unfolding is_digit
comma_lem = refl

capital-append :
    (c : ℕ) (rest : Bytes) → (leb b'A' c && leb c b'Z') ≡ true → capital (c ∷ rest) ≡ some (c, rest)
unfolding capital
capital-append c rest h = rw h

-- what a message is described by, the texts as the user reads them
pub record Message : Type 0 where
  pub id : ℕ
  pub date : Bytes
  pub time : Bytes
  pub format : Bytes
  pub sender : Bytes
  pub rcpt : Bytes
  pub subject : Bytes
  pub size : ℕ
  pub enclosures : ℕ
  pub status : ℕ
  pub expires : ℕ

abbrev text_field : Bytes → Bytes → Bytes
text_field t rest = b',' ∷ b'"' ∷ (doubled t ++ b'"' ∷ rest)

abbrev tail_fields : Message → Bytes
tail_fields m =
    b',' ∷ (str m.size ++ b',' ∷ (str m.enclosures ++ b',' ∷ m.status ∷ b',' ∷ str m.expires))

-- the line of a message
abbrev pub write_info : Message → Bytes
write_info m =
    str m.id
    ++ b','
      ∷ (m.date
          ++ b','
            ∷ (m.time
                ++ b','
                  ∷ (m.format
                      ++ text_field m.sender
                          (text_field m.rcpt (text_field m.subject (tail_fields m))))))

pub record IsMessage (m : Message) : Type 0 where
  pub date_lem : shaped (codes "dd/dd/dd") m.date ≡ some (m.date, [])
  pub time_lem : shaped (codes "dd:dd:dd") m.time ≡ some (m.time, [])
  pub format_lem : shaped (codes "d") m.format ≡ some (m.format, [])
  pub status_lem : (leb b'A' m.status && leb m.status b'Z') ≡ true

abbrev pub info_of : Message → Info
info_of m = record {
  message_id = m.id;
  delivery_date = m.date;
  delivery_time = m.time;
  message_format = m.format;
  sender_name = doubled m.sender;
  rcpt_name = doubled m.rcpt;
  subject = doubled m.subject;
  size = m.size;
  num_enclosures = m.enclosures;
  status = m.status;
  expires = sub_ℕ m.expires time_offset;
}

summ_re-write_info : (m : Message) → IsMessage m → summ_re (write_info m) ≡ some (info_of m, [])
unfolding summ_re at_end
summ_re-write_info m h =
    let texts = text_field m.sender (text_field m.rcpt (text_field m.subject (tail_fields m))) in
    rw
      (
        number-str m.id b',' (m.date ++ b',' ∷ (m.time ++ b',' ∷ (m.format ++ texts))) comma_lem,
        comma (m.date ++ b',' ∷ (m.time ++ b',' ∷ (m.format ++ texts))),
        shaped-append (codes "dd/dd/dd") m.date (b',' ∷ (m.time ++ b',' ∷ (m.format ++ texts)))
            h.date_lem,
        comma (m.time ++ b',' ∷ (m.format ++ texts)),
        shaped-append (codes "dd:dd:dd") m.time (b',' ∷ (m.format ++ texts)) h.time_lem,
        comma (m.format ++ texts),
        shaped-append (codes "d") m.format texts h.format_lem,
      )
      (rw (
        comma_mark,
        quoted-doubled m.sender,
        comma_mark,
        quoted-doubled m.rcpt,
        comma_mark,
        quoted-doubled m.subject,
        comma,
        number-str m.size b',' (str m.enclosures ++ b',' ∷ m.status ∷ b',' ∷ str m.expires)
            comma_lem,
        comma,
        number-str m.enclosures b',' (m.status ∷ b',' ∷ str m.expires) comma_lem,
        comma,
        capital-append m.status (b',' ∷ str m.expires) h.status_lem,
        comma,
        number-str_end m.expires,
      ))

-- A message whose line the server writes, with the marks in its texts doubled, is read back: its
-- numbers, its date and time, its status and its expiry on the clock of Unix, and its texts as they
-- stand on the line, the marks in them still doubled. The date and time must have the shape of the
-- line, the status be a capital letter, and the host give the date a time.
pub parse_response-write_info :
    (m : Message) (delivered : Bytes → Option ℤ) {t : ℤ}
    → IsMessage m
    → delivered (m.date ++ codes " " ++ m.time) ≡ some t
    → parse_response delivered (write_info m) ≡ ok (info_of m, t)
unfolding parse_response dated
parse_response-write_info m delivered h e = rw (summ_re-write_info m h) (rw (dated, e))
