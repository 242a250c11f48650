-- ===== src/Packet/Tests.antt =====
-- Packets at concrete fields.
use blitzmail.Common.{◌≡◌, refl, arith, Bytes, codes, [], ◌∷◌, some, none, pos}
use blitzmail.Errors.{Result, ok, err, struct_error, ◌>>=◌}
use blitzmail.Packet.Service.{name, resolve}
use blitzmail.Packet.Notice.{make_notify_req, parse_notify_req, parse-make_notify_req}
use blitzmail.Packet.Clear.{parse_clear_req}
use blitzmail.Packet.Atp.{
  Packet, req, make_atp_packet, parse_atp_packet, xo, eom, kind_of, flags_of,
}
use blitzmail.Packet.Atp.RoundTrip.{
  IsFit, table_order, parse-make_atp_packet, make-parse_atp_packet,
}
use blitzmail.Packet.Struct.{read_i, read_end}

abbrev mail_to_five : Bytes
mail_to_five = 0 ∷ 0 ∷ 0 ∷ 1 ∷ 0 ∷ 0 ∷ 0 ∷ 5 ∷ 0 ∷ 0 ∷ 1 ∷ 2 ∷ 1 ∷ b'x' ∷ []

parse_mail : parse_notify_req mail_to_five ≡ ok (pos 1, pos 5, pos 258, 1 ∷ b'x' ∷ [])
unfolding parse_notify_req read_i read_end
parse_mail = refl

make_unknown : make_notify_req (name "gopher") (pos 5) (pos 1) none ≡ err struct_error
unfolding make_notify_req resolve
make_unknown = refl

parse-make_notify_req_example :
    (make_notify_req (name "email") (pos 5) (pos 258) (some (1 ∷ b'x' ∷ [])) >>= parse_notify_req)
    ≡ ok (pos 1, pos 5, pos 258, 1 ∷ b'x' ∷ [])
unfolding resolve
parse-make_notify_req_example =
    parse-make_notify_req (name "email") 1 5 258 (some (1 ∷ b'x' ∷ [])) refl (omega arith)
      (omega arith) (omega arith)

-- one code announced and none sent
parse_clear_seven : parse_clear_req (0 ∷ 0 ∷ 0 ∷ 7 ∷ 0 ∷ 0 ∷ 0 ∷ 2 ∷ []) ≡ ok (pos 7, pos 2)
unfolding parse_clear_req
parse_clear_seven = refl

abbrev register_packet : Packet
register_packet = record {
  kind = req;
  flags = eom ∷ xo ∷ xo ∷ [];
  seq = 1;
  tid = 700;
  udata = codes "NR02";
  pdata = none;
}

register_packet-IsFit : IsFit register_packet
register_packet-IsFit = record {
  kind = tt;
  flags = (tt, (tt, (tt, tt)));
  seq = omega arith;
  tid = omega arith;
  udata = refl;
}

parse-make_atp_packet_example :
    (make_atp_packet register_packet >>= parse_atp_packet)
    ≡ ok (record register_packet { flags = table_order (eom ∷ xo ∷ xo ∷ []); pdata = some [] })
parse-make_atp_packet_example = parse-make_atp_packet register_packet register_packet-IsFit

abbrev release_bytes : Bytes
release_bytes = 3 ∷ 0xe0 ∷ 1 ∷ 2 ∷ 188 ∷ codes "NR02"

abbrev parsed {ℓ} : {A : Type ℓ} → A → Result A → A
parsed d (ok a) = a
parsed d (err e) = d

abbrev release_packet : Packet
release_packet = record {
  kind = kind_of 0xc0;
  flags = flags_of 0x20;
  seq = 1;
  tid = 700;
  udata = codes "NR02";
  pdata = some [];
}

parse_release : parse_atp_packet release_bytes ≡ ok release_packet
unfolding parse_atp_packet
parse_release = refl

make-parse_atp_packet_example : make_atp_packet release_packet ≡ ok release_bytes
make-parse_atp_packet_example =
    make-parse_atp_packet release_bytes release_packet (omega arith) parse_release
