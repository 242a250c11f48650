-- ===== src/Packet/Atp.antt =====
-- make_atp_packet and parse_atp_packet: nine bytes of header (the DDP type, kind and flags, sequence
-- number, transaction, four bytes of user data), then the packet data.
mod Flags
pub mod RoundTrip
use blitzmail.Common.{
  ℕ, zero, ◌+◌, ◌<◌, ◌≡◌, refl, arith, Bytes, AreBytes, List, [], ◌∷◌, ◌++◌, length, take, drop,
  ltb, if◌then◌else◌, ℤ, pos, Option, none, some, bit_and, bit_or, select, not, ◌==◌, codes,
}
use blitzmail.Errors.{Result, ok, err, struct_error, value_error, ◌>>=◌, ◌>>◌}
use blitzmail.Packet.Struct.{be16, of_be16, pack_b, pack_h, read_h, read_end}
use blitzmail.Packet.Notice.{payload}
pub use Flags.{Flag, xo, eom, sts, xcall, tid, cksum, bits, flag_value, named}

-- A packet's kind is a name of ATP_TYPE, or a number where the table has none.
pub data Kind : Type 0 where
  req rsp rel : Kind
  other : ℕ → Kind

unfoldable pub kind_value : Kind → ℕ
kind_value req = 0x40
kind_value rsp = 0x80
kind_value rel = 0xc0
kind_value (other n) = n

abbrev pub ddp_atp_packet : ℕ
ddp_atp_packet = 3

abbrev pub atp_header_len : ℕ
atp_header_len = 8

-- `reduce(_or_, (ATP_FLAG.get(f, f) for f in flags), 0)`
unfoldable pub or_flags : ℕ → List Flag → ℕ
unfolding flag_value
or_flags acc [] = acc
or_flags acc (f ∷ fs) = or_flags (bit_or acc (flag_value f)) fs

-- The arguments of make_atp_packet. Flags that are given as one integer `n` are `bits n ∷ []`.
pub record Packet : Type 0 where
  pub kind : Kind
  pub flags : List Flag
  pub seq : ℕ
  pub tid : ℕ
  pub udata : Bytes
  pub pdata : Option Bytes

unfoldable pub pack_header : Packet → Result Bytes
pack_header p = do
  kfl ← pack_b (pos (bit_or (kind_value p.kind) (or_flags 0 p.flags)))
  seq ← pack_b (pos p.seq)
  t ← pack_h (pos p.tid)
  ok (ddp_atp_packet ∷ (kfl ++ (seq ++ (t ++ p.udata))))

unfoldable pub make_atp_packet : Packet → Result Bytes
make_atp_packet p =
    if not (length p.udata == 4)
    then err value_error
    else do out ← pack_header p; ok (out ++ payload p.pdata)

unfoldable pub kind_of : ℕ → Kind
kind_of k = if k == 0x40 then req else if k == 0x80 then rsp else if k == 0xc0 then rel else other k

-- `[name for (name, val) in ATP_FLAG.iteritems() if flg & val != 0]`
unfoldable pub flags_of : ℕ → List Flag
unfolding flag_value
flags_of flg = select (λ f. not (bit_and flg (flag_value f) == 0)) named

parse_header : ℕ → ℕ → ℕ → Bytes → Bytes → Result Packet
unfolding read_h
parse_header ddp kfl seq rest body = do
  (t, udata) ← read_h rest
  if not (ddp == ddp_atp_packet)
      then err value_error
      else ok (record {
        kind = kind_of (bit_and kfl 0xc0);
        flags = flags_of (bit_and kfl 0x3f);
        seq = seq;
        tid = t;
        udata = udata;
        pdata = some body;
      })

unfoldable pub parse_atp_packet : Bytes → Result Packet
unfolding parse_header
parse_atp_packet (ddp ∷ kfl ∷ seq ∷ rest) =
    if ltb (length (ddp ∷ kfl ∷ seq ∷ rest)) (atp_header_len + 1)
    then err value_error
    else parse_header ddp kfl seq (take 6 rest) (drop 6 rest)
parse_atp_packet pkt = err value_error
