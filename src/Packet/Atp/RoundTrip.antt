-- ===== src/Packet/Atp/RoundTrip.antt =====
-- parse_atp_packet and make_atp_packet undo one another.
use blitzmail.Common.{
  ℕ, ◌<◌, ◌≡◌, ◌^◌, refl, arith, Bool, true, false, ◌&&◌, ◌||◌, Bytes, AreBytes, List, [], ◌∷◌,
  bit_and, bit_or, holds_below, holds_below-at, ◌==◌, ==_iff, length, any, select, select-congr,
  ltb, ltb→lt, not, All, All-select, subst, some, sym, ◌∙◌,
}
use blitzmail.Errors.{ok, >>=-eq-ok, ◌>>=◌}
use blitzmail.Packet.Struct.{be16, of_be16, pack_b, pack_h, read_h, of_be16-lt}
use blitzmail.Packet.Notice.{payload}
use blitzmail.Packet.Atp.Flags.{Flag, xo, eom, sts, xcall, tid, cksum, bits, flag_value, named}
use blitzmail.Packet.Atp.{
  Kind, other, kind_value, kind_of, or_flags, flags_of, Packet, make_atp_packet, parse_atp_packet,
  pack_header,
}

-- the byte of kind and flags, taken apart and put together
abbrev again : ℕ → ℕ
again kfl =
    bit_or (kind_value (kind_of (bit_and kfl 0xc0))) (or_flags 0 (flags_of (bit_and kfl 0x3f)))

again_table : holds_below 256 (λ kfl. again kfl == kfl) ≡ true
unfolding holds_below kind_value kind_of or_flags flags_of select
again_table = refl

again_lem : (kfl : ℕ) → kfl < 256 → again kfl ≡ kfl
again_lem kfl h = (==_iff _ kfl).0 (holds_below-at 256 _ kfl again_table h)

-- Bytes that parse as an ATP packet, of whatever kind and with whatever flags, are, byte for byte,
-- what is made of the packet that was parsed.
pub make-parse_atp_packet :
    (pkt : Bytes) (p : Packet)
    → AreBytes pkt
    → parse_atp_packet pkt ≡ ok p
    → make_atp_packet p ≡ ok pkt
unfolding make_atp_packet pack_header parse_atp_packet pack_b pack_h be16 of_be16 read_h
make-parse_atp_packet (ddp ∷ kfl ∷ seq ∷ a ∷ b ∷ c ∷ d ∷ e ∷ f ∷ body) p bytes eq =
    ground (arith, again_lem kfl)
make-parse_atp_packet pkt p bytes eq = ground arith

abbrev pub IsNamed : Flag → Type 0
IsNamed (bits n) = ⊥
IsNamed _ = Unit

all_named : (Flag → Bool) → Bool
all_named p = p xo && (p eom && (p sts && (p xcall && (p tid && p cksum))))

all_named-at : (p : Flag → Bool) (f : Flag) → IsNamed f → all_named p ≡ true → p f ≡ true
unfolding all_named
all_named-at p (bits n) k h = absurd k
all_named-at p _ k h = ground arith

-- is the flag `g` set in the mask?
abbrev has : ℕ → Flag → Bool
has mask g = not (bit_and mask (flag_value g) == 0)

-- the flag `g` is `f`
abbrev pub same : Flag → Flag → Bool
same g f = flag_value f == flag_value g

abbrev iff : Bool → Bool → Bool
iff true b = b
iff false b = not b

iff→eq : (a b : Bool) → iff a b ≡ true → a ≡ b
iff→eq true b h = sym h
iff→eq false true h = cc
iff→eq false false h = refl

abbrev joins : ℕ → Flag → Flag → Bool
joins a f g = iff (has (bit_or a (flag_value f)) g) (has a g || same g f)

joins_table : holds_below 64 (λ a. all_named (λ f. all_named (λ g. joins a f g))) ≡ true
unfolding holds_below all_named flag_value
joins_table = refl

below_table : holds_below 64 (λ a. all_named (λ f. ltb (bit_or a (flag_value f)) 64)) ≡ true
unfolding holds_below all_named flag_value
below_table = refl

has-bit_or :
    (a : ℕ) (f g : Flag)
    → a < 64
    → IsNamed f
    → IsNamed g
    → has (bit_or a (flag_value f)) g ≡ (has a g || same g f)
has-bit_or a f g h nf ng =
    iff→eq _ _ (all_named-at _ g ng (all_named-at _ f nf (holds_below-at 64 _ a joins_table h)))

bit_or-lt : (a : ℕ) (f : Flag) → a < 64 → IsNamed f → bit_or a (flag_value f) < 64
bit_or-lt a f h nf = ltb→lt _ _ (all_named-at _ f nf (holds_below-at 64 _ a below_table h))

or_flags-lt : (acc : ℕ) (fs : List Flag) → acc < 64 → All IsNamed fs → or_flags acc fs < 64
unfolding or_flags
or_flags-lt acc [] h n = h
or_flags-lt acc (f ∷ fs) h n =
    or_flags-lt (bit_or acc (flag_value f)) fs (bit_or-lt acc f h n.0) n.1

has-or_flags :
    (acc : ℕ) (fs : List Flag) (g : Flag)
    → acc < 64
    → All IsNamed fs
    → IsNamed g
    → has (or_flags acc fs) g ≡ (has acc g || any (same g) fs)
unfolding or_flags
has-or_flags acc [] g h n ng = ground arith
has-or_flags acc (f ∷ fs) g h n ng = ground (
  arith,
  has-or_flags (bit_or acc (flag_value f)) fs g (bit_or-lt acc f h n.0) n.1 ng,
  has-bit_or acc f g h n.0 ng,
)

zero_has : (g : Flag) → IsNamed g → has 0 g ≡ false
unfolding flag_value
zero_has (bits n) k = absurd k
zero_has _ k = refl

-- The flags read off a mask are those that it was made of, in the order of the dictionary.
flags_of-or_flags :
    (fs : List Flag)
    → All IsNamed fs
    → flags_of (or_flags 0 fs) ≡ select (λ g. any (same g) fs) named
unfolding flags_of
flags_of-or_flags fs n =
    let at : (g : Flag) → IsNamed g → has (or_flags 0 fs) g ≡ any (same g) fs =
      λ g ng. has-or_flags 0 fs g (omega arith) n ng ∙ rw (zero_has g ng) in
    select-congr _ _ named
      (at xo tt, (at xcall tt, (at eom tt, (at cksum tt, (at sts tt, (at tid tt, tt))))))

abbrev pub IsKnown : Kind → Type 0
IsKnown (other n) = ⊥
IsKnown _ = Unit

abbrev splits : ℕ → ℕ → Bool
splits kind m =
    ltb (bit_or kind m) 256
    && (bit_and (bit_or kind m) 0xc0 == kind && bit_and (bit_or kind m) 0x3f == m)

splits_table : holds_below 64 (λ m. splits 0x40 m && (splits 0x80 m && splits 0xc0 m)) ≡ true
unfolding holds_below
splits_table = refl

splits_lem : (k : Kind) (m : ℕ) → IsKnown k → m < 64 → splits (kind_value k) m ≡ true
unfolding kind_value
splits_lem (other n) m i h = absurd i
splits_lem _ m i h = ground (arith, holds_below-at 64 _ m splits_table h)

kind_of-kind_value : (k : Kind) → IsKnown k → kind_of (kind_value k) ≡ k
unfolding kind_of kind_value
kind_of-kind_value (other n) i = absurd i
kind_of-kind_value _ i = refl

kind_byte :
    (k : Kind) (m : ℕ)
    → IsKnown k
    → m < 64
    → (bit_or (kind_value k) m < 256)
      × (kind_of (bit_and (bit_or (kind_value k) m) 0xc0) ≡ k)
      × (bit_and (bit_or (kind_value k) m) 0x3f ≡ m)
kind_byte k m i h = ground (arith, splits_lem k m i h, kind_of-kind_value k i)

pub four_bytes :
    (u : Bytes) → length u ≡ 4 → (a : ℕ) × (b : ℕ) × (c : ℕ) × (d : ℕ) × (u ≡ a ∷ b ∷ c ∷ d ∷ [])
four_bytes (a ∷ b ∷ c ∷ d ∷ []) h = (a, b, c, d, refl)
four_bytes (a ∷ b ∷ c ∷ d ∷ e ∷ u) h = absurd (omega arith)
four_bytes (a ∷ b ∷ c ∷ []) h = absurd (omega arith)
four_bytes (a ∷ b ∷ []) h = absurd (omega arith)
four_bytes (a ∷ []) h = absurd (omega arith)
four_bytes [] h = absurd (omega arith)

-- fields that fit the header, with a kind and flags of the tables
pub record IsFit (p : Packet) : Type 0 where
  pub kind : IsKnown p.kind
  pub flags : All IsNamed p.flags
  pub seq : p.seq < 256
  pub tid : p.tid < 2 ^ 16
  pub udata : length p.udata ≡ 4

-- the flags that a packet has, in the order of the dictionary
abbrev pub table_order : List Flag → List Flag
table_order fs = select (λ g. any (same g) fs) named

pub table_order-IsNamed : (fs : List Flag) → All IsNamed (table_order fs)
table_order-IsNamed fs = All-select IsNamed _ named (tt, (tt, (tt, (tt, (tt, (tt, tt))))))

-- What is made of fields that fit, with a kind and flags of the tables, is parsed back into them;
-- the flags come back each once, in the order in which CPython 2.7 goes through the dictionary (xo,
-- xcall, eom, cksum, sts, tid), whatever order they were given in, and absent data as the empty text.
pub parse-make_atp_packet :
    (p : Packet)
    → IsFit p
    → (make_atp_packet p >>= parse_atp_packet)
      ≡ ok (record p { flags = table_order p.flags; pdata = some (payload p.pdata) })
unfolding make_atp_packet pack_header parse_atp_packet pack_b pack_h be16 of_be16 read_h
parse-make_atp_packet p fit =
    let low = or_flags-lt 0 p.flags (omega arith) fit.flags in
    ground (
      arith,
      four_bytes p.udata fit.udata,
      kind_byte p.kind (or_flags 0 p.flags) fit.kind low,
      flags_of-or_flags p.flags fit.flags,
    )

-- a packet whose fields fit can be made
pub make_atp_packet-eq-ok : (p : Packet) → IsFit p → (pkt : Bytes) × (make_atp_packet p ≡ ok pkt)
make_atp_packet-eq-ok p fit =
    let (pkt, made, _) =
      >>=-eq-ok (make_atp_packet p) parse_atp_packet (parse-make_atp_packet p fit) in
    (pkt, made)

flags_of-IsNamed : (m : ℕ) → All IsNamed (flags_of m)
unfolding flags_of
flags_of-IsNamed m = All-select IsNamed _ named (tt, (tt, (tt, (tt, (tt, (tt, tt))))))

-- the packet that is read off a header
abbrev fields : ℕ → ℕ → ℕ → Bytes → Bytes → Packet
fields kfl seq t udata body = record {
  kind = kind_of (bit_and kfl 0xc0);
  flags = flags_of (bit_and kfl 0x3f);
  seq = seq;
  tid = t;
  udata = udata;
  pdata = some body;
}

fields-IsFit :
    (kfl seq a b c d e f : ℕ) (body : Bytes)
    → seq < 256
    → a < 256
    → b < 256
    → IsKnown (kind_of (bit_and kfl 0xc0))
    → IsFit (fields kfl seq (of_be16 a b) (c ∷ d ∷ e ∷ f ∷ []) body)
fields-IsFit kfl seq a b c d e f body hs ha hb k = record {
  kind = k;
  flags = flags_of-IsNamed (bit_and kfl 0x3f);
  seq = hs;
  tid = of_be16-lt a b ha hb;
  udata = refl;
}

-- A packet of a known kind that was parsed has fields that fit.
pub parse_atp_packet-IsFit :
    (pkt : Bytes) (p : Packet)
    → AreBytes pkt
    → IsKnown p.kind
    → parse_atp_packet pkt ≡ ok p
    → IsFit p
unfolding parse_atp_packet read_h
parse_atp_packet-IsFit (ddp ∷ kfl ∷ seq ∷ a ∷ b ∷ c ∷ d ∷ e ∷ f ∷ body) p bytes k eq =
    let same_fields : p ≡ fields kfl seq (of_be16 a b) (c ∷ d ∷ e ∷ f ∷ []) body = ground arith in
    subst IsFit (sym same_fields) (
      fields-IsFit kfl seq a b c d e f body (omega arith) (omega arith) (omega arith)
        (subst (λ q. IsKnown q.kind) same_fields k))
parse_atp_packet-IsFit pkt p bytes k eq = absurd (ground arith)
