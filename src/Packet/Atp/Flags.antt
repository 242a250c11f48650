-- ===== src/Packet/Atp/Flags.antt =====
-- ATP_FLAG: the names of the six flag bits.
use blitzmail.Common.{ℕ, List, [], ◌∷◌}

-- a flag is given by its name or by its bits
pub data Flag : Type 0 where
  xo eom sts xcall tid cksum : Flag
  bits : ℕ → Flag

unfoldable pub flag_value : Flag → ℕ
flag_value xo = 0x20
flag_value eom = 0x10
flag_value sts = 0x08
flag_value xcall = 0x04
flag_value tid = 0x02
flag_value cksum = 0x01
flag_value (bits n) = n

-- The table's names, in the order in which CPython 2.7 goes through the dictionary: that of the hashes
-- of its keys, six of which take 32 slots.
abbrev pub named : List Flag
named = xo ∷ xcall ∷ eom ∷ cksum ∷ sts ∷ tid ∷ []
