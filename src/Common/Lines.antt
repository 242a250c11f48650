-- ===== src/Common/Lines.antt =====
-- Text read by lines and cut into words, the way the handlers of commands do it.
use blitzmail.Common.Tests.{leb, ◌==◌, if◌then◌else◌}
use blitzmail.Common.Text.{Bytes}
use blitzmail.Common.Int.{ℤ, pos, negsuc}
use blitzmail.Common.Decimal.{str}
use Prim.Native.Nat.{suc, ◌+◌, ◌-◌}
use mathlib.Core.Bool.{◌&&◌}
use mathlib.Core.Option.{Option, none, some}
use mathlib.Core.List.{List, [], ◌∷◌, ◌++◌, map}

-- `s.upper()` and `s.lower()`
unfoldable pub upper : Bytes → Bytes
upper = map (λ c. if leb b'a' c && leb c b'z' then c - 32 else c)

unfoldable pub lower : Bytes → Bytes
lower = map (λ c. if leb b'A' c && leb c b'Z' then c + 32 else c)

-- `str(z)`
unfoldable pub str_ℤ : ℤ → Bytes
str_ℤ (pos n) = str n
str_ℤ (negsuc n) = b'-' ∷ str (suc n)

-- `file.readline()`, and what is left to read
unfoldable pub readline : Bytes → Bytes × Bytes
readline [] = ([], [])
readline (c ∷ s) =
    let (line, rest) = readline s in if c == 10 then (c ∷ [], s) else (c ∷ line, rest)

-- `s.split(' ', 1)`: the second part is there only after a space
unfoldable pub split_space : Bytes → Bytes × Option Bytes
split_space [] = ([], none)
split_space (c ∷ s) =
    let (word, more) = split_space s in if c == 32 then ([], some s) else (c ∷ word, more)

-- the text before the first comma, and those after each comma
unfoldable pub commas : Bytes → Bytes × List Bytes
commas [] = ([], [])
commas (c ∷ s) =
    let (word, more) = commas s in if c == b',' then ([], word ∷ more) else (c ∷ word, more)

unfoldable pub without_spaces : Bytes → Bytes
without_spaces [] = []
without_spaces (c ∷ s) = if c == 32 then without_spaces s else c ∷ s

-- `re.split(r', *', s)`: a comma takes the spaces after it with it
unfoldable pub re_split : Bytes → List Bytes
unfolding commas without_spaces
re_split s = let (word, more) = commas s in word ∷ map without_spaces more

-- `','.join(words)`
unfoldable pub join : Bytes → List Bytes → Bytes
join sep [] = []
join sep (w ∷ []) = w
join sep (w ∷ v ∷ ws) = w ++ (sep ++ join sep (v ∷ ws))
