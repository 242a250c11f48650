-- ===== src/Message/Header.antt =====
-- class BlitzHeader of bmesg.py: the header of a message, its lines unfolded and found by name.
pub mod Index
pub mod Fold
use blitzmail.Common.{
  ℕ, suc, Bytes, codes, eq_bytes, Bool, true, false, leb, length, ◌==◌, ◌&&◌, ◌||◌, List, [], ◌∷◌,
  ◌++◌, map, Option, none, some, if◌then◌else◌,
}
use blitzmail.Common.Decimal.{is_space, lstrip}
use blitzmail.Common.Lines.{lower}
use blitzmail.Errors.{Result, ok, err, ◌>>=◌, index_error, key_error}

-- `s.split('\n')`: the first line, and those after each newline
unfoldable pub newline_cut : Bytes → Bytes × List Bytes
newline_cut [] = ([], [])
newline_cut (c ∷ s) =
    let (line, more) = newline_cut s in if c == 10 then ([], line ∷ more) else (c ∷ line, more)

unfoldable pub lines : Bytes → List Bytes
lines s = let (line, more) = newline_cut s in line ∷ more

abbrev pub line_before : Option Bytes → Result (List Bytes) → Result (List Bytes)
line_before none rest = rest
line_before (some line) rest = rest >>= λ ls. ok (line ∷ ls)

-- The loop that unfolds lines; `last` is `unfolded[-1]`, if there is one. Empty lines are skipped,
-- and a line that begins with a space of some kind goes on with the last one.
unfoldable pub unfold_from : List Bytes → Option Bytes → Result (List Bytes)
unfold_from [] last = line_before last (ok [])
unfold_from ([] ∷ ls) last = unfold_from ls last
unfold_from ((c ∷ s) ∷ ls) none =
    let rest = unfold_from ls (some (c ∷ s)) in if is_space c then err index_error else rest
unfold_from ((c ∷ s) ∷ ls) (some last) =
    let joined = unfold_from ls (some (last ++ 32 ∷ lstrip (c ∷ s))) in
    let rest = line_before (some last) (unfold_from ls (some (c ∷ s))) in
    if is_space c then joined else rest

unfoldable pub is_letter : ℕ → Bool
is_letter c = leb b'a' c && leb c b'z' || leb b'A' c && leb c b'Z'

unfoldable pub is_name_char : ℕ → Bool
unfolding is_letter
is_name_char c = is_letter c || leb b'0' c && leb c b'9' || c == b'-'

-- the characters of a name, and what follows them
unfoldable pub name_cut : Bytes → Bytes × Bytes
name_cut [] = ([], [])
name_cut (c ∷ s) =
    let (name, rest) = name_cut s in if is_name_char c then (c ∷ name, rest) else ([], c ∷ s)

-- `\s*(.+)$`: where all the text is space, its last character is the value
unfoldable pub value_of : Bytes → Option Bytes
value_of [] = none
value_of (c ∷ []) = some (c ∷ [])
value_of (c ∷ d ∷ s) = let rest = value_of (d ∷ s) in if is_space c then rest else some (c ∷ d ∷ s)

after_name : Bytes → Bytes → Option (Bytes × Bytes)
unfolding value_of
after_name name [] = none
after_name name (c ∷ s) =
    if c == b':' then elim (value_of s) [ some v ↦ some (name, v) | none ↦ none ] else none

-- `re.match(r'(?i)([a-z][-a-z0-9]*):\s*(.+)$', line)`
unfoldable pub field_of : Bytes → Option (Bytes × Bytes)
unfolding after_name
field_of [] = none
field_of (c ∷ s) =
    let (name, rest) = name_cut s in if is_letter c then after_name (c ∷ name) rest else none

unfoldable pub fields_of : List Bytes → List (Bytes × Bytes)
fields_of [] = []
fields_of (line ∷ ls) = elim (field_of line) [ some f ↦ f ∷ fields_of ls | none ↦ fields_of ls ]

-- The index: a key, the name as it was first written, and the data of all lines of that name. The
-- keys stand in the order in which they were first set.
abbrev pub Index : Type 0
Index = List (Bytes × Bytes × List Bytes)

-- `index.setdefault(key, (name, []))[1].append(data)`
unfoldable pub add_line : Bytes → Bytes → Bytes → Index → Index
add_line key name v [] = (key, name, v ∷ []) ∷ []
add_line key name v ((k, n, vs) ∷ index) =
    let rest = add_line key name v index in
    if eq_bytes k key then (k, n, vs ++ v ∷ []) ∷ index else (k, n, vs) ∷ rest

unfoldable pub add_lines : List (Bytes × Bytes) → Index → Index
add_lines [] index = index
add_lines ((name, v) ∷ fs) index = add_lines fs (add_line (lower name) name v index)

-- parse, and the text that it was made of
pub record BlitzHeader : Type 0 where
  pub text : Bytes
  pub index : Index

unfoldable pub header : Bytes → Result BlitzHeader
header text = unfold_from (lines text) none >>= λ ls.
    ok (record { text = text; index = add_lines (fields_of ls) [] })

unfoldable pub find : Bytes → Index → Option (Bytes × List Bytes)
find key [] = none
find key ((k, n, vs) ∷ index) = if eq_bytes k key then some (n, vs) else find key index

each : Option (Bytes × List Bytes) → Result (List (Bytes × Bytes))
each (some (n, vs)) = ok (map (λ v. (n, v)) vs)
each none = err key_error

-- get: the name as first written with each of its data; first: the first of these
unfoldable pub get : Bytes → BlitzHeader → Result (List (Bytes × Bytes))
unfolding each
get name h = each (find (lower name) h.index)

-- __len__
unfoldable pub count : BlitzHeader → ℕ
count h = length h.index
