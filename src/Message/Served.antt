-- ===== src/Message/Served.antt =====
-- The server's side of _load_bcache: what it is sent, and what it answers.
use blitzmail.Common.{
  ℕ, Bytes, codes, Bool, true, not, take, drop, ◌==◌, List, [], ◌∷◌, ◌++◌, Option, some,
  if◌then◌else◌,
}
use blitzmail.Common.Decimal.{str}
use blitzmail.Blitz.Online.{online, says, gives}
use blitzmail.Message.{Summary, path}

-- what `fetch` sends, and what the server answers: 10 to the selection, and the block to the command
abbrev pub commands : Summary → Bool → ℕ → ℕ → Bytes
commands m selected offset n =
    (if selected then [] else codes "MESS " ++ path m ++ codes "\n")
    ++ (codes "TEXT " ++ str offset ++ codes " " ++ str n ++ codes "\n")

abbrev pub answers : ℕ → Bytes → Bool → Bytes → Bytes
answers w done selected block = (if selected then [] else says w 10 done) ++ gives w block done

-- the same for the parts of the body that are asked for, of which the first selects the message
abbrev pub served : ℕ → Bytes → Bytes → Bool → List (ℕ × ℕ) → Bytes
served w done body selected [] = []
served w done body selected ((offset, n) ∷ parts) =
    answers w done selected (take n (drop offset body)) ++ served w done body true parts

abbrev pub told : Summary → Bool → List (ℕ × ℕ) → Bytes
told m selected [] = []
told m selected ((offset, n) ∷ parts) = commands m selected offset n ++ told m true parts

abbrev pub flag_after : ℕ → List (ℕ × ℕ) → Bool → Bool
flag_after w [] warn = warn
flag_after w (part ∷ parts) warn = not (w == 0)

-- the summary before such a call and after it
module _ (w : ℕ) (done body : Bytes) (m : Summary) (selected : Bool) (parts : List (ℕ × ℕ))
    (rest sent : Bytes) (warn : Bool) where
  abbrev pub facing : Option (ℕ × Bytes) → Summary
  facing cache = record m {
    session = online (served w done body selected parts ++ rest) sent warn;
    b_cache = cache;
  }

abbrev pub loaded : ℕ → Summary → Bool → List (ℕ × ℕ) → Bytes → Bytes → Bool → ℕ × Bytes → Summary
loaded w m selected parts rest sent warn v = record m {
  session = online rest (sent ++ told m selected parts) (flag_after w parts warn);
  b_cache = some v;
}
