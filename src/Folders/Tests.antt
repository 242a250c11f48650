-- ===== src/Folders/Tests.antt =====
-- A server with two folders.
use blitzmail.Common.{ℕ, ◌≡◌, refl, arith, Bytes, codes, false, [], ◌∷◌, List, ◌==◌, map}
use blitzmail.Common.Decimal.{rstrip, natural}
use blitzmail.Common.Lines.{lower}
use blitzmail.Common.Match.{number, shaped, digits_cut, is_digit}
use blitzmail.Errors.{ok}
use blitzmail.Blitz.Listing.{IsAnswer, Made}
use blitzmail.Folder.{Facts, info_re, name_and_size, name_cut, size_at}
use blitzmail.Folders.{make_folder, get_folder, get_folder_id}
use blitzmail.Folders.Found.{fresh, asking, listed, get_folder-loads}

abbrev folders : List (ℕ × Facts)
folders =
    (5, record { count = 2; name = codes "In"; size = 99 })
    ∷ (6, record { count = 0; name = codes "Trash"; size = 0 })
    ∷ []

abbrev first : ℕ × Bytes
first = (1, codes "5,2,\"In\",99")

abbrev second : ℕ × Bytes
second = (0, codes "6,0,\"Trash\",0")

first-IsAnswer : IsAnswer (0 ∷ 1 ∷ []) first
unfolding rstrip
first-IsAnswer = (omega arith, record { inside = ground arith; trimmed = refl }, refl)

second-IsAnswer : IsAnswer (0 ∷ 1 ∷ []) second
unfolding rstrip
second-IsAnswer = (omega arith, record { inside = ground arith; trimmed = refl }, refl)

folders-Made :
    Made (0 ∷ 1 ∷ []) (λ n. n == 0) (λ a. make_folder a.1) first (second ∷ []) (map fresh folders)
unfolding make_folder info_re number shaped name_and_size name_cut size_at digits_cut natural
    is_digit
folders-Made = (refl, refl, second-IsAnswer, (refl, refl))

get_folder-loads_example :
    (get_folder 2 (codes "trash") false (asking [] 0 first (second ∷ []) [] [] false)
      ≡ (ok 1, listed [] 0 first (second ∷ []) [] [] false folders))
    × (get_folder_id 2 5 false (asking [] 0 first (second ∷ []) [] [] false)
        ≡ (ok 0, listed [] 0 first (second ∷ []) [] [] false folders))
unfolding lower
get_folder-loads_example =
    get_folder-loads [] 0 (omega arith) first (second ∷ []) folders [] [] false first-IsAnswer
      folders-Made (codes "trash") 5 false
