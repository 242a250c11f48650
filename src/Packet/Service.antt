-- ===== src/Packet/Service.antt =====
-- The table of service codes and the keys that stand for them.
use blitzmail.Common.{Bytes}
use blitzmail.Errors.{Result, err, struct_error}
use blitzmail.Packet.Struct.{pack_i}
use blitzmail.Common.{String, List, [], ◌∷◌, Option, none, some, ℤ, pos, if◌then◌else◌}
use text.Mathlib.Text.{◌==◌ as str_eq}

-- a service is given by its name or by its code
pub data Key : Type 0 where
  name : String → Key
  code : ℤ → Key

abbrev pub notify_service : List (String × ℤ)
notify_service =
    ("control", pos 0)
    ∷ ("ctrl", pos 0)
    ∷ ("reset", pos 0)
    ∷ ("mail", pos 1)
    ∷ ("email", pos 1)
    ∷ ("blitzmail", pos 1)
    ∷ ("bulletin", pos 2)
    ∷ ("news", pos 2)
    ∷ ("talk", pos 3)
    ∷ []

unfoldable pub get : String → List (String × ℤ) → Option ℤ
get k [] = none
get k ((j, v) ∷ rest) = if str_eq j k then some v else get k rest

known : String → Option ℤ → Key
known k none = name k
known k (some c) = code c

-- `NOTIFY_SERVICE.get(service, service)`
unfoldable pub resolve : Key → Key
unfolding get known
resolve (code c) = code c
resolve (name k) = known k (get k notify_service)

-- A key as a field of format I: a name that the table lacks is no integer.
unfoldable pub pack_key : Key → Result Bytes
pack_key (code c) = pack_i c
pack_key (name k) = err struct_error
