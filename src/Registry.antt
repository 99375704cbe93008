-- ===== src/Registry.antt =====
-- tarsx/Registry.cc: the addresses of the servants; and tarsx/ServantManager.h: the tables of
-- functions, adapters and servants.
pub mod Tables
mod Tests
use tarsx.Prelude.{
  ℕ, Bool, true, false, ◌&&◌, Option, none, some, List, [], ◌∷◌, ◌==◌, if◌then◌else◌, Text,
  same_text, look_up, put_at,
}

-- `allServants_`.
pub record Registry : Type 0 where
  pub all_servants : List (Text × List (Text × ℕ))

-- The set that a look-up found; a missing one is empty.
abbrev pub set_of : Option (List (Text × ℕ)) → List (Text × ℕ)
set_of none = []
set_of (some s) = s

-- `allServants_[name]`: what it holds, and the map once it has the name.
unfoldable pub servant_set : Text → Registry → List (Text × ℕ)
servant_set name r = set_of (look_up name r.all_servants)

unfoldable pub touch_name : Text → Registry → Registry
touch_name name r = elim (look_up name r.all_servants) [
  | none ↦ record r { all_servants = put_at name [] r.all_servants }
  | some _ ↦ r
]

unfoldable pub is_address : Text × ℕ → Text × ℕ → Bool
is_address a b = same_text a.0 b.0 && a.1 == b.1

-- `insert`, `find` (whether it is there) and `erase` of the set.
unfoldable pub has_address : Text × ℕ → List (Text × ℕ) → Bool
has_address a [] = false
has_address a (b ∷ s) = if is_address a b then true else has_address a s

unfoldable pub insert_address : Text × ℕ → List (Text × ℕ) → List (Text × ℕ)
insert_address a s = if has_address a s then s else a ∷ s

unfoldable pub erase_address : Text × ℕ → List (Text × ℕ) → List (Text × ℕ)
erase_address a [] = []
erase_address a (b ∷ s) = if is_address a b then s else b ∷ erase_address a s

-- `addServantAddress`: `servant_set` is a copy, so that beside the map only the copy that is dropped
-- changes, the first component.
unfoldable pub add_servant_address : Text → Text → ℕ → Registry → List (Text × ℕ) × Registry
add_servant_address name ip port r =
    (insert_address (ip, port) (servant_set name r), touch_name name r)

-- `delServantAddress`: to erase `end()` is the fault.
unfoldable pub del_servant_address :
    Text → Text → ℕ → Registry → Option (List (Text × ℕ) × Registry)
del_servant_address name ip port r =
    if has_address (ip, port) (servant_set name r)
    then some (erase_address (ip, port) (servant_set name r), touch_name name r)
    else none

-- `ServantHelperManager`: functions are numbers, and 0 is the empty function.
pub record ServantHelperManager : Type 0 where
  pub servant_map : List (Text × ℕ)
  pub adapter_servant : List (Text × Text)
  pub servant_adapter : List (Text × Text)

-- `addServant`: `none` is the exception.
unfoldable pub add_servant : Text → ℕ → Bool → ServantHelperManager → Option ServantHelperManager
add_servant name func check m =
    let known : Bool = elim (look_up name m.servant_adapter) [ none ↦ false | some _ ↦ true ] in
    if check && known
    then none
    else some (record m { servant_map = put_at name func m.servant_map })

unfoldable pub set_adapter_servant : Text → Text → ServantHelperManager → ServantHelperManager
set_adapter_servant adapter servant m = record m {
  adapter_servant = put_at adapter servant m.adapter_servant;
  servant_adapter = put_at servant adapter m.servant_adapter;
}

-- `none` stands for "(NO TARSX PROTOCOL)".
unfoldable pub get_adapter_servant : Text → ServantHelperManager → Option Text
get_adapter_servant adapter m = look_up adapter m.adapter_servant

-- `none` stands for the empty string.
unfoldable pub get_servant_adapter : Text → ServantHelperManager → Option Text
get_servant_adapter servant m = look_up servant m.servant_adapter

-- `getFuncByName`, which puts an empty function where there is none.
unfoldable pub get_func_by_name : Text → ServantHelperManager → ℕ × ServantHelperManager
get_func_by_name name m = elim (look_up name m.servant_map) [
  | none ↦ (0, record m { servant_map = put_at name 0 m.servant_map })
  | some func ↦ (func, m)
]
