-- ===== src/EpollServer/Groups.antt =====
-- tarsx/EpollServer.cc: the groups of handles and the adapters that each serves; and `init` of a handle
-- (tarsx/ServantHandle.cc). Handles are counted.
use tarsx.Prelude.{ℕ, none, some, List, [], ◌∷◌, Text, look_up, put_at}
use tarsx.Registry.{ServantHelperManager, get_func_by_name}

-- The members of a `BindAdapter` that are set at the start.
pub record Adapter : Type 0 where
  pub name : Text
  pub ip : Text
  pub port : ℕ
  pub handle_group_name : Text
  pub handle_num : ℕ

pub record HandleGroup : Type 0 where
  pub name : Text
  pub handles : ℕ
  pub adapters : List (Text × Adapter)

-- `set_handleGroup`.
unfoldable pub set_handle_group :
    Text → ℕ → Adapter → List (Text × HandleGroup) → List (Text × HandleGroup)
set_handle_group group_name handle_num adapter groups =
    let made : HandleGroup = record {
      name = group_name;
      handles = handle_num;
      adapters = put_at adapter.name adapter [];
    } in
    elim (look_up group_name groups) [
      | none ↦ put_at group_name made groups
      | some g ↦
          put_at group_name (record g { adapters = put_at adapter.name adapter g.adapters }) groups
    ]

-- `ServantHandle::init`: the functions under the names of the group's adapters. Functions are numbers,
-- and 0 is the empty one.
unfoldable pub init :
    List (Text × Adapter)
    → ServantHelperManager
    → List (Text × ℕ)
    → List (Text × ℕ) × ServantHelperManager
init [] m servants = (servants, m)
init ((name, _) ∷ adapters) m servants =
    init adapters (get_func_by_name name m).1 (put_at name (get_func_by_name name m).0 servants)
