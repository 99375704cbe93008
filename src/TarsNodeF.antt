-- ===== src/TarsNodeF.antt =====
-- tarsx/TarsNodeF.cc: the beats of a server's adapters, and what is told of them to its node; and
-- `keepAlive_async` of tarsx/NodeF.h. `std::to_string` and `atoi` are parameters.
pub mod Reports
mod Tests
use tarsx.Prelude.{
  ℕ, ◌%◌, ◌^◌, Bool, true, false, Option, none, some, List, [], ◌∷◌, ◌++◌, if◌then◌else◌, map, Text,
  codes, same_text,
}
use tarsx.Servants.{first_part, after_first, less_text}

-- The node's address, `adapterSet_` in the order of its names, `serverInfo_`, and the requests that
-- were made of the node.
pub record TarsNodeFHelper : Type 0 where
  pub node_proxy : Option (Text × ℕ)
  pub adapter_set : List Text
  pub application : Text
  pub server_name : Text
  pub pid : ℕ
  pub told : List Text

-- `set_nodeInfo`, for the process `pid`.
unfoldable pub set_node_info :
    (Text → ℕ) → Text → Text → Text → ℕ → TarsNodeFHelper → TarsNodeFHelper
set_node_info atoi node app server pid h =
    let host = first_part node in
    let port = atoi (after_first node node) % 2 ^ 16 in
    let reset : Option (Text × ℕ) = elim node [ [] ↦ h.node_proxy | _ ∷ _ ↦ some (host, port) ] in
    record h { node_proxy = reset; application = app; server_name = server; pid = pid }

-- `insert` of the set.
unfoldable pub insert_name : Text → List Text → List Text
insert_name a [] = a ∷ []
insert_name a (b ∷ s) =
    let rest = b ∷ insert_name a s in
    if same_text a b then b ∷ s else if less_text a b then a ∷ b ∷ s else rest

-- `keepAlive_async`, behind "keepAlive:".
unfoldable pub report : (ℕ → Text) → TarsNodeFHelper → Text → Text
report to_string h name =
    h.application ++ 58 ∷ (h.server_name ++ 58 ∷ (to_string h.pid ++ 58 ∷ name))

-- `keepAlive` with a node: the beat is noted, and that of the administration's adapter tells them all.
unfoldable pub beat : (ℕ → Text) → Text → TarsNodeFHelper → TarsNodeFHelper
beat to_string adapter h =
    let s = insert_name adapter h.adapter_set in
    if same_text adapter (codes "AdminAdapter")
    then record h { adapter_set = []; told = h.told ++ map (report to_string h) s }
    else record h { adapter_set = s }

-- `keepAlive`.
unfoldable pub keep_alive : (ℕ → Text) → Text → TarsNodeFHelper → TarsNodeFHelper
keep_alive to_string adapter h = elim h.node_proxy [ none ↦ h | some _ ↦ beat to_string adapter h ]

unfoldable pub keep_alive_each : (ℕ → Text) → List Text → TarsNodeFHelper → TarsNodeFHelper
keep_alive_each to_string [] h = h
keep_alive_each to_string (adapter ∷ adapters) h =
    keep_alive_each to_string adapters (keep_alive to_string adapter h)
