-- ===== src/Application.antt =====
-- tarsx/Application.cc: how a server is put together before its threads start. The server's own
-- `initialize` is an argument, and so are the descriptors of the sockets that `bind` makes.
-- `initializeClient` and the call of `set_nodeInfo` are left out.
pub mod Wiring
mod Tests
use tarsx.Prelude.{
  ℕ, suc, ◌+◌, Bool, true, false, Option, none, some, List, [], ◌∷◌, ◌++◌, ◌>>=◌, Text, codes,
  look_up,
}
use tarsx.Registry.{ServantHelperManager, add_servant, set_adapter_servant}
use tarsx.EpollServer.Groups.{Adapter, HandleGroup, set_handle_group, init}

-- `ServerConfig`, as far as it is used here.
pub record ServerConfig : Type 0 where
  pub adapter_name : Text
  pub servant_name : Text
  pub adapter_ip : Text
  pub adapter_port : ℕ
  pub adapter_name1 : Text
  pub servant_name1 : Text
  pub adapter_ip1 : Text
  pub adapter_port1 : ℕ

-- The tables of servants, `handleGroups_`, and `listeners_` of the first network thread, the newest
-- first.
pub record Started : Type 0 where
  pub manager : ServantHelperManager
  pub groups : List (Text × HandleGroup)
  pub listeners : List (ℕ × Adapter)

unfoldable pub make_adapter : Text → Text → ℕ → Adapter
make_adapter name ip port = record {
  name = name;
  ip = ip;
  port = port;
  handle_group_name = name;
  handle_num = 1;
}

-- `EpollServer::bind`.
unfoldable pub bind : ℕ → Adapter → Started → Started
bind fd adapter s = record s { listeners = (fd, adapter) ∷ s.listeners }

-- `set_handle`.
unfoldable pub set_handle : Adapter → Started → Started
set_handle adapter s = record s {
  groups = set_handle_group adapter.handle_group_name adapter.handle_num adapter s.groups;
}

-- `initializeServer`, on tables and a server that are new; `admin` is `AdminServant`.
unfoldable pub initialize_server : ℕ → ℕ → Option Started
initialize_server fd admin = do
  m ←
      add_servant (codes "AdminObj") admin false
        (record { servant_map = []; adapter_servant = []; servant_adapter = [] })
  let adapter = make_adapter (codes "AdminAdapter") (codes "127.0.0.1") 20002
  some (
      bind fd adapter (
        set_handle adapter (record {
          manager = set_adapter_servant (codes "AdminAdapter") (codes "AdminObj") m;
          groups = [];
          listeners = [];
        })))

-- An adapter of `bindAdapter`.
unfoldable pub bind_one : ℕ → Text → Text → Adapter → Started → Started
bind_one fd adapter_name servant_name adapter s =
    bind fd adapter (record s { manager = set_adapter_servant adapter_name servant_name s.manager })

-- `bindAdapter`: the adapters, one or two.
unfoldable pub bind_adapter : ℕ → ℕ → ServerConfig → Started → List Adapter × Started
bind_adapter fd fd1 c s =
    let a = make_adapter c.adapter_name c.adapter_ip c.adapter_port in
    let s' = bind_one fd c.adapter_name c.servant_name a s in
    let a1 = make_adapter c.adapter_name1 c.adapter_ip1 c.adapter_port1 in
    let s1 = bind_one fd1 c.adapter_name1 c.servant_name1 a1 s' in
    elim c.servant_name1 [ [] ↦ (a ∷ [], s') | _ ∷ _ ↦ (a ∷ a1 ∷ [], s1) ]

unfoldable pub set_handles : List Adapter → Started → Started
set_handles [] s = s
set_handles (a ∷ as') s = set_handles as' (set_handle a s)

-- `extra_main`, up to the start of the handles; the exception of `addServant` is `none`.
unfoldable pub extra_main :
    (ServantHelperManager → Option ServantHelperManager)
    → ℕ
    → (ℕ → ℕ)
    → ServerConfig
    → Option Started
extra_main initialize admin fds c = do
  s ← initialize_server (fds 0) admin
  let (adapters, s₁) = bind_adapter (fds 1) (fds 2) c s
  m ← initialize s₁.manager
  some (set_handles adapters (record s₁ { manager = m }))

-- The functions that a handle of a group has after its `init`.
unfoldable pub servants_of : Text → Started → Option (List (Text × ℕ))
servants_of group s = do g ← look_up group s.groups; some (init g.adapters s.manager []).0
