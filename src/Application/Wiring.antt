-- ===== src/Application/Wiring.antt =====
-- Which function a handle has for the requests of an adapter.
use tarsx.Prelude.{
  ℕ, ◌≡◌, ◌≢◌, refl, sym, ap, subst, ◌∙◌, true, none, some, List, [], ◌∷◌, ◌>>=◌, Text, codes,
  same_text, same_text_ne, look_up, put_at, look_up-put_at, look_up-put_other,
}
use tarsx.Registry.{ServantHelperManager, add_servant, set_adapter_servant, get_func_by_name}
use tarsx.EpollServer.Groups.{Adapter, HandleGroup, set_handle_group, init}
use tarsx.Application.{
  ServerConfig, Started, make_adapter, bind, set_handle, initialize_server, bind_one, bind_adapter,
  set_handles, extra_main, servants_of,
}

get_known :
    (name : Text) (func : ℕ) (m : ServantHelperManager)
    → look_up name m.servant_map ≡ some func
    → get_func_by_name name m ≡ (func, m)
unfolding get_func_by_name
get_known name func m e = rw (e, get_func_by_name)

get_missing :
    (name : Text) (m : ServantHelperManager)
    → look_up name m.servant_map ≡ none
    → (get_func_by_name name m).0 ≡ 0
unfolding get_func_by_name
get_missing name m e = rw (e, get_func_by_name)

add_new :
    (name : Text) (func : ℕ) (m : ServantHelperManager)
    → look_up name m.servant_adapter ≡ none
    → add_servant name func true m
      ≡ some (record m { servant_map = put_at name func m.servant_map })
unfolding add_servant
add_new name func m e = rw (e, add_servant) refl

group_new :
    (name : Text) (num : ℕ) (adapter : Adapter) (groups : List (Text × HandleGroup))
    → look_up name groups ≡ none
    → set_handle_group name num adapter groups
      ≡ put_at name
          (record { name = name; handles = num; adapters = put_at adapter.name adapter [] })
          groups
unfolding set_handle_group
group_new name num adapter groups e = rw (e, set_handle_group) refl

bind_adapter_one :
    (fd fd1 : ℕ) (c : ServerConfig) (s : Started)
    → c.servant_name1 ≡ []
    → let a = make_adapter c.adapter_name c.adapter_ip c.adapter_port in
      bind_adapter fd fd1 c s ≡ (a ∷ [], bind_one fd c.adapter_name c.servant_name a s)
unfolding bind_adapter
bind_adapter_one fd fd1 c s e =
    let a = make_adapter c.adapter_name c.adapter_ip c.adapter_port in
    let a1 = make_adapter c.adapter_name1 c.adapter_ip1 c.adapter_port1 in
    let s' = bind_one fd c.adapter_name c.servant_name a s in
    subst
      (λ (o : Text).
        (elim o as (λ _. List Adapter × Started) [
          | [] ↦ (a ∷ [], s')
          | _ ∷ _ ↦ (a ∷ a1 ∷ [], bind_one fd1 c.adapter_name1 c.servant_name1 a1 s')
        ])
        ≡ (a ∷ [], s'))
      (sym e) refl

-- The function that the handle of a group with one adapter has for it.
served :
    (name : Text) (func : ℕ) (num : ℕ) (adapter : Adapter) (s : Started)
    → look_up name s.groups
      ≡ some (record { name = name; handles = num; adapters = put_at name adapter [] })
    → (get_func_by_name name s.manager).0 ≡ func
    → (do f ← servants_of name s; look_up name f) ≡ some func
unfolding servants_of init put_at
served name func num adapter s e f =
    rw e (look_up-put_at name (get_func_by_name name s.manager).0 [] ∙ ap some f)

only_one : (k n : Text) (v : Text) → n ≢ k → look_up n ((k, v) ∷ []) ≡ none
unfolding look_up
only_one k n v h = rw (same_text_ne n k h) refl

abbrev admin_adapter : Adapter
unfolding make_adapter
admin_adapter = make_adapter (codes "AdminAdapter") (codes "127.0.0.1") 20002

-- The server behind `initializeServer`.
abbrev first : ℕ → ℕ → Started
first fd admin = record {
  manager = record {
    servant_map = (codes "AdminObj", admin) ∷ [];
    adapter_servant = (codes "AdminAdapter", codes "AdminObj") ∷ [];
    servant_adapter = (codes "AdminObj", codes "AdminAdapter") ∷ [];
  };
  groups =
      (
        codes "AdminAdapter",
        record {
          name = codes "AdminAdapter";
          handles = 1;
          adapters = (codes "AdminAdapter", admin_adapter) ∷ [];
        },
      )
      ∷ [];
  listeners = (fd, admin_adapter) ∷ [];
}

initialize_server_lem : (fd admin : ℕ) → initialize_server fd admin ≡ some (first fd admin)
unfolding initialize_server add_servant set_adapter_servant bind set_handle set_handle_group put_at
    look_up make_adapter
initialize_server_lem fd admin = refl

-- A server with one adapter, whose `initialize` registers a function under the adapter's name, as the
-- example servers do, starts: the handle of the adapter has that function for its requests, and the
-- handle of the administration's adapter has the empty function, since `AdminServant` is registered
-- under the name of its servant. The adapter's name is not that of a servant, and not that of the
-- administration's adapter.
pub extra_main_lem :
    (func admin : ℕ) (fds : ℕ → ℕ) (c : ServerConfig)
    → c.servant_name1 ≡ []
    → c.adapter_name ≢ codes "AdminAdapter"
    → c.adapter_name ≢ codes "AdminObj"
    → c.adapter_name ≢ c.servant_name
    → (s : Started) × (extra_main (add_servant c.adapter_name func true) admin fds c ≡ some s)
      × ((do f ← servants_of c.adapter_name s; look_up c.adapter_name f) ≡ some func)
      × ((do f ← servants_of (codes "AdminAdapter") s; look_up (codes "AdminAdapter") f) ≡ some 0)
unfolding extra_main set_handles set_handle bind_one bind set_adapter_servant make_adapter same_text
extra_main_lem func admin fds c one other object servant = (
  final,
  rw
      (
        initialize_server_lem (fds 0) admin,
        bind_adapter_one (fds 1) (fds 2) c (first (fds 0) admin) one,
        add_new name func started.manager unknown,
      )
      refl,
  served name func 1 adapter final
      (ap (look_up name) grouped ∙ look_up-put_at name made (first (fds 0) admin).groups)
      (ap (λ x. x.0) (get_known name func final.manager (look_up-put_at name func _))),
  served (codes "AdminAdapter") 0 1 admin_adapter final
      (ap (look_up (codes "AdminAdapter")) grouped
        ∙ look_up-put_other name (codes "AdminAdapter") made (first (fds 0) admin).groups other
        ∙ unfold look_up put_at in refl)
      (get_missing (codes "AdminAdapter") final.manager
        (look_up-put_other name (codes "AdminAdapter") func _ other ∙ unfold look_up in refl)),
)
  where
    name : Text
    name = c.adapter_name

    adapter : Adapter
    adapter = make_adapter name c.adapter_ip c.adapter_port

    made : HandleGroup
    made = record { name = name; handles = 1; adapters = put_at name adapter [] }

    started : Started
    started = bind_one (fds 1) name c.servant_name adapter (first (fds 0) admin)

    final : Started
    final = set_handle adapter (record started {
      manager = record started.manager {
        servant_map = put_at name func started.manager.servant_map;
      };
    })

    unknown : look_up name started.manager.servant_adapter ≡ none
    unknown =
        look_up-put_other c.servant_name name name ((codes "AdminObj", codes "AdminAdapter") ∷ [])
          (λ e. servant (sym e))
        ∙ only_one (codes "AdminObj") name (codes "AdminAdapter") object

    grouped : final.groups ≡ put_at name made (first (fds 0) admin).groups
    grouped =
        group_new name 1 adapter (first (fds 0) admin).groups
          (unfold look_up in rw (same_text_ne name (codes "AdminAdapter") other) refl)
