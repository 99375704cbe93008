-- ===== src/Communicator.antt =====
-- tarsx/Communicator.cc: a client's network threads and the proxies that are asked of them. Objects are
-- named by numbers; a use of one that is null or deleted is `none`. What `tars_invoke` is asked for is
-- noted.
pub mod Once
mod Tests
use tarsx.Prelude.{
  ℕ, zero, suc, Bool, true, false, Option, none, some, List, [], ◌∷◌, ◌++◌, ◌==◌, if◌then◌else◌,
  ◌>>=◌, map, Text, codes,
}
use tarsx.ObjectProxyFactory
use tarsx.ObjectProxyFactory.{ObjectProxyFactory, get_object_proxy}

-- The members; the threads made so far, those that are there with their factories, those that were
-- started and those that were terminated and deleted, in this order; and the requests to proxies.
pub record Communicator : Type 0 where
  pub communicator_epoll : ℕ → Option ℕ
  pub client_thread_num : ℕ
  pub initialized : Bool
  pub terminating : Bool
  pub registed : Bool
  pub made : ℕ
  pub alive : ℕ → Option ObjectProxyFactory
  pub started : List ℕ
  pub ended : List ℕ
  pub told : List (List ℕ × Text)

unfoldable pub construct : Communicator
construct = record {
  communicator_epoll = λ _. none;
  client_thread_num = 1;
  initialized = false;
  terminating = false;
  registed = false;
  made = 0;
  alive = λ _. none;
  started = [];
  ended = [];
  told = [];
}

unfoldable pub put_slot {ℓ} : {A : Type ℓ} → ℕ → Option A → (ℕ → Option A) → ℕ → Option A
put_slot i x f j = if j == i then x else f j

-- The loop of `initialize` from `i` on, for `n` more threads.
unfoldable pub start_each : ℕ → ℕ → Communicator → Communicator
start_each i zero c = c
start_each i (suc n) c = start_each (suc i) n (record c {
  communicator_epoll = put_slot i (some c.made) c.communicator_epoll;
  alive = put_slot c.made (some ObjectProxyFactory.construct) c.alive;
  started = c.started ++ c.made ∷ [];
  made = suc c.made;
})

unfoldable pub initialize : Communicator → Communicator
initialize c =
    if c.initialized
    then c
    else start_each 0 1 (record c { initialized = true; client_thread_num = 1 })

-- The loop of `terminate`.
unfoldable pub terminate_each : ℕ → ℕ → Communicator → Option Communicator
terminate_each i zero c = some c
terminate_each i (suc n) c = do
  a ← c.communicator_epoll i
  _ ← c.alive a
  terminate_each (suc i) n (record c { alive = put_slot a none c.alive; ended = c.ended ++ a ∷ [] })

-- `terminate`, which is all that the destructor does.
unfoldable pub terminate : Communicator → Option Communicator
terminate c =
    let c' = record c { terminating = true } in
    if c.initialized then terminate_each 0 c.client_thread_num c' else some c'

-- The loop of `get_servantProxy`; `new_proxy` has the names of the proxies that are made.
unfoldable pub get_each :
    (ℕ → Text) → (ℕ → ℕ) → Text → ℕ → ℕ → ℕ → Communicator → Option (List ℕ × Communicator)
get_each to_string new_proxy ip port i zero c = some ([], c)
get_each to_string new_proxy ip port i (suc n) c = do
  a ← c.communicator_epoll i
  f ← c.alive a
  let (p, f') = get_object_proxy to_string (new_proxy i) ip port f
  (ps, c') ←
      get_each to_string new_proxy ip port (suc i) n
        (record c { alive = put_slot a (some f') c.alive })
  some (p ∷ ps, c')

unfoldable pub register_text : Text → Text
register_text name = codes "registerServant:" ++ name ++ codes ":127.0.0.1:9877"

-- `get_servantProxy` with the names of `funcNames`: the object proxies of the new servant proxy.
unfoldable pub get_servant_proxy :
    List Text → (ℕ → Text) → (ℕ → ℕ) → Text → ℕ → Communicator → Option (List ℕ × Communicator)
get_servant_proxy func_names to_string new_proxy ip port c = do
  let c₁ = initialize c
  (ps, c₂) ← get_each to_string new_proxy ip port 0 c₁.client_thread_num c₁
  some (
    ps,
    if c₂.registed then c₂ else record c₂ {
      registed = true;
      told = c₂.told ++ map (λ name. (ps, register_text name)) func_names;
    },
  )
