-- ===== src/Communicator/Once.antt =====
-- How often a communicator starts, registers and ends.
use tarsx.Prelude.{
  ℕ, ◌≡◌, refl, true, Option, none, some, List, [], ◌∷◌, ◌++◌, ◌>>=◌, map, Text, look_up,
}
use tarsx.ObjectProxyFactory
use tarsx.ObjectProxyFactory.{ObjectProxyFactory, get_object_proxy}
use tarsx.Communicator.{
  Communicator, construct, put_slot, start_each, initialize, terminate_each, terminate, get_each,
  register_text, get_servant_proxy,
}

-- A request for a servant proxy: the names of the object proxies that it may make, and the address.
abbrev pub Asked : Type 0
Asked = (ℕ → ℕ) × Text × ℕ

module _ (func_names : List Text) (to_string : ℕ → Text) where
  abbrev pub get_all : List Asked → Communicator → Option Communicator
  get_all [] c = some c
  get_all ((new_proxy, ip, port) ∷ as') c = do
    (_, c') ← get_servant_proxy func_names to_string new_proxy ip port c
    get_all as' c'

  -- One thread runs, and the functions are registered through the proxy `p`.
  record Running (p : ℕ) (c : Communicator) : Type 0 where
    started_one : c.initialized ≡ true
    one : c.client_thread_num ≡ 1
    done : c.registed ≡ true
    at_zero : c.communicator_epoll 0 ≡ some 0
    factory : ObjectProxyFactory
    there : c.alive 0 ≡ some factory
    once : c.started ≡ 0 ∷ []
    not_ended : c.ended ≡ []
    asked : c.told ≡ map (λ name. (p ∷ [], register_text name)) func_names

  Running-again :
      (p : ℕ) (new_proxy : ℕ → ℕ) (ip : Text) (port : ℕ) (c : Communicator)
      → Running p c
      → (ps : List ℕ) × (c' : Communicator) × (get_servant_proxy func_names to_string new_proxy ip
            port c
          ≡ some (ps, c'))
        × Running p c'
  unfolding get_servant_proxy initialize get_each put_slot
  Running-again p new_proxy ip port c r =
      let (q, f) = get_object_proxy to_string (new_proxy 0) ip port r.factory in
      (
        q ∷ [],
        record c { alive = put_slot 0 (some f) c.alive },
        rw (r.started_one, r.one, r.at_zero, r.there, r.done) refl,
        record {
          started_one = r.started_one;
          one = r.one;
          done = r.done;
          at_zero = r.at_zero;
          factory = f;
          there = refl;
          once = r.once;
          not_ended = r.not_ended;
          asked = r.asked;
        },
      )

  Running-first :
      (new_proxy : ℕ → ℕ) (ip : Text) (port : ℕ)
      → (ps : List ℕ) × (c : Communicator) × (get_servant_proxy func_names to_string new_proxy ip
            port construct
          ≡ some (ps, c))
        × Running (new_proxy 0) c
  unfolding get_servant_proxy initialize start_each get_each put_slot construct get_object_proxy
      look_up ObjectProxyFactory.construct
  Running-first new_proxy ip port = (
    new_proxy 0 ∷ [],
    _,
    refl,
    record {
      started_one = refl;
      one = refl;
      done = refl;
      at_zero = refl;
      factory = _;
      there = refl;
      once = refl;
      not_ended = refl;
      asked = refl;
    },
  )

  Running-all :
      (p : ℕ) (as' : List Asked) (c : Communicator)
      → Running p c
      → (c' : Communicator) × (get_all as' c ≡ some c') × Running p c'
  Running-all p [] c r = (c, refl, r)
  Running-all p ((new_proxy, ip, port) ∷ as') c r =
      let (ps, c₁, e, r₁) = Running-again p new_proxy ip port c r in
      let (c₂, f, r₂) = Running-all p as' c₁ r₁ in (c₂, rw e f, r₂)

  terminate-Running :
      (p : ℕ) (c : Communicator)
      → Running p c
      → (d : Communicator) × (terminate c ≡ some d) × (d.ended ≡ 0 ∷ []) × (terminate d ≡ none)
  unfolding terminate terminate_each put_slot
  terminate-Running p c r = (
    record c { terminating = true; alive = put_slot 0 none c.alive; ended = c.ended ++ 0 ∷ [] },
    rw (r.started_one, r.one, r.at_zero, r.there) refl,
    rw r.not_ended refl,
    rw (r.started_one, r.one, r.at_zero) refl,
  )

  -- However many servant proxies a new communicator is asked for, one at least, it gives them, makes
  -- and starts one network thread, and registers every function once, in order, through the first of
  -- them; `terminate` then ends and deletes that thread, and another `terminate`, such as the
  -- destructor's, uses the deleted thread.
  pub terminate-get_all :
      (new_proxy : ℕ → ℕ) (ip : Text) (port : ℕ) (as' : List Asked)
      → (c : Communicator) × (get_all ((new_proxy, ip, port) ∷ as') construct ≡ some c)
        × (c.started ≡ 0 ∷ [])
        × (c.told ≡ map (λ name. (new_proxy 0 ∷ [], register_text name)) func_names)
        × (d : Communicator) × (terminate c ≡ some d)
        × (d.ended ≡ 0 ∷ [])
        × (terminate d ≡ none)
  terminate-get_all new_proxy ip port as' =
      let (ps, c₁, e, r₁) = Running-first new_proxy ip port in
      let (c, f, r) = Running-all (new_proxy 0) as' c₁ r₁ in
      let (d, g, ended, again) = terminate-Running (new_proxy 0) c r in
      (c, rw e f, r.once, r.asked, d, g, ended, again)
