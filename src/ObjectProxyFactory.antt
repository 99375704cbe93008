-- ===== src/ObjectProxyFactory.antt =====
-- tarsx/ObjectProxyFactory.cc: one proxy for each address. Proxies are named by numbers that stand for
-- their own addresses in memory; the one that a new proxy gets is an argument.
pub mod Cache
mod Tests
use tarsx.Prelude.{
  ℕ, suc, Option, none, some, List, [], ◌∷◌, ◌++◌, ltb, if◌then◌else◌, length, get_elem?, Text,
  look_up, put_at, ◌>>=◌, ◌>>◌, guard,
}

pub record ObjectProxyFactory : Type 0 where
  pub object_proxys : List (Text × ℕ)
  -- `objectproxys_`, in the order of their making.
  pub by_index : List ℕ
  pub object_num : ℕ

-- `ObjectProxyFactory(communicator)`.
unfoldable pub construct : ObjectProxyFactory
construct = record { object_proxys = []; by_index = []; object_num = 0 }

-- `get_objectProxy(ip, port)`; a colon is 58.
unfoldable pub get_object_proxy :
    (ℕ → Text) → ℕ → Text → ℕ → ObjectProxyFactory → ℕ × ObjectProxyFactory
get_object_proxy to_string new_proxy ip port f =
    let name = ip ++ 58 ∷ to_string port in
    elim (look_up name f.object_proxys) [
      | some proxy ↦ (proxy, f)
      | none ↦ (
        new_proxy,
        record {
          object_proxys = put_at name new_proxy f.object_proxys;
          by_index = f.by_index ++ new_proxy ∷ [];
          object_num = suc f.object_num;
        },
      )
    ]

-- `get_objectProxy(index)`.
unfoldable pub get_by_index : ℕ → ObjectProxyFactory → Option ℕ
get_by_index index f = do guard (ltb index f.object_num); get_elem? f.by_index index
