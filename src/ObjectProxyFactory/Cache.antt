-- ===== src/ObjectProxyFactory/Cache.antt =====
-- What requests for proxies leave in the factory.
use tarsx.Prelude.{
  ℕ, suc, ◌<◌, ◌≡◌, refl, inl, inr, none, some, List, [], ◌∷◌, ◌++◌, arith, lt→ltb, length,
  length-append, get_elem?-in, Option-cases, Text, look_up, put_at, look_up-put_at,
}
use tarsx.ObjectProxyFactory.{ObjectProxyFactory, construct, get_object_proxy, get_by_index}

-- Requests for proxies, each with the address that a new one would have.
unfoldable pub get_all : (ℕ → Text) → List (ℕ × Text × ℕ) → ObjectProxyFactory → ObjectProxyFactory
get_all to_string [] f = f
get_all to_string ((p, ip, port) ∷ gs) f =
    get_all to_string gs (get_object_proxy to_string p ip port f).1

module _ (to_string : ℕ → Text) where
  found :
      (p proxy : ℕ) (ip : Text) (port : ℕ) (f : ObjectProxyFactory)
      → look_up (ip ++ 58 ∷ to_string port) f.object_proxys ≡ some proxy
      → get_object_proxy to_string p ip port f ≡ (proxy, f)
  unfolding get_object_proxy
  found p proxy ip port f e = rw (e, get_object_proxy)

  missing :
      (p : ℕ) (ip : Text) (port : ℕ) (f : ObjectProxyFactory)
      → look_up (ip ++ 58 ∷ to_string port) f.object_proxys ≡ none
      → get_object_proxy to_string p ip port f ≡ (
        p,
        record {
          object_proxys = put_at (ip ++ 58 ∷ to_string port) p f.object_proxys;
          by_index = f.by_index ++ p ∷ [];
          object_num = suc f.object_num;
        },
      )
  unfolding get_object_proxy
  missing p ip port f e = rw (e, get_object_proxy)

  held :
      (p : ℕ) (ip : Text) (port : ℕ) (f : ObjectProxyFactory)
      → look_up (ip ++ 58 ∷ to_string port) (get_object_proxy to_string p ip port f).1.object_proxys
        ≡ some (get_object_proxy to_string p ip port f).0
  held p ip port f = elim (Option-cases (look_up (ip ++ 58 ∷ to_string port) f.object_proxys)) [
    | inl e ↦
        rw (missing p ip port f e) (look_up-put_at (ip ++ 58 ∷ to_string port) p f.object_proxys)
    | inr (proxy, e) ↦ rw (found p proxy ip port f e) e
  ]

  counted :
      (p : ℕ) (ip : Text) (port : ℕ) (f : ObjectProxyFactory)
      → f.object_num ≡ length f.by_index
      → (get_object_proxy to_string p ip port f).1.object_num
        ≡ length (get_object_proxy to_string p ip port f).1.by_index
  counted p ip port f h =
      elim (Option-cases (look_up (ip ++ 58 ∷ to_string port) f.object_proxys)) [
        | inl e ↦ rw (missing p ip port f e) (omega (arith, h, length-append f.by_index (p ∷ [])))
        | inr (proxy, e) ↦ rw (found p proxy ip port f e) h
      ]

  counted_all :
      (gs : List (ℕ × Text × ℕ)) (f : ObjectProxyFactory)
      → f.object_num ≡ length f.by_index
      → (get_all to_string gs f).object_num ≡ length (get_all to_string gs f).by_index
  unfolding get_all
  counted_all [] f h = h
  counted_all ((p, ip, port) ∷ gs) f h =
      counted_all gs (get_object_proxy to_string p ip port f).1 (counted p ip port f h)

  -- A proxy that was asked for is what the next request for the same address gets, and that request
  -- makes none; and after any requests every index below the number of proxies names one.
  pub get_object_proxy-again :
      (gs : List (ℕ × Text × ℕ)) (p p' : ℕ) (ip : Text) (port : ℕ)
      → (get_object_proxy to_string p' ip port
            (get_object_proxy to_string p ip port (get_all to_string gs construct)).1
          ≡ get_object_proxy to_string p ip port (get_all to_string gs construct))
        × ((i : ℕ)
            → i < (get_all to_string gs construct).object_num
            → (q : ℕ) × (get_by_index i (get_all to_string gs construct) ≡ some q))
  unfolding get_by_index
  get_object_proxy-again gs p p' ip port =
      let f : ObjectProxyFactory = get_all to_string gs construct in
      (
        found p' _ ip port (get_object_proxy to_string p ip port f).1 (held p ip port f),
        λ i h.
            let (q, e) =
              get_elem?-in f.by_index i
                (omega (arith, h, counted_all gs construct (unfold construct in refl))) in
            (q, rw (lt→ltb i f.object_num h, e)),
      )
