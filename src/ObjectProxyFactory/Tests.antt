-- ===== src/ObjectProxyFactory/Tests.antt =====
-- Two requests for one address, after one for another.
use tarsx.Prelude.{ℕ, ◌+◌, ◌≡◌, ◌<◌, some, [], ◌∷◌, Text, List}
use tarsx.ObjectProxyFactory.{construct, get_object_proxy, get_by_index}
use tarsx.ObjectProxyFactory.Cache.{get_all, get_object_proxy-again}

-- One digit for each port below ten.
abbrev digit : ℕ → Text
digit n = (48 + n) ∷ []

abbrev one_other : List (ℕ × Text × ℕ)
one_other = (7, 49 ∷ [], 3) ∷ []

get_object_proxy-again_example :
    (get_object_proxy digit 9
        (50 ∷ [])
        4
        (get_object_proxy digit 8 (50 ∷ []) 4 (get_all digit one_other construct)).1
      ≡ get_object_proxy digit 8 (50 ∷ []) 4 (get_all digit one_other construct))
    × ((i : ℕ)
        → i < (get_all digit one_other construct).object_num
        → (q : ℕ) × (get_by_index i (get_all digit one_other construct) ≡ some q))
get_object_proxy-again_example = get_object_proxy-again digit one_other 8 9 (50 ∷ []) 4
