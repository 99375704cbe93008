-- ===== src/Communicator/Tests.antt =====
-- A client of a server with two functions, which asks for two proxies.
use tarsx.Prelude.{ℕ, ◌+◌, ◌≡◌, none, some, List, [], ◌∷◌, map, Text, codes}
use tarsx.Communicator.{Communicator, construct, terminate, register_text}
use tarsx.Communicator.Once.{get_all, terminate-get_all}

abbrev letter : ℕ → Text
letter n = (65 + n) ∷ []

abbrev functions : List Text
functions = codes "test" ∷ codes "testHello" ∷ []

terminate-get_all_example :
    (c : Communicator) × (get_all functions letter
        ((λ i. 7 + i, codes "127.0.0.1", 1) ∷ (λ i. 8 + i, codes "127.0.0.1", 2) ∷ [])
        construct
      ≡ some c)
    × (c.started ≡ 0 ∷ [])
    × (c.told ≡ map (λ name. (7 ∷ [], register_text name)) functions)
    × (d : Communicator) × (terminate c ≡ some d)
    × (d.ended ≡ 0 ∷ [])
    × (terminate d ≡ none)
terminate-get_all_example =
    terminate-get_all functions letter (λ i. 7 + i) (codes "127.0.0.1") 1
      ((λ i. 8 + i, codes "127.0.0.1", 2) ∷ [])
