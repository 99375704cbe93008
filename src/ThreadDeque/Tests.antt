-- ===== src/ThreadDeque/Tests.antt =====
-- A pop that waits at an empty deque while another thread pushes, and a bulk push.
use tarsx.Prelude.{ℕ, ◌≡◌, refl, none, some, List, [], ◌∷◌, arith}
use tarsx.ThreadDeque.Laws.{Call, pushes_all, pops, item, of_list, step, list_step, step-list_step}

abbrev single : List ℕ
single = 5 ∷ []

abbrev bulk : Call ℕ
bulk = pushes_all (6 ∷ 7 ∷ [])

step-list_step_example :
    step (of_list single) bulk ≡ some ((list_step single bulk).0, of_list (list_step single bulk).1)
step-list_step_example = step-list_step single bulk (omega arith)

-- The pop has waited, and what was pushed meanwhile stays in the deque.
abbrev waiting : Call ℕ
waiting = pops 100 (λ xs. 8 ∷ xs)

list_step-waiting : list_step [] waiting ≡ (item none, 8 ∷ [])
unfolding list_step
list_step-waiting = refl
