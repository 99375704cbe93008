-- ===== src/LoopQueue/Tests.antt =====
-- Runs of a `LoopQueue`, and its theorems at concrete queues.
use tarsx.Prelude.{ℕ, ◌≡◌, refl, true, false, some, List, [], ◌∷◌, arith}
use tarsx.LoopQueue.{LoopQueue, init, size}
use tarsx.LoopQueue.Inv.{IsValid, Holds}
use tarsx.LoopQueue.Uses.{Ring}
use tarsx.LoopQueue.Fifo.{
  Call, pushes, pushes_all, pops, sizes, pushed, answer, item, count, fifo_step, fifo_run, run,
}
use tarsx.LoopQueue.Refine.{run-init}

-- 7, then 8, round the end of a block of three slots.
abbrev pub wrapped : LoopQueue ℕ
wrapped = record { p = 8 ∷ 9 ∷ 7 ∷ []; capacity = 3; capacity_sub = 2; begin_ = 1; end_ = 2 }

wrapped-IsValid : IsValid wrapped
wrapped-IsValid = omega arith

wrapped-Holds : Holds wrapped (7 ∷ 8 ∷ [])
unfolding size
wrapped-Holds = record { count = refl; window = (refl, (refl, tt)) }

pub wrapped-Ring : Ring 2 wrapped (7 ∷ 8 ∷ [])
wrapped-Ring = record { valid = wrapped-IsValid; holds = wrapped-Holds; room = refl }

abbrev fresh : LoopQueue ℕ
fresh = record { p = 0 ∷ 0 ∷ 0 ∷ []; capacity = 3; capacity_sub = 2; begin_ = 0; end_ = 0 }

abbrev script : List (Call ℕ)
script =
    pushes 1
    ∷ pushes 2
    ∷ pushes 3
    ∷ pops
    ∷ pushes_all (4 ∷ 5 ∷ [])
    ∷ pushes_all (6 ∷ [])
    ∷ sizes
    ∷ []

fifo_run-script :
    fifo_run 2 [] script
    ≡ pushed true true
      ∷ pushed true false
      ∷ pushed false false
      ∷ item (some 1)
      ∷ answer false
      ∷ answer true
      ∷ count 2
      ∷ []
unfolding fifo_run fifo_step
fifo_run-script = refl

run-init_example : run fresh script ≡ some (fifo_run 2 [] script)
unfolding init
run-init_example = run-init 2 (0 ∷ 0 ∷ 0 ∷ []) script fresh (omega arith) refl refl
