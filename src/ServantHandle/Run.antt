-- ===== src/ServantHandle/Run.antt =====
-- tarsx/ServantHandle.cc: `run`, the main coroutine of a handle's thread, behind `init`. The argument
-- `body` is the code of the coroutines, the one of `handleRequest` among them.
use tarsx.Prelude.{ℕ, Bool, Option, some, List, [], ◌∷◌, ◌>>=◌}
use tarsx.CoroutineScheduler.Stack.{StackContext}
use tarsx.CoroutineScheduler.State.{Sched, construct}
use tarsx.CoroutineScheduler.Pool.{init, create_coroutine, destroy}
use tarsx.CoroutineScheduler.Run.{Request, Exit, tars_run}
use tarsx.CoroutineScheduler.Wake.{terminate}
use tarsx.ServantHandle.{coroutine_num}

unfoldable pub coroutine_mem_size : ℕ
coroutine_mem_size = 1073741824

unfoldable pub coroutine_stack_size : ℕ
coroutine_stack_size = 1310272

-- `while (!epollServer_->isTerminate())`, at the times of day of its rounds.
unfoldable pub tars_runs : (ℕ → Sched → List Request × Exit) → List ℕ → Sched → Option Sched
tars_runs body [] s = some s
tars_runs body (now ∷ times) s = do s' ← tars_run body now s; tars_runs body times s'

-- What `run` leaves: the uid of the coroutine of `handleRequest`, the scheduler, and the coroutines
-- whose stacks were given back.
pub record Ran : Type 0 where
  pub uid : ℕ
  pub sched : Sched
  pub freed : List ℕ

-- The two allocations are those of `init` and those of `createCoroutine`; the limit of the stack and
-- the stacks that were allocated are given.
unfoldable pub run :
    (ℕ → Bool)
    → (ℕ → Bool)
    → Option ℕ
    → (ℕ → StackContext)
    → (ℕ → Sched → List Request × Exit)
    → List ℕ
    → Option Ran
run at_init at_create limit contexts body times = do
  s ← init at_init (coroutine_num coroutine_mem_size coroutine_stack_size) construct
  (uid, s₁) ← create_coroutine at_create s
  s₂ ← tars_runs body times s₁
  let s₃ = terminate s₂
  freed ← destroy limit contexts s₃
  some (record { uid = uid; sched = s₃; freed = freed })
