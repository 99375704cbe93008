-- ===== src/ServantHandle/Stacks.antt =====
-- The stacks of the coroutines that a handle's thread makes.
use tarsx.Prelude.{ℕ, ◌≡◌, ◌≢◌, true, Option, some, if◌then◌else◌}
use tarsx.CoroutineScheduler.Inv.{Inv, count}
use tarsx.ServantHandle.Run.{Ran}

-- The thread has ended: its scheduler is stopped, the coroutine of `handleRequest` was one of its
-- coroutines, and the stack of every coroutine was given back once.
pub record Ended (o : Option Ran) : Type 0 where
  pub after : Ran
  pub returned : o ≡ some after
  pub stopped : after.sched.terminal ≡ true
  pub started : after.uid ≢ 0
  pub made : after.sched.created after.uid ≡ true
  pub once : (c : ℕ) → count c after.freed ≡ (if after.sched.created c then 1 else 0)
