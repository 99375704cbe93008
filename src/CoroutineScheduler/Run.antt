-- ===== src/CoroutineScheduler/Run.antt =====
-- `tars_run` and `run`. A coroutine's own code is the argument `body`: what it asks of the scheduler
-- from the moment it is switched to until it gives up its run, and how it does that. Other threads'
-- calls of `put` in that time stand among its requests.
use tarsx.Prelude.{
  ℕ, zero, suc, Bool, Option, none, some, List, [], ◌∷◌, ◌==◌, if◌then◌else◌, ◌>>=◌,
}
use tarsx.CoroutineScheduler.State.{Status, active, avail, Sched}
use tarsx.CoroutineScheduler.Stack.{StackContext}
use tarsx.CoroutineScheduler.Pool.{create_coroutine, destroy}
use tarsx.CoroutineScheduler.Wake.{
  yield, sleep, finish, put, terminate, wakeupbyself, wakeup, wakeupbytimeout,
}

pub data Request : Type 0 where
  creates : (ℕ → Bool) → Request
  puts : ℕ → Request
  terminates : Request

-- How a run of a coroutine ends.
pub data Exit : Type 0 where
  yields : Bool → Exit
  sleeps : ℕ → ℕ → Exit
  finishes : Exit

unfoldable pub serve : List Request → Sched → Option Sched
serve [] s = some s
serve (creates allocates ∷ rs) s = do (_, s') ← create_coroutine allocates s; serve rs s'
serve (puts c ∷ rs) s = serve rs (put c s)
serve (terminates ∷ rs) s = serve rs (terminate s)

unfoldable pub leave : Exit → Sched → Sched
leave (yields flag) s = yield flag s
leave (sleeps now pause) s = sleep now pause s
leave finishes s = finish s

-- The three wake-up passes that both loops begin with.
unfoldable pub wake_all : ℕ → Sched → Option Sched
wake_all now s = do s₁ ← wakeupbytimeout now s; s₂ ← wakeupbyself s₁; wakeup s₂

module _ (body : ℕ → Sched → List Request × Exit) where
  -- `switchCoro(&mainCoro_, coro)`, up to the switch back.
  unfoldable pub switch_coro : ℕ → Sched → Option Sched
  switch_coro c s =
      let (requests, exit) = body c (record s { current = c }) in
      serve requests (record s { current = c }) >>= λ s'. some (leave exit s')

  -- `while (loop > 0 && !coroutineHeadEmpty(…))` over `active_` or `avail_`.
  unfoldable pub drain : ℕ → Status → Sched → Option Sched
  drain zero t s = some s
  drain (suc loop) t s = elim (s.ring t) [
    | [] ↦ some s
    | c ∷ _ ↦ switch_coro c s >>= λ s'. drain loop t s'
  ]

  unfoldable pub tars_run : ℕ → Sched → Option Sched
  tars_run now s =
      if s.terminal
      then some s
      else (do s₁ ← wake_all now s; s₂ ← drain 100 active s₁; drain 100 avail s₂)

  -- One round of the loop of `run`: it switches to one available coroutine at most.
  unfoldable pub run_round : ℕ → Sched → Option Sched
  run_round now s = do s₁ ← wake_all now s; s₂ ← drain 100 active s₁; drain 1 avail s₂

  -- `run`, for as many rounds as the list has times of day; `none` inside means that it was still
  -- running after them. It ends in `destroy`.
  unfoldable pub run :
      Option ℕ → (ℕ → StackContext) → List ℕ → Sched → Option (Option (Sched × List ℕ))
  run limit contexts [] s = some none
  run limit contexts (now ∷ later) s =
      let stop = (do freed ← destroy limit contexts s; some (some (s, freed))) in
      let round = (do
        s' ← run_round now s
        let done = (do freed ← destroy limit contexts s'; some (some (s', freed)))
        let more = run limit contexts later s'
        (if s'.used_size == 0 then done else more)) in
      if s.terminal then stop else round
