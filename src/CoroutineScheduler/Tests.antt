-- ===== src/CoroutineScheduler/Tests.antt =====
-- The scheduler's theorems at a scheduler with one coroutine, which is ready to run.
use tarsx.Prelude.{
  some, ℕ, ◌+◌, ◌≤◌, ◌<◌, ◌^◌, refl, Bool, true, false, List, [], ◌∷◌, ◌==◌, arith, if◌then◌else◌,
}
use tarsx.CoroutineScheduler.State.{free, avail, eq_status, Sched}
use tarsx.CoroutineScheduler.Run.{Request, creates, puts, Exit, sleeps, tars_run}
use tarsx.CoroutineScheduler.Inv.{Inv, Goes}
use tarsx.CoroutineScheduler.Stack.{minimum_stacksize, within_limit, allocate}
use tarsx.CoroutineScheduler.Pages.{Stacked, deallocate-allocate}
use tarsx.CoroutineScheduler.RunInv.{LegalBody, tars_run-Goes}

-- Coroutine 1 is available, and waits besides for a `put` and for a moment of the day.
abbrev ready : ℕ → Sched
ready pool = record {
  terminal = false;
  pool_size = pool;
  current_size = 1;
  used_size = 1;
  uniq_id = 1;
  current = 0;
  all_size = pool + 1;
  created = λ c. c == 1;
  status = λ c. if c == 1 then avail else free;
  ring = λ t. if eq_status t avail then 1 ∷ [] else [];
  active_queue = 1 ∷ [];
  need_active = 1 ∷ [];
  timeouts = (7, 1) ∷ [];
}

ready-Inv : (pool : ℕ) → 1 ≤ pool → pool + 1 < 2 ^ 32 → Inv (ready pool)
unfolding eq_status
ready-Inv pool pos small = record {
  placed = λ c t. ground arith;
  main_absent = refl;
  main_free = refl;
  numbered = λ c h. ground arith;
  within = pos;
  small = small;
  vector = refl;
  used = refl;
  total = refl;
  current_in = refl;
  queued = (refl, tt);
  by_self = (refl, tt);
  due = (refl, tt);
}

abbrev waiting : Sched
waiting = ready 2

waiting-Inv : Inv waiting
waiting-Inv = ready-Inv 2 (omega arith) (omega arith)

abbrev always : ℕ → Bool
always i = true

-- A coroutine that makes another one, is put, and sleeps.
abbrev naps : ℕ → Sched → List Request × Exit
naps c s = (creates always ∷ puts s.current ∷ [], sleeps 5 10)

naps-LegalBody : LegalBody naps
naps-LegalBody c s v run = ((λ j. refl), (run.made, tt))

tars_run-Goes_example : Goes waiting (tars_run naps 9 waiting)
tars_run-Goes_example = tars_run-Goes naps naps-LegalBody 9 waiting waiting-Inv

-- The stack of `ServantHandle::run`, with pages of 4096 bytes and a limit of 8 megabytes.
deallocate-allocate_example :
    Stacked 4096 1310272 40960000
      (some 8388608)
      (allocate 4096 (some 8388608) (some 40960000) true 1310272)
deallocate-allocate_example =
    deallocate-allocate 4096 1310272 40960000 (some 8388608) (omega arith) (omega arith)
      (unfold minimum_stacksize in omega arith) (omega arith) (unfold within_limit in refl)
