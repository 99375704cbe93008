-- ===== src/ServantHandle/Tests.antt =====
-- One adapter with a request and the news of a closed connection, and a scheduler with one coroutine
-- in use and room for another.
use tarsx.Prelude.{
  ℕ, ◌+◌, ◌*◌, Bool, ◌≡◌, refl, true, false, some, List, [], ◌∷◌, ◌==◌, if◌then◌else◌, arith,
}
use tarsx.BindAdapter.{RecvData, client_close}
use tarsx.CoroutineScheduler.Stack.{StackContext}
use tarsx.CoroutineScheduler.State.{free, avail, eq_status, Sched}
use tarsx.CoroutineScheduler.Inv.{Inv}
use tarsx.CoroutineScheduler.Run.{Request, creates, puts, Exit, yields}
use tarsx.CoroutineScheduler.Wake.{yield}
use tarsx.ServantHandle.{Work, handle_request}
use tarsx.ServantHandle.Requests.{Worked, adapters_of, taken, left}
use tarsx.ServantHandle.Rounds.{handle_request_lem}

abbrev idle : Sched
idle = record {
  terminal = false;
  pool_size = 2;
  current_size = 1;
  used_size = 1;
  uniq_id = 1;
  current = 0;
  all_size = 3;
  created = λ c. c == 1;
  status = λ c. if c == 1 then avail else free;
  ring = λ t. if eq_status t avail then 1 ∷ [] else [];
  active_queue = [];
  need_active = [];
  timeouts = [];
}

idle-Inv : Inv idle
unfolding eq_status
idle-Inv = record {
  placed = λ c t. ground arith;
  main_absent = refl;
  main_free = refl;
  numbered = λ c h. ground arith;
  within = omega arith;
  small = omega arith;
  vector = refl;
  used = refl;
  total = refl;
  current_in = refl;
  queued = tt;
  by_self = tt;
  due = tt;
}

abbrev request : RecvData
request = record {
  uid = 5;
  buffer = some 97 ∷ [];
  closed = false;
  fd = 9;
  close_type = client_close;
}

abbrev queues : List (ℕ × List RecvData)
queues = (3, request ∷ record request { closed = true } ∷ []) ∷ []

abbrev work : Work
work = record { sched = idle; jobs = [] }

handle_request_lem_example :
    (r : Work) × (handle_request (λ j. true) (adapters_of queues) work
      ≡ some (true, adapters_of (left queues), record r { sched = yield true r.sched }))
    × Worked (taken queues) work r
handle_request_lem_example =
    handle_request_lem (λ j. true) (λ j. refl) queues work (omega arith, tt) idle-Inv refl

abbrev always : ℕ → Bool
always i = true

-- Every coroutine makes another one, puts itself and yields.
abbrev spreads : ℕ → Sched → List Request × Exit
spreads c s = (creates always ∷ puts s.current ∷ [], yields false)

-- The stacks of 321 pages, one behind the other.
abbrev stacks : ℕ → StackContext
stacks c = record { size = 1314816; sp = 4096 + c * 2000000 + 1314816 }
