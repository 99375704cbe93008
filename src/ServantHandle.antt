-- ===== src/ServantHandle.antt =====
-- tarsx/ServantHandle.cc: the coroutine that takes requests from the adapters and makes a coroutine for
-- each, and what such a coroutine does. `none` is a fault; adapters are named by numbers.
pub mod Requests
pub mod Rounds
pub mod Run
pub mod Stacks
mod Tests
use tarsx.Prelude.{
  ℕ, zero, suc, ◌+◌, ◌-◌, ◌*◌, ◌/◌, Bool, true, false, Option, none, some, List, [], ◌∷◌, ◌++◌, ltb,
  ◌==◌, if◌then◌else◌, length, ◌>>=◌,
}
use tarsx.Buffer.{Byte}
use tarsx.BindAdapter.{RecvData, BindAdapter, wait_for_recv_queue}
use tarsx.CoroutineScheduler.State.{Sched}
use tarsx.CoroutineScheduler.Pool.{create_coroutine}
use tarsx.CoroutineScheduler.Wake.{yield}
use tarsx.EpollServer.{EpollServer, send}

-- `coroutineNum` in `run`, from `coroutineMemSize` and `coroutineStackSize`.
unfoldable pub coroutine_num : ℕ → ℕ → ℕ
coroutine_num mem_size stack_size =
    let n = if ltb stack_size mem_size then mem_size / (stack_size * 4) else 1 in
    if ltb n 1 then 1 else n

-- The scheduler, and the requests for which a coroutine was asked for, each with the uid that
-- `createCoroutine` returned: a request with the uid 0 has none.
pub record Work : Type 0 where
  pub sched : Sched
  pub jobs : List (ℕ × RecvData)

unfoldable pub spawn : (ℕ → Bool) → RecvData → Work → Option Work
spawn allocates r w = do
  (uid, s) ← create_coroutine allocates w.sched
  some (record { sched = s; jobs = w.jobs ++ (uid, r) ∷ [] })

-- What is done with a request: the news that a connection was closed is dropped.
unfoldable pub serve : (ℕ → Bool) → RecvData → Work → Option Work
serve allocates r w = let job = spawn allocates r w in if r.closed then some w else job

-- What the loop over an adapter leaves: `loop` and `yield`.
pub record Served : Type 0 where
  pub loop : ℕ
  pub yields : Bool
  pub adapter : BindAdapter
  pub work : Work

-- `while (flag && loop > 0)`.
unfoldable pub adapter_loop : (ℕ → Bool) → ℕ → Bool → BindAdapter → Work → Option Served
adapter_loop allocates zero y a w = some (record { loop = 0; yields = y; adapter = a; work = w })
adapter_loop allocates (suc loop) y a w = do
  (recv, a') ← wait_for_recv_queue 0 (λ q. q) a
  elim recv [
    | none ↦ some (record { loop = loop; yields = false; adapter = a'; work = w })
    | some r ↦ (do w' ← serve allocates r w; adapter_loop allocates loop true a' w')
  ]

-- The loop over the adapters, from a value of `yield` on.
unfoldable pub adapters_loop :
    (ℕ → Bool)
    → Bool
    → List (ℕ × BindAdapter)
    → Work
    → Option (Bool × List (ℕ × BindAdapter) × Work)
adapters_loop allocates y [] w = some (y, [], w)
adapters_loop allocates y ((name, a) ∷ as') w = do
  d ← adapter_loop allocates 100 y a w
  (y', rest, w') ← adapters_loop allocates (if d.loop == 0 then false else d.yields) as' d.work
  some (y', (name, d.adapter) ∷ rest, w')

-- A round of `handleRequest`, behind the waiting and the heartbeat: whether it ended with a `yield`.
unfoldable pub handle_request :
    (ℕ → Bool) → List (ℕ × BindAdapter) → Work → Option (Bool × List (ℕ × BindAdapter) × Work)
handle_request allocates adapters w =
    let served = (do
      (y, adapters', w') ← adapters_loop allocates false adapters w
      some (
          if y
          then (false, adapters', w')
          else (true, adapters', record w' { sched = yield true w'.sched }))) in
    if ltb 0 (length w.sched.active_queue)
    then some (true, adapters, record w { sched = yield true w.sched })
    else served

-- `handle`: the servants by the name of their adapter; one that is missing fails the `assert`.
unfoldable pub handle :
    (ℕ → Option (List Byte → List Byte)) → ℕ → RecvData → EpollServer → Option EpollServer
handle servants name r e = do func ← servants name; send r.uid (func r.buffer) r.fd e

-- `heartbeat` at the time `cur`: the adapters with the times of their last beats, and the names that
-- are told to the node.
unfoldable pub apart : ℕ → ℕ → ℕ
apart a b = if ltb a b then b - a else a - b

unfoldable pub heartbeat : ℕ → List (ℕ × ℕ) → List (ℕ × ℕ) × List ℕ
heartbeat cur [] = ([], [])
heartbeat cur ((name, t) ∷ beats) =
    let (rest, told) = heartbeat cur beats in
    if ltb 10 (apart cur t) then ((name, cur) ∷ rest, name ∷ told) else ((name, t) ∷ rest, told)
