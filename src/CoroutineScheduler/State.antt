-- ===== src/CoroutineScheduler/State.antt =====
-- The state of a `CoroutineScheduler`, and the moves of a coroutine between its lists. The lists are
-- the sequences that the intrusive rings stand for, and `coroutineDel` takes a coroutine out of
-- whichever list links it. A coroutine is named by its uid; the main coroutine is 0.
use tarsx.Prelude.{
  ℕ, Bool, true, false, Option, none, some, List, [], ◌∷◌, ◌++◌, leb, ◌==◌, if◌then◌else◌, add32,
}

-- `enum CORO_STATUS`.
pub data Status : Type 0 where
  free active avail inactive timeout : Status

unfoldable pub eq_status : Status → Status → Bool
eq_status free free = true
eq_status active active = true
eq_status avail avail = true
eq_status inactive inactive = true
eq_status timeout timeout = true
eq_status _ _ = false

pub record Sched : Type 0 where
  pub terminal : Bool
  pub pool_size : ℕ
  pub current_size : ℕ
  pub used_size : ℕ
  pub uniq_id : ℕ
  -- The uid of `currentCoro_`.
  pub current : ℕ
  -- The size of the vector `allCoro_`, and which of its entries are not null.
  pub all_size : ℕ
  pub created : ℕ → Bool
  pub status : ℕ → Status
  -- The lists `free_`, `active_`, `avail_`, `inactive_` and `timeout_`, from their heads on.
  pub ring : Status → List ℕ
  pub active_queue : List ℕ
  pub need_active : List ℕ
  pub timeouts : List (ℕ × ℕ)

-- `CoroutineScheduler::CoroutineScheduler()`.
unfoldable pub construct : Sched
construct = record {
  terminal = false;
  pool_size = 1000;
  current_size = 0;
  used_size = 0;
  uniq_id = 0;
  current = 0;
  all_size = 1000;
  created = λ _. false;
  status = λ _. free;
  ring = λ _. [];
  active_queue = [];
  need_active = [];
  timeouts = [];
}

unfoldable pub remove : ℕ → List ℕ → List ℕ
remove c [] = []
remove c (d ∷ ds) = if c == d then ds else d ∷ remove c ds

-- `coroutineDel`.
unfoldable pub coroutine_del : ℕ → Sched → Sched
coroutine_del c s = record s { ring = λ t. remove c (s.ring t) }

unfoldable pub set_status : ℕ → Status → Sched → Sched
set_status c t s = record s { status = λ d. if c == d then t else s.status d }

-- `coroutineAddTail` to the list of a status.
unfoldable pub coroutine_add_tail : ℕ → Status → Sched → Sched
coroutine_add_tail c t s = record s {
  ring = λ u. if eq_status t u then s.ring u ++ c ∷ [] else s.ring u;
}

-- `moveTo`, and the three lines that the other moves repeat.
unfoldable pub move_to : ℕ → Status → Sched → Sched
unfolding coroutine_del set_status coroutine_add_tail
move_to c t s = coroutine_add_tail c t (set_status c t (coroutine_del c s))

unfoldable pub move_to_active : ℕ → Sched → Sched
move_to_active c s = elim (s.status c) [
  | inactive ↦ move_to c active s
  | timeout ↦ move_to c active s
  | _ ↦ s
]

unfoldable pub move_to_avail : ℕ → Sched → Sched
move_to_avail c s = elim (s.status c) [ inactive ↦ move_to c avail s | _ ↦ s ]

unfoldable pub move_to_inactive : ℕ → Sched → Sched
move_to_inactive c s = elim (s.status c) [
  | active ↦ move_to c inactive s
  | avail ↦ move_to c inactive s
  | _ ↦ s
]

unfoldable pub move_to_timeout : ℕ → Sched → Sched
move_to_timeout c s = elim (s.status c) [
  | active ↦ move_to c timeout s
  | avail ↦ move_to c timeout s
  | _ ↦ s
]

unfoldable pub move_to_free_list : ℕ → Sched → Sched
move_to_free_list c s = elim (s.status c) [ free ↦ s | _ ↦ move_to c free s ]

-- `while (++uniqId_ < 1); assert(uniqId_ <= poolSize_);`. A second round is made only from the
-- largest `uint32_t`.
unfoldable pub generate_id : Sched → Option (ℕ × Sched)
generate_id s =
    let once = add32 s.uniq_id 1 in
    let id = if once == 0 then add32 once 1 else once in
    if leb id s.pool_size then some (id, record s { uniq_id = id }) else none
