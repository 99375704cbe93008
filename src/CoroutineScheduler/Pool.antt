-- ===== src/CoroutineScheduler/Pool.antt =====
-- The coroutines that the scheduler makes: `init`, `increaseCoroPoolSize`, `createCoroutine` and
-- `destroy`. Whether `alloc_.allocate` (`mmap`) succeeds in round `i` of a loop is the argument
-- `allocates`; the stacks that it gave, by uid, are the argument of `destroy`. A coroutine's registration (`registerFunc`) jumps into its new stack and straight back
-- and leaves the scheduler as it is.
use tarsx.Prelude.{
  ℕ, zero, suc, Bool, true, false, Option, none, some, List, [], ◌∷◌, ltb, leb, ◌==◌, ◌||◌,
  if◌then◌else◌, add32, sub32, ◌>>=◌, ◌>>◌, guard,
}
use tarsx.CoroutineScheduler.Stack.{StackContext, deallocate}
use tarsx.CoroutineScheduler.State.{
  free, avail, Sched, coroutine_del, set_status, coroutine_add_tail, generate_id,
}

-- `allCoro_[id] = coro` and the coroutine's insertion behind `free_`. The write is past the vector
-- where `id` is not below its size.
unfoldable pub add_coroutine : ℕ → Sched → Option Sched
unfolding set_status coroutine_add_tail
add_coroutine id s =
    if ltb id s.all_size
    then some (
        coroutine_add_tail id free
          (set_status id free (record s { created = λ c. if c == id then true else s.created c })))
    else none

-- The loop of `init` from round `i` on, for `n` more rounds: the stack is allocated first. The count
-- is `succ`.
unfoldable pub init_loop : (ℕ → Bool) → ℕ → ℕ → ℕ → Sched → Option (ℕ × Sched)
init_loop allocates i zero succ s = some (succ, s)
init_loop allocates i (suc n) succ s =
    let rest = (do
      (id, s₁) ← generate_id s
      s₂ ← add_coroutine id s₁
      init_loop allocates (suc i) n (suc succ) s₂) in
    if allocates i then rest else some (succ, s)

unfoldable pub init : (ℕ → Bool) → ℕ → Sched → Option Sched
init allocates pool s = if pool == 0 then some s else (do
  let size = if leb pool 100 then pool else 100
  (succ, s') ← init_loop allocates 0 size 0 (record s {
    terminal = false;
    pool_size = pool;
    current_size = size;
    all_size = if s.all_size == 0 then 0 else add32 pool 1;
    created = if s.all_size == 0 then s.created else λ _. false;
    used_size = 0;
    uniq_id = 0;
  })
  some (record s' { current_size = succ; current = 0 }))

-- The loop of `increaseCoroPoolSize`: the id is taken first, also where the allocation then fails.
unfoldable pub increase_loop : (ℕ → Bool) → ℕ → ℕ → ℕ → Sched → Option (ℕ × Sched)
increase_loop allocates i zero succ s = some (succ, s)
increase_loop allocates i (suc n) succ s = do
  (id, s₁) ← generate_id s
  let rest = (do s₂ ← add_coroutine id s₁; increase_loop allocates (suc i) n (suc succ) s₂)
  if allocates i then rest else some (succ, s₁)

-- The answer is whether it returned 0.
unfoldable pub increase_coro_pool_size : (ℕ → Bool) → Sched → Option (Bool × Sched)
increase_coro_pool_size allocates s =
    let room = sub32 s.pool_size s.current_size in
    let inc = if ltb 100 room then 100 else room in
    if inc == 0 then some (false, s) else (do
      (succ, s') ← increase_loop allocates 0 inc 0 s
      (if succ == 0
          then some (false, s')
          else some (true, record s' { current_size = add32 s'.current_size succ })))

-- `createCoroutine` once there is a free coroutine: the first of `free_` goes behind `avail_`.
-- With `free_` empty, `free_.next_` is the list's own head.
unfoldable pub take_free : Sched → Option (ℕ × Sched)
unfolding coroutine_del set_status coroutine_add_tail
take_free s = elim (s.ring free) [
  | [] ↦ none
  | c ∷ _ ↦ some (
    c,
    coroutine_add_tail c avail
        (set_status c avail (record (coroutine_del c s) { used_size = add32 s.used_size 1 })),
  )
]

abbrev pub is_nil : List ℕ → Bool
is_nil [] = true
is_nil (c ∷ cs) = false

-- The uid of the coroutine, or 0 where there is none to be had.
unfoldable pub create_coroutine : (ℕ → Bool) → Sched → Option (ℕ × Sched)
create_coroutine allocates s =
    if leb s.current_size s.used_size || is_nil (s.ring free)
    then (do
      (grown, s') ← increase_coro_pool_size allocates s
      (if grown then take_free s' else some (0, s')))
    else take_free s

-- `destroy` from index `i` on, for `n` more indices, over the stacks of the coroutines: the uids whose
-- stacks it unmaps. Reading an index past the vector is a fault, as is `deallocate`'s.
unfoldable pub destroy_loop : Option ℕ → (ℕ → StackContext) → ℕ → ℕ → Sched → Option (List ℕ)
destroy_loop limit contexts zero i s = some []
destroy_loop limit contexts (suc n) i s =
    let rest = destroy_loop limit contexts n (suc i) s in
    let back = (do _ ← deallocate limit (contexts i); freed ← rest; some (i ∷ freed)) in
    do guard (ltb i s.all_size); (if s.created i then back else rest)

unfoldable pub destroy : Option ℕ → (ℕ → StackContext) → Sched → Option (List ℕ)
destroy limit contexts s =
    let freed = destroy_loop limit contexts s.pool_size 1 s in
    if s.all_size == 0 then some [] else freed
