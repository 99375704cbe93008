-- ===== src/CoroutineScheduler/Init.antt =====
-- `init` of a scheduler just constructed, and `destroy`.
use tarsx.Prelude.{
  ℕ, zero, suc, ◌+◌, ◌^◌, ◌≤◌, ◌<◌, ◌≡◌, refl, subst, ap, inl, inr, Bool-cases, Bool, true, false,
  Option, some, List, [], ◌∷◌, ◌==◌, leb, ltb, arith, if◌then◌else◌, ◌&&◌, add32,
}
use tarsx.CoroutineScheduler.Stack.{StackContext, deallocate}
use tarsx.CoroutineScheduler.State.{Sched, construct, coroutine_add_tail, set_status}
use tarsx.CoroutineScheduler.Pool.{init_loop, init, destroy_loop, destroy}
use tarsx.CoroutineScheduler.Inv.{Counted, Inv, count}
use tarsx.CoroutineScheduler.PoolInv.{
  Frame-refl, Frame-trans, added, added-Counted, added-Frame, generate_id_lem, add_coroutine_lem,
  Grew,
}

init_loop-Grew :
    {n : ℕ} (allocates : ℕ → Bool) (i k succ : ℕ) (s : Sched)
    → ((j : ℕ) → allocates j ≡ true)
    → Counted n s
    → s.uniq_id + k ≤ s.pool_size
    → Grew s n k (init_loop allocates i k succ s) (succ + k)
unfolding init_loop
init_loop-Grew allocates i zero succ s ok v room = record {
  after = s;
  returned = ap (λ m. some (m, s)) (omega arith);
  inv = subst (λ m. Counted m s) (omega arith) v;
  frame = Frame-refl s;
}
init_loop-Grew {n} allocates i (suc k) succ s ok v room =
    let w = added-Counted s v (omega arith) in
    let g =
      init_loop-Grew allocates (suc i) k (suc succ) (added s) ok w
        (unfold coroutine_add_tail set_status in omega arith) in
    record {
      after = g.after;
      returned =
          rw
            (
              ok i,
              generate_id_lem s v (omega arith),
              add_coroutine_lem s v (omega arith),
              g.returned,
            )
            (ap (λ m. some (m, g.after)) (omega arith));
      inv = subst (λ m. Counted m g.after) (omega arith) g.inv;
      frame = Frame-trans (added-Frame s v (omega arith)) g.frame;
    }

-- What `init` makes of a new scheduler.
pub record Starts (pool : ℕ) (o : Option Sched) : Type 0 where
  pub after : Sched
  pub returned : o ≡ some after
  pub inv : Inv after
  pub pool_is : after.pool_size ≡ pool
  pub unused : after.used_size ≡ 0
  pub made : after.current_size ≡ (if leb pool 100 then pool else 100)

-- The state in which the loop of `init` starts.
abbrev begun : ℕ → ℕ → Sched
begun pool size = record construct { pool_size = pool; current_size = size; all_size = pool + 1 }

begun-Counted : (pool size : ℕ) → pool + 1 < 2 ^ 32 → Counted 0 (begun pool size)
unfolding construct
begun-Counted pool size small = record {
  placed = λ c t. refl;
  main_absent = refl;
  main_free = refl;
  numbered = λ c h. refl;
  within = omega arith;
  small = small;
  vector = refl;
  used = refl;
  total = refl;
  current_in = refl;
  queued = tt;
  by_self = tt;
  due = tt;
}

set_sizes : {n : ℕ} {s : Sched} → Counted n s → Inv (record s { current_size = n; current = 0 })
set_sizes v = record {
  placed = v.placed;
  main_absent = v.main_absent;
  main_free = v.main_free;
  numbered = v.numbered;
  within = v.within;
  small = v.small;
  vector = v.vector;
  used = v.used;
  total = v.total;
  current_in = v.current_in;
  queued = v.queued;
  by_self = v.by_self;
  due = v.due;
}

-- A new scheduler that is given a pool of at least one coroutine and less than `2 ^ 32 - 1`, with
-- every stack allocated, has the invariant, and as many coroutines as the pool holds, but 100 at
-- most, none of them in use.
pub init-Starts :
    (allocates : ℕ → Bool) (pool : ℕ)
    → ((j : ℕ) → allocates j ≡ true)
    → 0 < pool
    → pool + 1 < 2 ^ 32
    → Starts pool (init allocates pool construct)
unfolding init construct
init-Starts allocates pool ok pos small = record {
  after = record g.after { current_size = 0 + size; current = 0 };
  returned = rw (nonzero, vector, g.returned);
  inv = set_sizes g.inv;
  pool_is = g.frame.pool;
  unused = g.frame.used;
  made = omega arith;
}
  where
    size : ℕ
    size = if leb pool 100 then pool else 100

    g : Grew (begun pool size) 0 size (init_loop allocates 0 size 0 (begun pool size)) (0 + size)
    g =
        init_loop-Grew allocates 0 size 0 (begun pool size) ok (begun-Counted pool size small)
          (ground arith)

    nonzero : (pool == 0) ≡ false
    nonzero = ground (arith, pos)

    vector : add32 pool 1 ≡ pool + 1
    vector = omega (arith, small)

-- Every coroutine's stack passes the assertions of `deallocate`.
abbrev pub Deallocates : Option ℕ → (ℕ → StackContext) → Sched → Type 0
Deallocates limit contexts s =
    (c : ℕ) → s.created c ≡ true → (m : ℕ × ℕ) × (deallocate limit (contexts c) ≡ some m)

-- The uids that the loop of `destroy` gives back.
record Frees (s : Sched) (n i : ℕ) (o : Option (List ℕ)) : Type 0 where
  freed : List ℕ
  returned : o ≡ some freed
  counts : (c : ℕ) → count c freed ≡ (if leb i c && ltb c (i + n) && s.created c then 1 else 0)

destroy_loop-Frees :
    (limit : Option ℕ) (contexts : ℕ → StackContext) (n i : ℕ) (s : Sched)
    → i + n ≤ s.all_size
    → Deallocates limit contexts s
    → Frees s n i (destroy_loop limit contexts n i s)
unfolding destroy_loop
destroy_loop-Frees limit contexts zero i s h ok = record {
  freed = [];
  returned = refl;
  counts = λ c. ground arith;
}
destroy_loop-Frees limit contexts (suc n) i s h ok =
    let g = destroy_loop-Frees limit contexts n (suc i) s (omega arith) ok in
    elim (Bool-cases (s.created i)) [
      | inl there ↦
          let (m, e) = ok i there in
          record {
            freed = i ∷ g.freed;
            returned = rw (inside, there, e, g.returned);
            counts = λ c. ground (arith, g.counts c);
          }
      | inr none_there ↦ record {
        freed = g.freed;
        returned = rw (inside, none_there, g.returned);
        counts = λ c. ground (arith, g.counts c);
      }
    ]
  where
    inside : ltb i s.all_size ≡ true
    inside = ground (arith, h)

-- `destroy` reads inside its vector, and gives back the stack of every coroutine exactly once, where
-- every one of them passes the assertions.
pub destroy_lem :
    (limit : Option ℕ) (contexts : ℕ → StackContext) (s : Sched)
    → Inv s
    → Deallocates limit contexts s
    → (freed : List ℕ) × (destroy limit contexts s ≡ some freed)
      × ((c : ℕ) → count c freed ≡ (if s.created c then 1 else 0))
unfolding destroy
destroy_lem limit contexts s v ok =
    let g = destroy_loop-Frees limit contexts s.pool_size 1 s (omega (arith, v.vector)) ok in
    (
      g.freed,
      rw (nonzero, g.returned),
      λ c. ground (arith, g.counts c, v.main_absent, v.numbered c, v.within),
    )
  where
    nonzero : (s.all_size == 0) ≡ false
    nonzero = ground (arith, v.vector)
