-- ===== src/CoroutineScheduler/PoolInv.antt =====
-- The making of coroutines, and the invariant.
use tarsx.Prelude.{
  ℕ, zero, suc, ◌+◌, ◌≤◌, ◌<◌, ◌≡◌, refl, subst, ap, ◌∙◌, Bool, true, Option, some, [], ◌∷◌, ◌==◌,
  arith, if◌then◌else◌, length-append,
}
use tarsx.CoroutineScheduler.State.{
  Status, free, avail, eq_status, Sched, generate_id, coroutine_add_tail, set_status,
}
use tarsx.CoroutineScheduler.Pool.{add_coroutine, increase_loop}
use tarsx.CoroutineScheduler.Inv.{
  Counted, AllCreated-kept, AllDueCreated-kept, seat, count, count-append,
}

-- The scheduler with the next coroutine made.
abbrev pub added : Sched → Sched
added s = coroutine_add_tail (suc s.uniq_id) free (
    set_status (suc s.uniq_id) free (record s {
      uniq_id = suc s.uniq_id;
      created = λ c. if c == suc s.uniq_id then true else s.created c;
    }))

module _ {n : ℕ} (s : Sched) (v : Counted n s) (room : s.uniq_id < s.pool_size) where
  pub generate_id_lem : generate_id s ≡ some (suc s.uniq_id, record s { uniq_id = suc s.uniq_id })
  unfolding generate_id
  generate_id_lem = ground (arith, v.small)

  pub add_coroutine_lem :
      add_coroutine (suc s.uniq_id) (record s { uniq_id = suc s.uniq_id }) ≡ some (added s)
  unfolding add_coroutine
  add_coroutine_lem = ground (arith, v.vector)

  added-kept : (c : ℕ) → s.created c ≡ true → (added s).created c ≡ true
  unfolding coroutine_add_tail set_status
  added-kept c h = ground arith

  added-placed : (c : ℕ) (t : Status) → count c ((added s).ring t) ≡ seat (added s) c t
  unfolding coroutine_add_tail set_status eq_status
  added-placed c t = ground (
    arith,
    v.placed c t,
    v.numbered (suc s.uniq_id),
    count-append c (s.ring t) (suc s.uniq_id ∷ []),
  )

  pub added-Counted : Counted (suc n) (added s)
  unfolding coroutine_add_tail set_status
  added-Counted = record {
    placed = added-placed;
    main_absent = ground (arith, v.main_absent);
    main_free = ground (arith, v.main_free);
    numbered = λ c h. ground (arith, v.numbered c);
    within = omega arith;
    small = v.small;
    vector = v.vector;
    used = unfold eq_status in v.used;
    total =
        unfold eq_status in
        omega (arith, v.total, length-append (s.ring free) (suc s.uniq_id ∷ []));
    current_in = omega (arith, v.current_in);
    queued = AllCreated-kept s (added s) s.active_queue added-kept v.queued;
    by_self = AllCreated-kept s (added s) s.need_active added-kept v.by_self;
    due = AllDueCreated-kept s (added s) s.timeouts added-kept v.due;
  }

-- What making coroutines leaves alone.
pub record Frame (s r : Sched) : Type 0 where
  pub kept : (c : ℕ) → s.created c ≡ true → r.created c ≡ true
  pub status : (c : ℕ) → s.created c ≡ true → r.status c ≡ s.status c
  pub avail_ring : r.ring avail ≡ s.ring avail
  pub used : r.used_size ≡ s.used_size
  pub size : r.current_size ≡ s.current_size
  pub pool : r.pool_size ≡ s.pool_size
  pub current : r.current ≡ s.current

pub Frame-refl : (s : Sched) → Frame s s
Frame-refl s = record {
  kept = λ c h. h;
  status = λ c h. refl;
  avail_ring = refl;
  used = refl;
  size = refl;
  pool = refl;
  current = refl;
}

pub Frame-trans : {s q r : Sched} → Frame s q → Frame q r → Frame s r
Frame-trans f g = record {
  kept = λ c h. g.kept c (f.kept c h);
  status = λ c h. g.status c (f.kept c h) ∙ f.status c h;
  avail_ring = g.avail_ring ∙ f.avail_ring;
  used = g.used ∙ f.used;
  size = g.size ∙ f.size;
  pool = g.pool ∙ f.pool;
  current = g.current ∙ f.current;
}

pub added-Frame : {n : ℕ} (s : Sched) → Counted n s → s.uniq_id < s.pool_size → Frame s (added s)
unfolding coroutine_add_tail set_status eq_status
added-Frame s v room = record {
  kept = added-kept s v room;
  status = λ c h. ground (arith, v.numbered (suc s.uniq_id));
  avail_ring = refl;
  used = refl;
  size = refl;
  pool = refl;
  current = refl;
}

-- A loop that made `k` coroutines, `m` in all.
pub record Grew (s : Sched) (n k : ℕ) (o : Option (ℕ × Sched)) (m : ℕ) : Type 0 where
  pub after : Sched
  pub returned : o ≡ some (m, after)
  pub inv : Counted (n + k) after
  pub frame : Frame s after

pub increase_loop-Grew :
    {n : ℕ} (allocates : ℕ → Bool) (i k succ : ℕ) (s : Sched)
    → ((j : ℕ) → allocates j ≡ true)
    → Counted n s
    → s.uniq_id + k ≤ s.pool_size
    → Grew s n k (increase_loop allocates i k succ s) (succ + k)
unfolding increase_loop
increase_loop-Grew allocates i zero succ s ok v room = record {
  after = s;
  returned = ap (λ m. some (m, s)) (omega arith);
  inv = subst (λ m. Counted m s) (omega arith) v;
  frame = Frame-refl s;
}
increase_loop-Grew {n} allocates i (suc k) succ s ok v room =
    let w = added-Counted s v (omega arith) in
    let g =
      increase_loop-Grew allocates (suc i) k (suc succ) (added s) ok w
        (unfold coroutine_add_tail set_status in omega arith) in
    record {
      after = g.after;
      returned =
          rw
            (
              generate_id_lem s v (omega arith),
              ok i,
              add_coroutine_lem s v (omega arith),
              g.returned,
            )
            (ap (λ m. some (m, g.after)) (omega arith));
      inv = subst (λ m. Counted m g.after) (omega arith) g.inv;
      frame = Frame-trans (added-Frame s v (omega arith)) g.frame;
    }
