-- ===== src/CoroutineScheduler/Create.antt =====
-- `createCoroutine`: what it returns and leaves, with room in the pool and without.
use tarsx.Prelude.{
  ℕ, ◌+◌, ◌%◌, ◌^◌, ◌≤◌, ◌<◌, ◌≡◌, ◌≢◌, ◌⊎◌, refl, ap, ◌∙◌, inl, inr, Bool, true, false, ◌||◌,
  Option, some, List, [], ◌∷◌, ◌++◌, ◌==◌, ltb, leb, arith, if◌then◌else◌, length, add32, sub32,
}
use tarsx.CoroutineScheduler.State.{
  free, avail, eq_status, Sched, move_to, remove, coroutine_add_tail, set_status,
}
use tarsx.CoroutineScheduler.Pool.{
  increase_loop, increase_coro_pool_size, take_free, is_nil, create_coroutine,
}
use tarsx.CoroutineScheduler.Inv.{Counted, Inv, count}
use tarsx.CoroutineScheduler.Moves.{move_to-Counted}
use tarsx.CoroutineScheduler.PoolInv.{Frame, Frame-refl, Grew, increase_loop-Grew}

-- A coroutine taken into service: it was free or is new, and is the last of the available ones.
pub record Took (s : Sched) (o : Option (ℕ × Sched)) : Type 0 where
  pub uid : ℕ
  pub after : Sched
  pub returned : o ≡ some (uid, after)
  pub inv : Inv after
  pub made : after.created uid ≡ true
  pub not_main : uid ≢ 0
  pub ready : after.status uid ≡ avail
  pub behind : after.ring avail ≡ s.ring avail ++ uid ∷ []
  pub one_more : after.used_size ≡ s.used_size + 1
  pub kept : (c : ℕ) → s.created c ≡ true → after.created c ≡ true
  pub others :
      (c : ℕ)
      → s.created c ≡ true
      → eq_status (s.status c) free ≡ false
      → after.status c ≡ s.status c
  pub current : after.current ≡ s.current
  pub pool : after.pool_size ≡ s.pool_size

remove_absent : (c : ℕ) (xs : List ℕ) → count c xs ≡ 0 → remove c xs ≡ xs
unfolding remove
remove_absent c [] h = refl
remove_absent c (x ∷ xs) h = ground (arith, remove_absent c xs)

module _ (s : Sched) (v : Inv s) (c : ℕ) (cs : List ℕ) (head : s.ring free ≡ c ∷ cs) where
  head_counted : (c : ℕ) (cs : List ℕ) → 1 ≤ count c (c ∷ cs)
  head_counted c cs = ground arith

  is_made : (s.created c ≡ true) × (eq_status (s.status c) free ≡ true)
  is_made = ground (arith, v.placed c free, ap (count c) head, head_counted c cs)

  sum : add32 s.used_size 1 ≡ s.used_size + 1
  sum = omega (arith, v.total, v.current_in, v.within, v.small)

  take_free-Took : Took s (take_free s)
  unfolding take_free move_to
  take_free-Took = record {
    uid = c;
    after = move_to c avail (record s { used_size = s.used_size + 1 });
    returned = rw (head, take_free, sum);
    inv =
        unfold eq_status in
        move_to-Counted c avail s (s.used_size + 1) v is_made.0 (ground (arith, is_made.1));
    made = is_made.0;
    not_main = ground (arith, is_made, v.main_absent);
    ready = unfold coroutine_add_tail set_status in ground arith;
    behind =
        unfold eq_status in
        ap (λ xs. xs ++ c ∷ [])
          (remove_absent c (s.ring avail) (ground (arith, v.placed c avail, is_made)));
    one_more = refl;
    kept = λ d h. h;
    others = λ d h e. ground (arith, is_made.1);
    current = refl;
    pool = refl;
  }

-- A pool that grew: it has a free coroutine now, and is otherwise as it was.
record Bigger (s : Sched) (o : Option (Bool × Sched)) : Type 0 where
  after : Sched
  returned : o ≡ some (true, after)
  inv : Inv after
  frame : Frame (record s { current_size = after.current_size }) after
  more : 0 < length (after.ring free)

set_size : {n : ℕ} {s : Sched} (k : ℕ) → Counted n s → Counted n (record s { current_size = k })
set_size k v = record {
  placed = v.placed;
  main_absent = v.main_absent;
  main_free = v.main_free;
  numbered = v.numbered;
  within = v.within;
  small = v.small;
  vector = v.vector;
  used = v.used;
  total = v.total;
  current_in = v.current_in;
  queued = v.queued;
  by_self = v.by_self;
  due = v.due;
}

set_size-Frame :
    {s r : Sched} (k : ℕ)
    → Frame s r
    → Frame (record s { current_size = k }) (record r { current_size = k })
set_size-Frame k f = record {
  kept = f.kept;
  status = f.status;
  avail_ring = f.avail_ring;
  used = f.used;
  size = refl;
  pool = f.pool;
  current = f.current;
}

grown :
    (allocates : ℕ → Bool) (s : Sched) (m : ℕ)
    → Inv s
    → (if ltb 100 (sub32 s.pool_size s.current_size) then 100 else sub32 s.pool_size s.current_size)
      ≡ m
    → 0 < m
    → Grew s s.current_size m (increase_loop allocates 0 m 0 s) (0 + m)
    → Bigger s (increase_coro_pool_size allocates s)
unfolding increase_coro_pool_size
grown allocates s m v e pos g = record {
  after = record g.after { current_size = s.current_size + m };
  returned = rw (e, nonzero m pos, g.returned, nonzero (0 + m) (omega arith), size);
  inv = set_size (s.current_size + m) g.inv;
  frame = set_size-Frame (s.current_size + m) g.frame;
  more = omega (arith, g.inv.total, v.total, g.frame.used);
}
  where
    nonzero : (m : ℕ) → 0 < m → (m == 0) ≡ false
    nonzero m h = ground arith

    size : (g.after.current_size + (0 + m)) % 2 ^ 32 ≡ s.current_size + m
    size = omega (
      arith, g.frame.size, g.inv.current_in, g.inv.within, g.inv.small, g.frame.pool, v.current_in,
    )

increase-Bigger :
    (allocates : ℕ → Bool) (s : Sched)
    → Inv s
    → ((j : ℕ) → allocates j ≡ true)
    → s.current_size < s.pool_size
    → Bigger s (increase_coro_pool_size allocates s)
increase-Bigger allocates s v ok room =
    grown allocates s _ v refl (ground (arith, v.small))
      (increase_loop-Grew allocates 0 _ 0 s ok v (ground (arith, v.current_in, v.small)))

-- A full pool.
increase_full :
    (allocates : ℕ → Bool) (s : Sched)
    → s.current_size ≡ s.pool_size
    → s.pool_size < 2 ^ 32
    → increase_coro_pool_size allocates s ≡ some (false, s)
unfolding increase_coro_pool_size
increase_full allocates s e h = rw (none_left)
  where
    none_left :
        (if ltb 100 (sub32 s.pool_size s.current_size)
          then 100
          else sub32 s.pool_size s.current_size)
        ≡ 0
    none_left = ground (arith, e)

free_cases : (xs : List ℕ) → (xs ≡ []) ⊎ ((c : ℕ) × (cs : List ℕ) × (xs ≡ c ∷ cs))
free_cases [] = inl refl
free_cases (c ∷ cs) = inr (c, cs, refl)

has_head : (xs : List ℕ) → 0 < length xs → (c : ℕ) × (cs : List ℕ) × (xs ≡ c ∷ cs)
has_head [] h = absurd (omega arith)
has_head (c ∷ cs) h = (c, cs, refl)

Took-via :
    (s r : Sched)
    → Frame (record s { current_size = r.current_size }) r
    → (o p : Option (ℕ × Sched)) → p ≡ o
    → Took r o
    → Took s p
Took-via s r f o p e t = record {
  uid = t.uid;
  after = t.after;
  returned = e ∙ t.returned;
  inv = t.inv;
  made = t.made;
  not_main = t.not_main;
  ready = t.ready;
  behind = t.behind ∙ ap (λ xs. xs ++ t.uid ∷ []) f.avail_ring;
  one_more = t.one_more ∙ ap (λ n. n + 1) f.used;
  kept = λ c h. t.kept c (f.kept c h);
  others = λ c h b. t.others c (f.kept c h) (rw (f.status c h) b) ∙ f.status c h;
  current = t.current ∙ f.current;
  pool = t.pool ∙ f.pool;
}

-- With fewer coroutines in use than the pool's size, and every stack that is asked for allocated,
-- `createCoroutine` returns the uid of one that was free or is new: it is the last of `avail_`, and
-- the others are where they were.
pub create_coroutine-Took :
    (allocates : ℕ → Bool) (s : Sched)
    → Inv s
    → ((j : ℕ) → allocates j ≡ true)
    → s.used_size < s.pool_size
    → Took s (create_coroutine allocates s)
unfolding create_coroutine
create_coroutine-Took allocates s v ok room = elim (free_cases (s.ring free)) [
  | inl empty ↦
      let b = increase-Bigger allocates s v ok (omega (arith, v.total, ap length empty)) in
      let (c, cs, head) = has_head (b.after.ring free) b.more in
      Took-via s b.after b.frame (take_free b.after) _ (rw (short empty, b.returned))
        (take_free-Took b.after b.inv c cs head)
  | inr (c, cs, head) ↦
      Took-via s s (Frame-refl s) (take_free s) _ (rw (spare c cs head, head))
        (take_free-Took s v c cs head)
]
  where
    short : s.ring free ≡ [] → (leb s.current_size s.used_size || is_nil (s.ring free)) ≡ true
    short empty = ground (arith, v.total, ap length empty)

    spare : (c : ℕ) (cs : List ℕ) → s.ring free ≡ c ∷ cs → leb s.current_size s.used_size ≡ false
    spare c cs head = ground (arith, v.total, ap length head)

-- With the whole pool in use it returns 0, and nothing changes.
pub create_coroutine_full :
    (allocates : ℕ → Bool) (s : Sched)
    → Inv s
    → s.used_size ≡ s.pool_size
    → create_coroutine allocates s ≡ some (0, s)
unfolding create_coroutine
create_coroutine_full allocates s v e = rw (
  all_used,
  increase_full allocates s (omega (arith, v.total, v.current_in, v.within))
      (omega (arith, v.small)),
)
  where
    all_used : leb s.current_size s.used_size ≡ true
    all_used = ground (arith, v.current_in, v.within)
