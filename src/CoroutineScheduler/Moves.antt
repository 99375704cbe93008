-- ===== src/CoroutineScheduler/Moves.antt =====
-- The move of a coroutine to the end of another list, and the invariant.
use tarsx.Prelude.{
  ℕ, ◌+◌, ◌≡◌, refl, sym, subst, ◌⊎◌, inl, inr, true, [], ◌∷◌, arith, if◌then◌else◌, length,
  length-append, ℕ_discrete,
}
use tarsx.CoroutineScheduler.State.{
  Status, free, active, avail, inactive, timeout, eq_status, Sched, remove, coroutine_del,
  coroutine_add_tail, set_status, move_to, move_to_active, move_to_avail, move_to_inactive,
  move_to_timeout,
}
use tarsx.CoroutineScheduler.Inv.{
  count, count-append, count-remove_self, count-remove_ne, length-remove, seat, busy, Counted, Inv,
}

-- Only the part of the invariant about places is needed for the lists of a move.
abbrev pub Placed : Sched → Type 0
Placed s = (c : ℕ) (t : Status) → count c (s.ring t) ≡ seat s c t

module _ (c : ℕ) (t : Status) (s : Sched) (placed : Placed s) (here : s.created c ≡ true) where
  abbrev moved : Sched
  moved = move_to c t s

  count-moved : (d : ℕ) (u : Status) → count d (moved.ring u) ≡ seat moved d u
  unfolding move_to coroutine_add_tail coroutine_del set_status eq_status
  count-moved d u = elim (ℕ_discrete d c) [
    | yes same ↦ rw same (
        ground (
          arith,
          here,
          placed c u,
          count-remove_self c (s.ring u),
          count-append c (remove c (s.ring u)) (c ∷ []),
        ))
    | no other ↦ ground (
      arith,
      placed d u,
      count-remove_ne c d (s.ring u),
      count-append d (remove c (s.ring u)) (c ∷ []),
    )
  ]

  length-moved :
      (u : Status)
      → length (moved.ring u) + seat s c u ≡ length (s.ring u) + (if eq_status t u then 1 else 0)
  unfolding move_to coroutine_add_tail coroutine_del set_status
  length-moved u =
      ground (
        arith,
        length-remove c (s.ring u),
        placed c u,
        length-append (remove c (s.ring u)) (c ∷ []),
      )

same_used : (c : ℕ) (t : Status) (s : Sched) → (move_to c t s).used_size ≡ s.used_size
unfolding move_to
same_used c t s = refl

abbrev pub is_free : Status → ℕ
is_free t = if eq_status t free then 1 else 0

-- A move of a coroutine, with `usedSize_` put right where `free_` is one of the two lists.
pub move_to-Counted :
    {n : ℕ} (c : ℕ) (t : Status) (s : Sched) (k : ℕ)
    → Counted n s
    → s.created c ≡ true
    → k + is_free t ≡ s.used_size + is_free (s.status c)
    → Counted n (move_to c t (record s { used_size = k }))
move_to-Counted {n} c t s k v here shift = record {
  placed = count-moved c t r v.placed here;
  main_absent = unfold move_to in v.main_absent;
  main_free = main;
  numbered = unfold move_to in v.numbered;
  within = unfold move_to in v.within;
  small = unfold move_to in v.small;
  vector = unfold move_to in v.vector;
  used = sizes.0;
  total = sizes.1;
  current_in = unfold move_to in v.current_in;
  queued = unfold move_to in v.queued;
  by_self = unfold move_to in v.by_self;
  due = unfold move_to in v.due;
}
  where
    r : Sched
    r = record s { used_size = k }

    main : (move_to c t r).status 0 ≡ free
    main = unfold move_to set_status in ground (arith, v.main_absent, v.main_free, here)

    sizes :
        ((move_to c t r).used_size ≡ busy (move_to c t r))
        × (n ≡ (move_to c t r).used_size + length ((move_to c t r).ring free))
    sizes =
        unfold eq_status in
        ground (
          arith,
          here,
          shift,
          v.used,
          v.total,
          same_used c t r,
          length-moved c t r v.placed here free,
          length-moved c t r v.placed here active,
          length-moved c t r v.placed here avail,
          length-moved c t r v.placed here inactive,
          length-moved c t r v.placed here timeout,
        )

-- A move between two lists other than `free_`.
pub move_to-Inv :
    {n : ℕ} (c : ℕ) (t : Status) (s : Sched)
    → Counted n s
    → s.created c ≡ true
    → is_free t ≡ is_free (s.status c)
    → Counted n (move_to c t s)
move_to-Inv c t s v here e = move_to-Counted c t s s.used_size v here (omega arith)

-- The guarded moves leave the scheduler alone, or move between two lists other than `free_`.
module _ {n : ℕ} (c : ℕ) (s : Sched) (v : Counted n s) (here : s.created c ≡ true) where
  stays_or_moves :
      (t : Status) (r : Sched)
      → (r ≡ s) ⊎ ((r ≡ move_to c t s) × (is_free t ≡ is_free (s.status c)))
      → Counted n r
  stays_or_moves t r (inl e) = rw e v
  stays_or_moves t r (inr (e, f)) = rw e (move_to-Inv c t s v here f)

  pub move_to_active-Inv : Counted n (move_to_active c s)
  move_to_active-Inv =
      stays_or_moves active (move_to_active c s) (unfold move_to_active eq_status in ground arith)

  pub move_to_avail-Inv : Counted n (move_to_avail c s)
  move_to_avail-Inv =
      stays_or_moves avail (move_to_avail c s) (unfold move_to_avail eq_status in ground arith)

  pub move_to_inactive-Inv : Counted n (move_to_inactive c s)
  move_to_inactive-Inv =
      stays_or_moves inactive (move_to_inactive c s)
        (unfold move_to_inactive eq_status in ground arith)

  pub move_to_timeout-Inv : Counted n (move_to_timeout c s)
  move_to_timeout-Inv =
      stays_or_moves timeout (move_to_timeout c s)
        (unfold move_to_timeout eq_status in ground arith)

-- A guarded move of a coroutine keeps the invariant and makes or loses none.
pub record Keeps (move : ℕ → Sched → Sched) : Type 0 where
  pub inv : (c : ℕ) (s : Sched) → Inv s → s.created c ≡ true → Inv (move c s)
  pub made : (c : ℕ) (s : Sched) → (move c s).created ≡ s.created

Inv-of : {n : ℕ} (r : Sched) → Counted n r → r.current_size ≡ n → Inv r
Inv-of r v e = subst (λ n. Counted n r) (sym e) v

pub move_to_active-Keeps : Keeps move_to_active
move_to_active-Keeps = record {
  inv = λ c s v h. Inv-of (move_to_active c s) (move_to_active-Inv c s v h) (size c s);
  made = λ c s. unfold move_to_active move_to in ground arith;
}
  where
    size : (c : ℕ) (s : Sched) → (move_to_active c s).current_size ≡ s.current_size
    size c s = unfold move_to_active move_to in ground arith

pub move_to_avail-Keeps : Keeps move_to_avail
move_to_avail-Keeps = record {
  inv = λ c s v h. Inv-of (move_to_avail c s) (move_to_avail-Inv c s v h) (size c s);
  made = λ c s. unfold move_to_avail move_to in ground arith;
}
  where
    size : (c : ℕ) (s : Sched) → (move_to_avail c s).current_size ≡ s.current_size
    size c s = unfold move_to_avail move_to in ground arith

pub move_to_inactive-Keeps : Keeps move_to_inactive
move_to_inactive-Keeps = record {
  inv = λ c s v h. Inv-of (move_to_inactive c s) (move_to_inactive-Inv c s v h) (size c s);
  made = λ c s. unfold move_to_inactive move_to in ground arith;
}
  where
    size : (c : ℕ) (s : Sched) → (move_to_inactive c s).current_size ≡ s.current_size
    size c s = unfold move_to_inactive move_to in ground arith

pub move_to_timeout-Keeps : Keeps move_to_timeout
move_to_timeout-Keeps = record {
  inv = λ c s v h. Inv-of (move_to_timeout c s) (move_to_timeout-Inv c s v h) (size c s);
  made = λ c s. unfold move_to_timeout move_to in ground arith;
}
  where
    size : (c : ℕ) (s : Sched) → (move_to_timeout c s).current_size ≡ s.current_size
    size c s = unfold move_to_timeout move_to in ground arith
