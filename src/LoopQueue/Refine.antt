-- ===== src/LoopQueue/Refine.antt =====
-- A `LoopQueue` made for `n` elements against a first-in first-out list of at most `n` elements.
use tarsx.Prelude.{
  ℕ, ◌+◌, ◌≤◌, ◌≡◌, refl, ap, ◌∙◌, inl, inr, true, false, not, none, some, List, [], ◌∷◌, ◌++◌,
  arith, ltb, leb, ◌==◌, if◌then◌else◌, length, Bool-cases,
}
use tarsx.LoopQueue.{
  LoopQueue, init, size, empty, set?, next, is_full, store, no_room, push_back, push_back_at,
  push_back_only, push_back_all, get_front, drop_front, pop_front,
}
use tarsx.LoopQueue.Inv.{
  IsValid, Holds, is_full_iff, size_zero, stored, store_lem, stored-IsValid, stored-Holds,
  size-stored, taken, taken-IsValid, taken-Holds, next-ahead,
}
use tarsx.LoopQueue.Bulk.{no_room_iff, store_all_lem}
use tarsx.LoopQueue.Fifo.{
  Call, pushes, pushes_at, pushes_only, pushes_all, pops, drops, fronts, sizes, empties, Reply,
  pushed, item, answer, count, fifo_step, fifo_run, step, run, Follows,
}

module _ {A : Type 0} (q : LoopQueue A) (xs : List A) (v : IsValid q) (h : Holds q xs) where
  -- Both single `push_back`s test alike, and the two ways to set `empty` agree: after the store the
  -- size is one only if `end_` was `begin_`.
  push_back_lem :
      (t : A)
      → push_back q t ≡ (
          if ltb (length xs) q.capacity_sub
          then some (record { queue = stored q v t; done = true; was_empty = length xs == 0 })
          else some (record { queue = q; done = false; was_empty = false }))
  unfolding push_back
  push_back_lem t =
      ground (arith, is_full_iff q v, size_zero q v, store_lem q v t, size-stored q v t, h.count)

  push_back_at_lem :
      (t : A)
      → push_back_at q t ≡ (
          if ltb (length xs) q.capacity_sub
          then some (record {
            pushed = record { queue = stored q v t; done = true; was_empty = length xs == 0 };
            begin_at = q.begin_;
            end_at = q.end_;
          })
          else some (record {
            pushed = record { queue = q; done = false; was_empty = false };
            begin_at = q.begin_;
            end_at = q.end_;
          }))
  unfolding push_back_at
  push_back_at_lem t =
      ground (arith, is_full_iff q v, size_zero q v, store_lem q v t, size-stored q v t, h.count)

  no_room-lem : (n : ℕ) → no_room q n ≡ not (leb (length xs + n) q.capacity_sub)
  no_room-lem n = ground (arith, no_room_iff q n v, h.count)

  follows :
      (c : Call A) (a : Reply A) (r : LoopQueue A) (ys : List A)
      → step q c ≡ some (a, r)
      → fifo_step q.capacity_sub xs c ≡ (a, ys)
      → IsValid r
      → Holds r ys
      → r.capacity_sub ≡ q.capacity_sub
      → Follows q xs c
  follows c a r ys e f w k s = record {
    after = r;
    replied = rw f e;
    valid = w;
    holds = rw f k;
    same = s;
  }

  Follows-push :
      (c : Call A) (t : A) (accepted refused : Reply A)
      → (ltb (length xs) q.capacity_sub ≡ true → step q c ≡ some (accepted, stored q v t))
      → (ltb (length xs) q.capacity_sub ≡ true
          → fifo_step q.capacity_sub xs c ≡ (accepted, xs ++ t ∷ []))
      → (ltb (length xs) q.capacity_sub ≡ false → step q c ≡ some (refused, q))
      → (ltb (length xs) q.capacity_sub ≡ false → fifo_step q.capacity_sub xs c ≡ (refused, xs))
      → Follows q xs c
  Follows-push c t a b e f e' f' = elim (Bool-cases (ltb (length xs) q.capacity_sub)) [
    | inl room ↦
        follows c a (stored q v t) (xs ++ t ∷ []) (e room) (f room) (stored-IsValid q v t)
          (stored-Holds q v t xs h (ground (arith, h.count))) refl
    | inr full ↦ follows c b q xs (e' full) (f' full) v h refl
  ]

  step_pushes : (t : A) → Follows q xs (pushes t)
  unfolding step fifo_step
  step_pushes t =
      Follows-push (pushes t) t (pushed true (length xs == 0)) (pushed false false)
        (λ b. rw (push_back_lem t, b, step)) (λ b. rw (b, fifo_step))
        (λ b. rw (push_back_lem t, b, step)) (λ b. rw (b, fifo_step))

  step_pushes_at : (t : A) → Follows q xs (pushes_at t)
  unfolding step fifo_step
  step_pushes_at t =
      Follows-push (pushes_at t) t (pushed true (length xs == 0)) (pushed false false)
        (λ b. rw (push_back_at_lem t, b, step)) (λ b. rw (b, fifo_step))
        (λ b. rw (push_back_at_lem t, b, step)) (λ b. rw (b, fifo_step))

  step_pushes_only : (t : A) → Follows q xs (pushes_only t)
  unfolding step fifo_step push_back_only
  step_pushes_only t =
      Follows-push (pushes_only t) t (answer true) (answer false)
        (λ b. rw (push_back_lem t, b, step)) (λ b. rw (b, fifo_step))
        (λ b. rw (push_back_lem t, b, step)) (λ b. rw (b, fifo_step))

  step_pushes_all : (ts : List A) → Follows q xs (pushes_all ts)
  unfolding step fifo_step push_back_all
  step_pushes_all ts = elim (Bool-cases (leb (length xs + length ts) q.capacity_sub)) [
    | inl room ↦
        let r = store_all_lem q xs ts v h (ground arith) in
        follows (pushes_all ts) (answer true) r.0 (xs ++ ts)
          (rw (no_room-lem (length ts), room, r.1, step)) (rw (room, fifo_step)) r.2.0 r.2.1 r.2.2
    | inr full ↦
        follows (pushes_all ts) (answer false) q xs (rw (no_room-lem (length ts), full, step))
          (rw (full, fifo_step)) v h refl
  ]

  step_sizes : Follows q xs sizes
  unfolding step fifo_step
  step_sizes = follows sizes (count (length xs)) q xs (rw h.count) refl v h refl

  step_empties : Follows q xs empties
  unfolding step fifo_step empty
  step_empties =
      follows empties (answer (length xs == 0)) q xs (ground (arith, size_zero q v, h.count)) refl v
        h refl

module _ {A : Type 0} (q : LoopQueue A) (v : IsValid q) where
  -- The three reads, by what the queue holds.
  step_pops : (xs : List A) → Holds q xs → Follows q xs pops
  unfolding step fifo_step pop_front
  step_pops [] h =
      follows q [] v h pops (item none) q [] (ground (arith, size_zero q v, h.count)) refl v h refl
  step_pops (x ∷ xs) h =
      follows q (x ∷ xs) v h pops (item (some x)) (taken q v) xs
        (ground (arith, size_zero q v, h.count, h.window.0, next-ahead q v q.end_ v.end_in)) refl
        (taken-IsValid q v) (taken-Holds q v x xs h) refl

  step_drops : (xs : List A) → Holds q xs → Follows q xs drops
  unfolding step fifo_step drop_front
  step_drops [] h =
      follows q [] v h drops (answer false) q [] (ground (arith, size_zero q v, h.count)) refl v h
        refl
  step_drops (x ∷ xs) h =
      follows q (x ∷ xs) v h drops (answer true) (taken q v) xs
        (ground (arith, size_zero q v, h.count, next-ahead q v q.end_ v.end_in)) (ground arith)
        (taken-IsValid q v) (taken-Holds q v x xs h) refl

  step_fronts : (xs : List A) → Holds q xs → Follows q xs fronts
  unfolding step fifo_step get_front
  step_fronts [] h =
      follows q [] v h fronts (item none) q [] (ground (arith, size_zero q v, h.count)) refl v h
        refl
  step_fronts (x ∷ xs) h =
      follows q (x ∷ xs) v h fronts (item (some x)) q (x ∷ xs)
        (ground (arith, size_zero q v, h.count, h.window.0)) refl v h refl

module _ {A : Type 0} where
  -- A call on a valid ring that holds a list does not fault; it replies as the same call on the
  -- list, and leaves a valid ring of the same capacity that holds what the list became.
  pub step_refines :
      (q : LoopQueue A) (xs : List A) (c : Call A) → IsValid q → Holds q xs → Follows q xs c
  step_refines q xs (pushes t) v h = step_pushes q xs v h t
  step_refines q xs (pushes_at t) v h = step_pushes_at q xs v h t
  step_refines q xs (pushes_only t) v h = step_pushes_only q xs v h t
  step_refines q xs (pushes_all ts) v h = step_pushes_all q xs v h ts
  step_refines q xs pops v h = step_pops q v xs h
  step_refines q xs drops v h = step_drops q v xs h
  step_refines q xs fronts v h = step_fronts q v xs h
  step_refines q xs sizes v h = step_sizes q xs v h
  step_refines q xs empties v h = step_empties q xs v h

  -- No sequence of calls tells a valid ring from the list that it holds.
  run-fifo_run :
      (q : LoopQueue A) (xs : List A) (cs : List (Call A))
      → IsValid q
      → Holds q xs
      → run q cs ≡ some (fifo_run q.capacity_sub xs cs)
  unfolding run fifo_run
  run-fifo_run q xs [] v h = refl
  run-fifo_run q xs (c ∷ cs) v h =
      let f = step_refines q xs c v h in
      let rest = run-fifo_run f.after (fifo_step q.capacity_sub xs c).1 cs f.valid f.holds in
      rw (f.replied, run) (rw (rest, f.same))

  pub init-Holds :
      (n : ℕ) (block : List A) (q : LoopQueue A)
      → 1 ≤ n
      → length block ≡ n + 1
      → init n block ≡ some q
      → IsValid q × Holds q [] × (q.capacity_sub ≡ n)
  unfolding init size
  init-Holds n block q lo e made = (
    record {
      slots = ground arith;
      sub = ground arith;
      some_room = ground arith;
      small = ground arith;
      begin_in = ground arith;
      end_in = ground arith;
    },
    record { count = ground arith; window = tt },
    ground arith,
  )

  -- A queue made for between 1 and 9999 elements, over whatever block `malloc` returned, answers
  -- every sequence of calls as a first-in first-out list of at most that many elements does, and
  -- no call reads or writes past the block.
  pub run-init :
      (n : ℕ) (block : List A) (cs : List (Call A)) (q : LoopQueue A)
      → 1 ≤ n
      → length block ≡ n + 1
      → init n block ≡ some q
      → run q cs ≡ some (fifo_run n [] cs)
  run-init n block cs q lo e made =
      let i = init-Holds n block q lo e made in
      run-fifo_run q [] cs i.0 i.1 ∙ ap (λ k. some (fifo_run k [] cs)) i.2

  -- A queue made for 0 elements accepts every element and stays as empty as it was.
  push_back-init_zero :
      (slot t : A) (q : LoopQueue A)
      → init 0 (slot ∷ []) ≡ some q
      → (r : LoopQueue A) × (push_back q t
          ≡ some (record { queue = r; done = true; was_empty = true }))
        × (size r ≡ 0)
        × (pop_front r ≡ some (none, r))
  unfolding init push_back size pop_front is_full store set? next
  push_back-init_zero slot t q made =
      (record q { p = t ∷ [] }, ground arith, ground arith, ground arith)
