-- ===== src/LoopQueue/Fifo.antt =====
-- The first-in first-out list that a `LoopQueue` is used as, and a client's calls on either.
use tarsx.Prelude.{
  ℕ, ◌+◌, ◌≡◌, Bool, true, false, Option, none, some, List, [], ◌∷◌, ◌++◌, ltb, leb, ◌==◌,
  if◌then◌else◌, length,
}
use tarsx.LoopQueue.{
  LoopQueue, size, empty, push_back, push_back_at, push_back_only, push_back_all, get_front,
  drop_front, pop_front,
}
use tarsx.LoopQueue.Inv.{IsValid, Holds}

-- The calls of a client.
pub data Call (A : Type 0) : Type 0 where
  pushes pushes_at pushes_only : A → Call A
  pushes_all : List A → Call A
  pops drops fronts sizes empties : Call A

-- What a client sees of a call. The positions that `push_back_at` returns are left out.
pub data Reply (A : Type 0) : Type 0 where
  pushed : Bool → Bool → Reply A
  item : Option A → Reply A
  answer : Bool → Reply A
  count : ℕ → Reply A

module _ {A : Type 0} where
  -- The first-in first-out list of at most `n` elements.
  unfoldable pub fifo_push : ℕ → List A → A → Bool × Bool × List A
  fifo_push n xs t =
      if ltb (length xs) n then (true, length xs == 0, xs ++ t ∷ []) else (false, false, xs)

  unfoldable pub fifo_pop : List A → Option A × List A
  fifo_pop [] = (none, [])
  fifo_pop (x ∷ xs) = (some x, xs)

  unfoldable pub fifo_step : ℕ → List A → Call A → Reply A × List A
  unfolding fifo_push fifo_pop
  fifo_step n xs (pushes t) = let (d, e, ys) = fifo_push n xs t in (pushed d e, ys)
  fifo_step n xs (pushes_at t) = let (d, e, ys) = fifo_push n xs t in (pushed d e, ys)
  fifo_step n xs (pushes_only t) = let (d, e, ys) = fifo_push n xs t in (answer d, ys)
  fifo_step n xs (pushes_all ts) =
      if leb (length xs + length ts) n then (answer true, xs ++ ts) else (answer false, xs)
  fifo_step n xs pops = let (o, ys) = fifo_pop xs in (item o, ys)
  fifo_step n xs drops = let (o, ys) = fifo_pop xs in (answer (ltb 0 (length xs)), ys)
  fifo_step n xs fronts = (item (fifo_pop xs).0, xs)
  fifo_step n xs sizes = (count (length xs), xs)
  fifo_step n xs empties = (answer (length xs == 0), xs)

  unfoldable pub fifo_run : ℕ → List A → List (Call A) → List (Reply A)
  fifo_run n xs [] = []
  fifo_run n xs (c ∷ cs) = (fifo_step n xs c).0 ∷ fifo_run n (fifo_step n xs c).1 cs

  -- The same call made on the ring; `none` is a fault.
  unfoldable pub step : LoopQueue A → Call A → Option (Reply A × LoopQueue A)
  step q (pushes t) = elim (push_back q t) [
    | none ↦ none
    | some r ↦ some (pushed r.done r.was_empty, r.queue)
  ]
  step q (pushes_at t) = elim (push_back_at q t) [
    | none ↦ none
    | some r ↦ some (pushed r.pushed.done r.pushed.was_empty, r.pushed.queue)
  ]
  step q (pushes_only t) = elim (push_back_only q t) [
    | none ↦ none
    | some (d, r) ↦ some (answer d, r)
  ]
  step q (pushes_all ts) = elim (push_back_all q ts) [
    | none ↦ none
    | some (d, r) ↦ some (answer d, r)
  ]
  step q pops = elim (pop_front q) [ none ↦ none | some (o, r) ↦ some (item o, r) ]
  step q drops = let (d, r) = drop_front q in some (answer d, r)
  step q fronts = elim (get_front q) [ none ↦ none | some o ↦ some (item o, q) ]
  step q sizes = some (count (size q), q)
  step q empties = some (answer (empty q), q)

  unfoldable pub run : LoopQueue A → List (Call A) → Option (List (Reply A))
  run q [] = some []
  run q (c ∷ cs) = elim (step q c) [
    | none ↦ none
    | some (a, r) ↦ elim (run r cs) [ none ↦ none | some rest ↦ some (a ∷ rest) ]
  ]

  -- The ring after a call, beside the list after it.
  pub record Follows (q : LoopQueue A) (xs : List A) (c : Call A) : Type 0 where
    pub after : LoopQueue A
    pub replied : step q c ≡ some ((fifo_step q.capacity_sub xs c).0, after)
    pub valid : IsValid after
    pub holds : Holds after (fifo_step q.capacity_sub xs c).1
    pub same : after.capacity_sub ≡ q.capacity_sub
