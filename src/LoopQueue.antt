-- ===== src/LoopQueue.antt =====
-- tarsx/LoopQueue.hpp: the ring of `capacity_` slots that carries requests between threads.
-- `begin_` is where the next element is written and `end_` where the oldest one is read.
-- `uint32_t` differences keep their wrap-around; in the bulk `push_back` the vector's size makes the
-- difference a `size_t` one. `memcpy` past the allocated block is the fault `none` (`set?`).
pub mod Inv
pub mod Bulk
pub mod Fifo
pub mod Refine
pub mod Uses
pub mod Tests
use tarsx.Prelude.{
  ℕ, ◌+◌, ◌-◌, ◌%◌, ◌^◌, Bool, true, false, ◌&&◌, ◌||◌, Option, none, some, List, [], ◌∷◌, ltb,
  ◌==◌, if◌then◌else◌, sub32, sub64, length, get_elem?, set,
}

-- `p_` points at `capacity_` slots.
pub record LoopQueue (A : Type 0) : Type 0 where
  pub p : List A
  pub capacity : ℕ
  pub capacity_sub : ℕ
  pub begin_ : ℕ
  pub end_ : ℕ

-- What `push_back` returns: whether it stored the element, and `empty`.
pub record Pushed (A : Type 0) : Type 0 where
  pub queue : LoopQueue A
  pub done : Bool
  pub was_empty : Bool

-- What `push_back` with the two positions returns beside.
pub record PushedAt (A : Type 0) : Type 0 where
  pub pushed : Pushed A
  pub begin_at : ℕ
  pub end_at : ℕ

module _ {A : Type 0} where
  -- The constructor, over the block that `malloc` returned: `assert(size < 10000)` is the fault.
  unfoldable pub init : ℕ → List A → Option (LoopQueue A)
  init size block =
      if ltb size 10000
      then some (record {
        p = block;
        capacity = (size + 1) % 2 ^ 32;
        capacity_sub = size;
        begin_ = 0;
        end_ = 0;
      })
      else none

  -- `memcpy(p_ + i, &t, sizeof(T))`.
  pub set? : List A → ℕ → A → Option (List A)
  set? xs i v = if ltb i (length xs) then some (set xs i v) else none

  -- `begin_ = begin_ == capacitySub_ ? 0 : begin_ + 1`, and the same for `end_`.
  pub next : LoopQueue A → ℕ → ℕ
  next q i = if i == q.capacity_sub then 0 else (i + 1) % 2 ^ 32

  pub size : LoopQueue A → ℕ
  size q =
      if ltb q.begin_ q.end_
      then sub32 ((q.begin_ + q.capacity) % 2 ^ 32) q.end_
      else sub32 q.begin_ q.end_

  pub empty : LoopQueue A → Bool
  empty q = q.end_ == q.begin_

  pub capacity : LoopQueue A → ℕ
  capacity q = q.capacity

  -- The test that refuses one more element.
  pub is_full : LoopQueue A → Bool
  is_full q =
      (ltb q.begin_ q.end_ && ltb (sub32 q.end_ q.begin_) 2)
      || (ltb q.end_ q.begin_ && ltb (sub32 q.capacity 2) (sub32 q.begin_ q.end_))

  -- `memcpy` at `begin_`, and `begin_` moved on.
  pub store : LoopQueue A → A → Option (LoopQueue A)
  unfolding set? next
  store q t = elim (set? q.p q.begin_ t) [
    | none ↦ none
    | some p ↦ some (record q { p = p; begin_ = next q q.begin_ })
  ]

  -- `push_back(const T&, bool& empty)`.
  pub push_back : LoopQueue A → A → Option (Pushed A)
  push_back q t =
      if is_full q
      then some (record { queue = q; done = false; was_empty = false })
      else elim (store q t) [
        | none ↦ none
        | some r ↦ some (record {
          queue = r;
          done = true;
          was_empty = if q.end_ == q.begin_ then true else if size r == 1 then true else false;
        })
      ]

  -- `push_back(const T&, bool& empty, uint32_t& begin, uint32_t& end)`. Its `empty == true;` after
  -- the second test is a comparison, so that branch leaves `empty` as it is.
  pub push_back_at : LoopQueue A → A → Option (PushedAt A)
  push_back_at q t =
      if is_full q
      then some (record {
        pushed = record { queue = q; done = false; was_empty = false };
        begin_at = q.begin_;
        end_at = q.end_;
      })
      else elim (store q t) [
        | none ↦ none
        | some r ↦ some (record {
          pushed = record { queue = r; done = true; was_empty = q.end_ == q.begin_ };
          begin_at = q.begin_;
          end_at = q.end_;
        })
      ]

  -- `push_back(const T&)`.
  pub push_back_only : LoopQueue A → A → Option (Bool × LoopQueue A)
  push_back_only q t = elim (push_back q t) [ none ↦ none | some r ↦ some (r.done, r.queue) ]

  pub store_all : LoopQueue A → List A → Option (LoopQueue A)
  store_all q [] = some q
  store_all q (t ∷ ts) = elim (store q t) [ none ↦ none | some r ↦ store_all r ts ]

  -- The test that refuses `n` more elements.
  pub no_room : LoopQueue A → ℕ → Bool
  no_room q n =
      ltb (sub32 q.capacity 1) n
      || (ltb q.begin_ q.end_ && ltb (sub32 q.end_ q.begin_) ((n + 1) % 2 ^ 64))
      || (ltb q.end_ q.begin_ && ltb (sub64 (sub64 q.capacity n) 1) (sub32 q.begin_ q.end_))

  -- `push_back(const std::vector<T>&)`: all of the elements or none.
  pub push_back_all : LoopQueue A → List A → Option (Bool × LoopQueue A)
  push_back_all q ts =
      if no_room q (length ts)
      then some (false, q)
      else elim (store_all q ts) [ none ↦ none | some r ↦ some (true, r) ]

  -- `get_front(T&)`: `none` inside is the answer `false`; a read past the block is the fault.
  pub get_front : LoopQueue A → Option (Option A)
  get_front q =
      if q.end_ == q.begin_
      then some none
      else elim (get_elem? q.p q.end_) [ none ↦ none | some t ↦ some (some t) ]

  -- `pop_front()`.
  pub drop_front : LoopQueue A → Bool × LoopQueue A
  unfolding next
  drop_front q =
      if q.end_ == q.begin_ then (false, q) else (true, record q { end_ = next q q.end_ })

  -- `pop_front(T&)`.
  pub pop_front : LoopQueue A → Option (Option A × LoopQueue A)
  unfolding next
  pop_front q = if q.end_ == q.begin_ then some (none, q) else elim (get_elem? q.p q.end_) [
    | none ↦ none
    | some t ↦ some (some t, record q { end_ = next q q.end_ })
  ]
