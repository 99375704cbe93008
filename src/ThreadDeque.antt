-- ===== src/ThreadDeque.antt =====
-- tarsx/ThreadDeque.hpp: the deque between threads, with its own count of the elements. Every
-- operation holds the monitor; a wait gives it up, and what the other threads do meanwhile is an
-- argument (`others`). The calls of `notify` change nothing here.
pub mod Laws
mod Tests
use tarsx.Prelude.{
  ℕ, ◌+◌, ◌-◌, ◌==◌, Bool, true, false, Option, none, some, List, [], ◌∷◌, ◌++◌, length,
  if◌then◌else◌, add64, sub64, ltb, ◌>>=◌, ◌>>◌, guard,
}

pub record ThreadDeque (T : Type 0) : Type 0 where
  pub deque_ : List T
  pub size_ : ℕ

module _ {T : Type 0} where
  unfoldable pub construct : ThreadDeque T
  construct = record { deque_ = []; size_ = 0 }

  unfoldable pub is_empty : List T → Bool
  is_empty [] = true
  is_empty (x ∷ xs) = false

  unfoldable pub empty : ThreadDeque T → Bool
  empty q = is_empty q.deque_

  unfoldable pub size : ThreadDeque T → ℕ
  size q = q.size_

  unfoldable pub clear : ThreadDeque T → ThreadDeque T
  clear q = record { deque_ = []; size_ = 0 }

  unfoldable pub push_back : T → ThreadDeque T → ThreadDeque T
  push_back t q = record { deque_ = q.deque_ ++ t ∷ []; size_ = add64 q.size_ 1 }

  -- `push_back(D& deque)`.
  unfoldable pub push_back_all : List T → ThreadDeque T → ThreadDeque T
  push_back_all [] q = q
  push_back_all (t ∷ ts) q = push_back_all ts (push_back t q)

  unfoldable pub push_front : T → ThreadDeque T → ThreadDeque T
  push_front t q = record { deque_ = t ∷ q.deque_; size_ = add64 q.size_ 1 }

  -- `push_front(D& deque)`.
  unfoldable pub push_front_all : List T → ThreadDeque T → ThreadDeque T
  push_front_all [] q = q
  push_front_all (t ∷ ts) q = push_front_all ts (push_front t q)

  -- A wait for so many milliseconds, or without end for `-1`; with 0 there is none. However it ends,
  -- the operation that waited then returns without an element.
  unfoldable pub wait : ℕ → (ThreadDeque T → ThreadDeque T) → ThreadDeque T → ThreadDeque T
  wait millsecond others q = if millsecond == 0 then q else others q

  -- `none` inside is a null pointer.
  unfoldable pub pop_front :
      ℕ → (ThreadDeque T → ThreadDeque T) → ThreadDeque T → Option (Option T × ThreadDeque T)
  pop_front millsecond others q = elim q.deque_ [
    | [] ↦ some (none, wait millsecond others q)
    | t ∷ ts ↦ do
      guard (ltb 0 q.size_)
      some (some t, record { deque_ = ts; size_ = sub64 q.size_ 1 })
  ]

  -- The answer, the caller's deque and the object after `swap`.
  unfoldable pub swap :
      ℕ → (ThreadDeque T → ThreadDeque T) → List T → ThreadDeque T → Bool × List T × ThreadDeque T
  swap millsecond others xs q = elim q.deque_ [
    | [] ↦ (false, xs, wait millsecond others q)
    | t ∷ ts ↦ (true, t ∷ ts, record { deque_ = xs; size_ = length xs })
  ]
