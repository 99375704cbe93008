-- ===== src/LoopQueue/Inv.antt =====
-- The representation of a `LoopQueue` as the list of its elements, oldest first, and the arithmetic
-- of its two indices.
use tarsx.Prelude.{
  ℕ, suc, ◌+◌, ◌-◌, ◌≤◌, ◌<◌, ◌≡◌, sym, ap, ◌∙◌, ◌≢◌, true, false, some, List, [], ◌∷◌, ◌++◌, arith,
  leb, if◌then◌else◌, length, get_elem?, set, length-set, length-append, get_elem?-set_self,
  get_elem?-set_ne,
}
use tarsx.LoopQueue.{LoopQueue, set?, next, size, is_full, store}

-- A queue made for one element or more: the block has `capacity_` slots and both indices are in it.
pub record IsValid {A : Type 0} (q : LoopQueue A) : Type 0 where
  pub slots : length q.p ≡ q.capacity
  pub sub : q.capacity ≡ q.capacity_sub + 1
  pub some_room : 1 ≤ q.capacity_sub
  pub small : q.capacity_sub < 10000
  pub begin_in : q.begin_ ≤ q.capacity_sub
  pub end_in : q.end_ ≤ q.capacity_sub

-- The slot `n` steps after slot `h`, for a last slot `last`.
abbrev pub ahead : ℕ → ℕ → ℕ → ℕ
ahead last h n = if leb (h + n) last then h + n else h + n - (last + 1)

-- The slots from `h` on hold the elements of the list.
abbrev pub Window : {A : Type 0} → List A → ℕ → ℕ → List A → Type 0
Window p last h [] = Unit
Window p last h (x ∷ xs) = (get_elem? p h ≡ some x) × Window p last (ahead last h 1) xs

-- The elements of the queue, oldest first.
pub record Holds {A : Type 0} (q : LoopQueue A) (xs : List A) : Type 0 where
  pub count : size q ≡ length xs
  pub window : Window q.p q.capacity_sub q.end_ xs

module _ {A : Type 0} (q : LoopQueue A) (v : IsValid q) where
  pub size-le : size q ≤ q.capacity_sub
  unfolding size
  size-le = ground arith

  -- `begin_` is `size` slots ahead of `end_`.
  pub begin-ahead : q.begin_ ≡ ahead q.capacity_sub q.end_ (size q)
  unfolding size
  begin-ahead = ground arith

  pub next-ahead : (i : ℕ) → i ≤ q.capacity_sub → next q i ≡ ahead q.capacity_sub i 1
  unfolding next
  next-ahead i h = ground arith

  -- The refusing test is that `capacity_ - 1` elements are there.
  pub is_full_iff :
      (is_full q ≡ true → size q ≡ q.capacity_sub) × (is_full q ≡ false → size q < q.capacity_sub)
  unfolding is_full size
  is_full_iff = ground arith

  pub size_zero : (q.end_ ≡ q.begin_ → size q ≡ 0) × (size q ≡ 0 → q.end_ ≡ q.begin_)
  unfolding size
  size_zero = ground arith

ahead-ne : (last h n : ℕ) → h ≤ last → suc n ≤ last → ahead last h (suc n) ≢ h
ahead-ne last h n hh hn = ground arith

ahead-suc :
    (last h n : ℕ) → h ≤ last → n < last → ahead last (ahead last h 1) n ≡ ahead last h (suc n)
ahead-suc last h n hh hn = ground arith

module _ {A : Type 0} (p : List A) (last : ℕ) (slots : length p ≡ last + 1) (t : A) where
  -- Writing just past a window extends it by the element written.
  pub Window-set :
      (xs : List A) (h i : ℕ)
      → h ≤ last
      → length xs < last + 1
      → i ≡ ahead last h (length xs)
      → Window p last h xs
      → Window (set p i t) last h (xs ++ t ∷ [])
  Window-set [] h i hh hn e w =
      (rw e (rw (start h hh) (get_elem?-set_self p h t (omega arith))), tt)
    where
      start : (h : ℕ) → h ≤ last → ahead last h 0 ≡ h
      start h hh = ground arith
  Window-set (x ∷ xs) h i hh hn e w = (
    get_elem?-set_ne p t (rw e (ahead-ne last h (length xs) hh (omega arith))) ∙ w.0,
    Window-set xs (ahead last h 1) i (ground arith) (omega arith)
        (e ∙ sym (ahead-suc last h (length xs) hh (omega arith))) w.1,
  )

module _ {A : Type 0} (q : LoopQueue A) (v : IsValid q) (t : A) where
  -- What `store` leaves in a queue.
  abbrev pub stored : LoopQueue A
  stored = record q { p = set q.p q.begin_ t; begin_ = ahead q.capacity_sub q.begin_ 1 }

  -- `begin_` is inside the block, so `memcpy` does not write past it.
  pub store_lem : store q t ≡ some stored
  unfolding store set? next
  store_lem = ground arith

  pub stored-IsValid : IsValid stored
  stored-IsValid = ground (arith, length-set q.p q.begin_ t)

  pub size-stored : size q < q.capacity_sub → size stored ≡ size q + 1
  unfolding size
  size-stored h = ground arith

  pub stored-Holds :
      (xs : List A) → Holds q xs → size q < q.capacity_sub → Holds stored (xs ++ t ∷ [])
  stored-Holds xs h room = record {
    count = omega (arith, size-stored room, h.count, length-append xs (t ∷ []));
    window =
        Window-set q.p q.capacity_sub (omega arith) t xs q.end_ q.begin_ v.end_in
          (omega (arith, h.count)) (begin-ahead q v ∙ ap (ahead q.capacity_sub q.end_) h.count)
          h.window;
  }

module _ {A : Type 0} (q : LoopQueue A) (v : IsValid q) where
  -- What taking the oldest element leaves in a queue.
  abbrev pub taken : LoopQueue A
  taken = record q { end_ = ahead q.capacity_sub q.end_ 1 }

  pub taken-IsValid : IsValid taken
  taken-IsValid = ground arith

  pub size-taken : size q ≢ 0 → size taken + 1 ≡ size q
  unfolding size
  size-taken h = ground arith

  pub taken-Holds : (x : A) (xs : List A) → Holds q (x ∷ xs) → Holds taken xs
  taken-Holds x xs h = record {
    count = omega (arith, size-taken (omega (arith, h.count)), h.count);
    window = h.window.1;
  }
