-- ===== src/ThreadDeque/Laws.antt =====
-- The calls against those of a list, and the count of the elements.
use tarsx.Prelude.{
  ℕ, suc, ◌+◌, ◌^◌, ◌<◌, ◌≡◌, refl, sym, ap, ap₂, ◌∙◌, Bool, true, false, Option, none, some, List,
  [], ◌∷◌, ◌++◌, append_assoc, append-nil, length, length-append, arith, if◌then◌else◌, Bool-cases,
  inl, inr, add64, sub64, ltb, ◌>>=◌, ◌==◌,
}
use tarsx.ThreadDeque.{
  ThreadDeque, is_empty, empty, size, clear, push_back, push_back_all, push_front, push_front_all,
  wait, pop_front, swap,
}

-- The count is the number of elements.
abbrev pub Sized : {T : Type 0} → ThreadDeque T → Type 0
Sized q = q.size_ ≡ length q.deque_

abbrev pub reverse_onto : {T : Type 0} → List T → List T → List T
reverse_onto [] ys = ys
reverse_onto (x ∷ xs) ys = reverse_onto xs (x ∷ ys)

-- The calls of a client, with what the other threads do to the elements in a wait.
pub data Call (T : Type 0) : Type 0 where
  pushes fronts : T → Call T
  pushes_all fronts_all : List T → Call T
  swaps : ℕ → (List T → List T) → List T → Call T
  pops : ℕ → (List T → List T) → Call T
  clears sizes empties : Call T

pub data Reply (T : Type 0) : Type 0 where
  done : Reply T
  item : Option T → Reply T
  number : ℕ → Reply T
  answer : Bool → Reply T
  swapped : Bool → List T → Reply T

sum : (n : ℕ) → n + 1 < 2 ^ 64 → add64 n 1 ≡ n + 1
sum n h = omega arith

module _ {T : Type 0} where
  -- The deque of a list, with the right count.
  abbrev pub of_list : List T → ThreadDeque T
  of_list xs = record { deque_ = xs; size_ = length xs }

  abbrev lifted : (List T → List T) → ThreadDeque T → ThreadDeque T
  lifted f q = of_list (f q.deque_)

  unfoldable pub step : ThreadDeque T → Call T → Option (Reply T × ThreadDeque T)
  step q (pushes t) = some (done, push_back t q)
  step q (fronts t) = some (done, push_front t q)
  step q (pushes_all ts) = some (done, push_back_all ts q)
  step q (fronts_all ts) = some (done, push_front_all ts q)
  step q (swaps ms f xs) = let (b, ys, r) = swap ms (lifted f) xs q in some (swapped b ys, r)
  step q (pops ms f) = do (t, r) ← pop_front ms (lifted f) q; some (item t, r)
  step q clears = some (done, clear q)
  step q sizes = some (number (size q), q)
  step q empties = some (answer (empty q), q)

  -- The same calls on the list of the elements.
  unfoldable pub list_step : List T → Call T → Reply T × List T
  list_step xs (pushes t) = (done, xs ++ t ∷ [])
  list_step xs (fronts t) = (done, t ∷ xs)
  list_step xs (pushes_all ts) = (done, xs ++ ts)
  list_step xs (fronts_all ts) = (done, reverse_onto ts xs)
  list_step [] (swaps ms f ys) = (swapped false ys, if ms == 0 then [] else f [])
  list_step (x ∷ xs) (swaps ms f ys) = (swapped true (x ∷ xs), ys)
  list_step [] (pops ms f) = (item none, if ms == 0 then [] else f [])
  list_step (x ∷ xs) (pops ms f) = (item (some x), xs)
  list_step xs clears = (done, [])
  list_step xs sizes = (number (length xs), xs)
  list_step [] empties = (answer true, [])
  list_step (x ∷ xs) empties = (answer false, x ∷ xs)

  -- How many elements a call brings.
  abbrev pub brings : Call T → ℕ
  brings (pushes t) = 1
  brings (fronts t) = 1
  brings (pushes_all ts) = length ts
  brings (fronts_all ts) = length ts
  brings _ = 0

  push_back_all_lem :
      (ts xs : List T) (n : ℕ)
      → n ≡ length xs
      → n + length ts < 2 ^ 64
      → push_back_all ts (record { deque_ = xs; size_ = n })
        ≡ record { deque_ = xs ++ ts; size_ = n + length ts }
  unfolding push_back_all push_back
  push_back_all_lem [] xs n e h =
      ap₂ (λ ys m. record { deque_ = ys; size_ = m }) (sym (append-nil xs)) (omega arith)
  push_back_all_lem (t ∷ ts) xs n e h =
      ap (λ m. push_back_all ts (record { deque_ = xs ++ t ∷ []; size_ = m })) (sum n (omega arith))
      ∙ push_back_all_lem ts (xs ++ t ∷ []) (n + 1) (omega (arith, length-append xs (t ∷ [])))
          (omega arith)
      ∙ ap₂ (λ ys m. record { deque_ = ys; size_ = m }) (append_assoc xs (t ∷ []) ts) (omega arith)

  push_front_all_lem :
      (ts xs : List T) (n : ℕ)
      → n + length ts < 2 ^ 64
      → push_front_all ts (record { deque_ = xs; size_ = n })
        ≡ record { deque_ = reverse_onto ts xs; size_ = n + length ts }
  unfolding push_front_all push_front
  push_front_all_lem [] xs n h = ap (λ m. record { deque_ = xs; size_ = m }) (omega arith)
  push_front_all_lem (t ∷ ts) xs n h =
      ap (λ m. push_front_all ts (record { deque_ = t ∷ xs; size_ = m })) (sum n (omega arith))
      ∙ push_front_all_lem ts (t ∷ xs) (n + 1) (omega arith)
      ∙ ap (λ m. record { deque_ = reverse_onto ts (t ∷ xs); size_ = m }) (omega arith)

  length-reverse_onto : (xs ys : List T) → length (reverse_onto xs ys) ≡ length ys + length xs
  length-reverse_onto [] ys = omega arith
  length-reverse_onto (x ∷ xs) ys = omega (arith, length-reverse_onto xs (x ∷ ys))

  resized : (xs : List T) (n : ℕ) → n ≡ length xs → record { deque_ = xs; size_ = n } ≡ of_list xs
  resized xs n e = ap (λ m. record { deque_ = xs; size_ = m }) e

  wait_lem :
      (ms : ℕ) (f : List T → List T)
      → wait ms (lifted f) (of_list []) ≡ of_list (if ms == 0 then [] else f [])
  unfolding wait
  wait_lem ms f = elim (Bool-cases (ms == 0)) [ inl e ↦ rw e | inr e ↦ rw e ]

  popped :
      (x : T) (xs : List T) (ms : ℕ) (f : List T → List T)
      → suc (length xs) + 0 < 2 ^ 64
      → pop_front ms (lifted f) (of_list (x ∷ xs)) ≡ some (some x, of_list xs)
  unfolding pop_front
  popped x xs ms f h = rw (positive, less)
    where
      positive : ltb 0 (suc (length xs)) ≡ true
      positive = ground arith

      less : sub64 (suc (length xs)) 1 ≡ length xs
      less = omega (arith, h)

  -- A call on a deque whose count is right, with fewer than `2 ^ 64` elements with those that it
  -- brings, fails no assertion, replies as the same call on the list of the elements, and leaves
  -- what the list became, with the right count.
  pub step-list_step :
      (xs : List T) (c : Call T)
      → length xs + brings c < 2 ^ 64
      → step (of_list xs) c ≡ some ((list_step xs c).0, of_list (list_step xs c).1)
  unfolding step list_step
  step-list_step xs (pushes t) h =
      unfold push_back in
      ap (λ m. some (done, record { deque_ = xs ++ t ∷ []; size_ = m }))
        (omega (arith, h, length-append xs (t ∷ [])))
  step-list_step xs (fronts t) h =
      unfold push_front in
      ap (λ m. some (done, record { deque_ = t ∷ xs; size_ = m })) (omega (arith, h))
  step-list_step xs (pushes_all ts) h =
      ap (λ q. some (done, q))
        (push_back_all_lem ts xs (length xs) refl h
          ∙ resized (xs ++ ts) (length xs + length ts) (omega (arith, length-append xs ts)))
  step-list_step xs (fronts_all ts) h =
      ap (λ q. some (done, q))
        (push_front_all_lem ts xs (length xs) h
          ∙ resized (reverse_onto ts xs) (length xs + length ts)
              (omega (arith, length-reverse_onto ts xs)))
  step-list_step [] (swaps ms f ys) h =
      unfold swap in ap (λ q. some (swapped false ys, q)) (wait_lem ms f)
  step-list_step (x ∷ xs) (swaps ms f ys) h = unfold swap in refl
  step-list_step [] (pops ms f) h =
      unfold pop_front in ap (λ q. some (item none, q)) (wait_lem ms f)
  step-list_step (x ∷ xs) (pops ms f) h = rw (popped x xs ms f h)
  step-list_step xs clears h = unfold clear in refl
  step-list_step xs sizes h = unfold size in refl
  step-list_step [] empties h = unfold empty is_empty in refl
  step-list_step (x ∷ xs) empties h = unfold empty is_empty in refl
