-- ===== src/LoopQueue/Bulk.antt =====
-- The loop of `push_back(const std::vector<T>&)` and the test before it.
use tarsx.Prelude.{
  ℕ, ◌+◌, ◌≤◌, ◌<◌, ◌≡◌, refl, ◌∙◌, true, false, some, List, [], ◌∷◌, ◌++◌, append-nil,
  append_assoc, arith, length, length-append,
}
use tarsx.LoopQueue.{LoopQueue, size, no_room, store, store_all}
use tarsx.LoopQueue.Inv.{IsValid, Holds, stored, store_lem, stored-IsValid, stored-Holds}

-- What a queue with room for them holds after elements are stored one by one.
abbrev pub Appended : {A : Type 0} → LoopQueue A → List A → LoopQueue A → Type 0
Appended q ys r = IsValid r × Holds r ys × (r.capacity_sub ≡ q.capacity_sub)

module _ {A : Type 0} where
  -- The test of the bulk `push_back` is that fewer than `n` slots are left.
  pub no_room_iff :
      (q : LoopQueue A) (n : ℕ)
      → IsValid q
      → (no_room q n ≡ true → q.capacity_sub < size q + n)
        × (no_room q n ≡ false → size q + n ≤ q.capacity_sub)
  unfolding no_room size
  no_room_iff q n v = ground arith

  store_all-cons :
      (q r : LoopQueue A) (t : A) (ts : List A)
      → store q t ≡ some r
      → store_all q (t ∷ ts) ≡ store_all r ts
  unfolding store_all
  store_all-cons q r t ts e = rw (e, store_all)

  pub store_all_lem :
      (q : LoopQueue A) (xs ts : List A)
      → IsValid q
      → Holds q xs
      → length xs + length ts ≤ q.capacity_sub
      → (r : LoopQueue A) × (store_all q ts ≡ some r) × Appended q (xs ++ ts) r
  unfolding store_all
  store_all_lem q xs [] v h room = (q, refl, (v, rw append-nil h, refl))
  store_all_lem q xs (t ∷ ts) v h room =
      let rest =
        store_all_lem (stored q v t) (xs ++ t ∷ []) ts (stored-IsValid q v t)
          (stored-Holds q v t xs h (omega (arith, h.count)))
          (omega (arith, h.count, length-append xs (t ∷ []))) in
      (
        rest.0,
        store_all-cons q _ t ts (store_lem q v t) ∙ rest.1,
        (rest.2.0, rw (append_assoc xs (t ∷ []) ts) at rest.2.1, rest.2.2),
      )
