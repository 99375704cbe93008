-- ===== src/TimeoutQueueNew/Timeout.antt =====
-- What a `timeout` takes out.
use tarsx.Prelude.{
  ℕ, zero, suc, ◌<◌, ◌≡◌, ◌⊎◌, refl, subst, sym, ap, ◌∙◌, inl, inr, Bool, true, false, Option, none,
  some, List, [], ◌∷◌, ◌==◌, arith, ltb, if◌then◌else◌, Bool-cases, ℕ_discrete, length,
}
use tarsx.Prelude.Multimap.{Above}
use tarsx.TimeoutQueueNew.{
  erase_by, PtrInfo, find, TimeoutQueueNew, data_key, time_key, unlink, expire_one, timeout_loop,
}
use tarsx.TimeoutQueueNew.Inv.{
  count_by, Linked, find-erase_ne, unlink-Linked, find-none, found_of_count,
}

-- Whether an id has a deadline later than now.
abbrev pub later : ℕ → ℕ → List (ℕ × ℕ) → Bool
later now id [] = false
later now id ((t, i) ∷ xs) =
    if id == i then (if ltb now t then true else later now id xs) else later now id xs

later_all :
    (now id n : ℕ) (xs : List (ℕ × ℕ))
    → now < n
    → Above n xs
    → later now id xs ≡ false
    → count_by time_key id xs ≡ 0
later_all now id n [] h a e = refl
later_all now id n ((t, i) ∷ xs) h a e = ground (arith, later_all now id t xs)

later_none :
    (now id : ℕ) (xs : List (ℕ × ℕ)) → count_by time_key id xs ≡ 0 → later now id xs ≡ false
later_none now id [] h = refl
later_none now id ((t, i) ∷ xs) h = ground (arith, later_none now id xs)

time_cases :
    (xs : List (ℕ × ℕ)) → (xs ≡ []) ⊎ ((t : ℕ) × (i : ℕ) × (ys : List (ℕ × ℕ)) × (xs ≡ (t, i) ∷ ys))
time_cases [] = inl refl
time_cases ((t, i) ∷ xs) = inr (t, i, xs, refl)

count_head :
    (t i : ℕ) (xs : List (ℕ × ℕ)) → count_by time_key i ((t, i) ∷ xs) ≡ suc (count_by time_key i xs)
count_head t i xs = ground arith

module _ {T : Type 0} where
  -- A run of `timeout` at a time of day: what is left.
  pub record Expired (now : ℕ) (q : TimeoutQueueNew T) (o : Option (TimeoutQueueNew T))
      : Type 0 where
    pub after : TimeoutQueueNew T
    pub returned : o ≡ some after
    pub linked : Linked after
    -- No deadline that is left has passed.
    pub left : Above (suc now) after.time_
    -- An entry stays, as it was, just where its deadline is later.
    pub stays :
        (id : ℕ) → find id after.data_ ≡ (if later now id q.time_ then find id q.data_ else none)

  stop :
      (fuel now : ℕ) (q : TimeoutQueueNew T)
      → expire_one now q ≡ some (none, q)
      → timeout_loop (suc fuel) now q ≡ some q
  unfolding timeout_loop
  stop fuel now q e = rw e

  go_on :
      (fuel now : ℕ) (q r : TimeoutQueueNew T) (t : T)
      → expire_one now q ≡ some (some t, r)
      → timeout_loop (suc fuel) now q ≡ timeout_loop fuel now r
  unfolding timeout_loop
  go_on fuel now q r t e = rw e

  expire_none : (now : ℕ) (q : TimeoutQueueNew T) → q.time_ ≡ [] → expire_one now q ≡ some (none, q)
  unfolding expire_one
  expire_none now q e = rw e

  expire_later :
      (now t i : ℕ) (xs : List (ℕ × ℕ)) (q : TimeoutQueueNew T)
      → q.time_ ≡ (t, i) ∷ xs
      → ltb now t ≡ true
      → expire_one now q ≡ some (none, q)
  unfolding expire_one
  expire_later now t i xs q e l = rw (e, l)

  expire_due :
      (now t i : ℕ) (xs : List (ℕ × ℕ)) (p : PtrInfo T) (q : TimeoutQueueNew T)
      → q.time_ ≡ (t, i) ∷ xs
      → ltb now t ≡ false
      → find i q.data_ ≡ some p
      → expire_one now q ≡ some (some p.ptr, unlink i p q)
  unfolding expire_one
  expire_due now t i xs p q e l f = rw (e, l, f)

  stopped :
      (fuel now : ℕ) (q : TimeoutQueueNew T)
      → Linked q
      → Above (suc now) q.time_
      → expire_one now q ≡ some (none, q)
      → Expired now q (timeout_loop (suc fuel) now q)
  stopped fuel now q v a e = record {
    after = q;
    returned = stop fuel now q e;
    linked = v;
    left = a;
    stays = λ id. elim (Bool-cases (later now id q.time_)) [
      | inl here ↦ ap (λ b. if b then find id q.data_ else none) (sym here)
      | inr not_here ↦
          find-none id q.data_
            (sym (v.timed id) ∙ later_all now id (suc now) q.time_ (omega arith) a not_here)
          ∙ ap (λ b. if b then find id q.data_ else none) (sym not_here)
    ];
  }

  gone :
      (t i : ℕ) (xs : List (ℕ × ℕ)) (p : PtrInfo T) (q : TimeoutQueueNew T)
      → q.time_ ≡ (t, i) ∷ xs
      → (unlink i p q).time_ ≡ xs
  unfolding unlink
  gone t i xs p q e = ap (erase_by time_key i) e ∙ erase_head
    where
      erase_head : erase_by time_key i ((t, i) ∷ xs) ≡ xs
      erase_head = unfold erase_by in ground arith

  stays_lem :
      (now t i id : ℕ) (xs : List (ℕ × ℕ)) (p : PtrInfo T) (q : TimeoutQueueNew T)
      → Linked q
      → q.time_ ≡ (t, i) ∷ xs
      → ltb now t ≡ false
      → (if later now id (unlink i p q).time_ then find id (unlink i p q).data_ else none)
        ≡ (if later now id q.time_ then find id q.data_ else none)
  stays_lem now t i id xs p q v e l =
      ap (λ ys. if later now id ys then find id (unlink i p q).data_ else none) (gone t i xs p q e)
      ∙ both
      ∙ ap (λ ys. if later now id ys then find id q.data_ else none) (sym e)
    where
      once_only : count_by time_key i xs ≡ 0
      once_only = omega (arith, v.timed i, v.once i, ap (count_by time_key i) e, count_head t i xs)

      both :
          (if later now id xs then find id (unlink i p q).data_ else none)
          ≡ (if later now id ((t, i) ∷ xs) then find id q.data_ else none)
      both =
          unfold unlink in
          elim (ℕ_discrete id i) [
            | yes same ↦ ground (
              arith,
              later_none now id xs (ap (λ k. count_by time_key k xs) same ∙ once_only),
              l,
              same,
            )
            | no other ↦ ground (arith, find-erase_ne i id q.data_ other, l)
          ]

  -- `timeout` ends, reads no entry that is gone, keeps the containers linked, and takes out exactly
  -- the entries whose deadline is not later than the time of day.
  pub timeout_loop_lem :
      (fuel now : ℕ) (q : TimeoutQueueNew T)
      → Linked q
      → length q.time_ < fuel
      → Expired now q (timeout_loop fuel now q)
  timeout_loop_lem zero now q v h = absurd (omega arith)
  timeout_loop_lem (suc fuel) now q v h = elim (time_cases q.time_) [
    | inl e ↦ stopped fuel now q v (subst (Above (suc now)) (sym e) tt) (expire_none now q e)
    | inr (t, i, xs, e) ↦ elim (Bool-cases (ltb now t)) [
      | inl l ↦ stopped fuel now q v (above t i xs e l) (expire_later now t i xs q e l)
      | inr l ↦
          let (p, f) = found_of_count i q.data_ (present t i xs e) in
          let r = unlink i p q in
          let g =
            timeout_loop_lem fuel now r (unlink-Linked i p q v f)
              (omega (arith, h, ap length e, ap length (gone t i xs p q e))) in
          record {
            after = g.after;
            returned = go_on fuel now q r p.ptr (expire_due now t i xs p q e l f) ∙ g.returned;
            linked = g.linked;
            left = g.left;
            stays = λ id. g.stays id ∙ stays_lem now t i id xs p q v e l;
          }
    ]
  ]
    where
      above :
          (t i : ℕ) (xs : List (ℕ × ℕ))
          → q.time_ ≡ (t, i) ∷ xs
          → ltb now t ≡ true
          → Above (suc now) q.time_
      above t i xs e l =
          subst (Above (suc now)) (sym e) (ground (arith, (subst (Above 0) e v.sorted).1))

      present :
          (t i : ℕ) (xs : List (ℕ × ℕ)) → q.time_ ≡ (t, i) ∷ xs → 0 < count_by data_key i q.data_
      present t i xs e = omega (arith, v.timed i, ap (count_by time_key i) e, count_head t i xs)
