-- ===== src/TimeoutQueueNew/Inv.antt =====
-- How the three containers are linked.
use tarsx.Prelude.{
  ℕ, suc, ◌-◌, ◌≤◌, ◌<◌, ◌≡◌, ◌≢◌, ◌⊎◌, refl, inl, inr, Bool, true, false, Option, none, some, List,
  [], ◌∷◌, ◌==◌, arith, if◌then◌else◌, ℕ_discrete,
}
use tarsx.Prelude.Multimap.{insert, Above, insert-Above, Above-mono}
use tarsx.TimeoutQueueNew.{
  erase_by, PtrInfo, find, TimeoutQueueNew, data_key, time_key, send_key, construct, push, unlink,
  get,
}

abbrev pub count_by : {A : Type 0} → (A → ℕ) → ℕ → List A → ℕ
count_by key id [] = 0
count_by key id (x ∷ xs) = if id == key x then suc (count_by key id xs) else count_by key id xs

count_by-erase_self :
    {A : Type 0} (key : A → ℕ) (id : ℕ) (xs : List A)
    → count_by key id (erase_by key id xs) ≡ count_by key id xs - 1
unfolding erase_by
count_by-erase_self key id [] = refl
count_by-erase_self key id (x ∷ xs) = ground (arith, count_by-erase_self key id xs)

count_by-erase_ne :
    {A : Type 0} (key : A → ℕ) (id other : ℕ) (xs : List A)
    → other ≢ id
    → count_by key other (erase_by key id xs) ≡ count_by key other xs
unfolding erase_by
count_by-erase_ne key id other [] h = refl
count_by-erase_ne key id other (x ∷ xs) h = ground (arith, count_by-erase_ne key id other xs h)

count_by-insert :
    (id t other : ℕ) (xs : List (ℕ × ℕ))
    → count_by time_key other (insert t id xs)
      ≡ (if other == id then suc (count_by time_key other xs) else count_by time_key other xs)
unfolding insert
count_by-insert id t other [] = ground arith
count_by-insert id t other ((j, w) ∷ xs) = ground (arith, count_by-insert id t other xs)

Above-erase : (n id : ℕ) (xs : List (ℕ × ℕ)) → Above n xs → Above n (erase_by time_key id xs)
unfolding erase_by
Above-erase n id [] h = tt
Above-erase n id ((j, w) ∷ xs) h =
    ground (arith, Above-mono n j xs h.0 h.1, Above-erase j id xs h.1)

module _ {T : Type 0} where
  -- 1 where the id has an entry that is still to be sent.
  abbrev pub unsent : ℕ → List (ℕ × PtrInfo T) → ℕ
  unsent id [] = 0
  unsent id ((j, p) ∷ xs) = if id == j then (if p.has_send then 0 else 1) else unsent id xs

  pub record Linked (q : TimeoutQueueNew T) : Type 0 where
    pub once : (id : ℕ) → count_by data_key id q.data_ ≤ 1
    pub timed : (id : ℕ) → count_by time_key id q.time_ ≡ count_by data_key id q.data_
    pub waiting : (id : ℕ) → count_by send_key id q.send_ ≡ unsent id q.data_
    pub sorted : Above 0 q.time_

  pub cases : (o : Option (PtrInfo T)) → (o ≡ none) ⊎ ((p : PtrInfo T) × (o ≡ some p))
  cases none = inl refl
  cases (some p) = inr (p, refl)

  pub count-find-none :
      (id : ℕ) (xs : List (ℕ × PtrInfo T)) → find id xs ≡ none → count_by data_key id xs ≡ 0
  unfolding find
  count-find-none id [] h = refl
  count-find-none id ((j, p) ∷ xs) h = ground (arith, count-find-none id xs)

  pub find-none :
      (id : ℕ) (xs : List (ℕ × PtrInfo T)) → count_by data_key id xs ≡ 0 → find id xs ≡ none
  unfolding find
  find-none id [] h = refl
  find-none id ((j, p) ∷ xs) h = ground (arith, find-none id xs)

  unsent_none :
      (id : ℕ) (xs : List (ℕ × PtrInfo T)) → count_by data_key id xs ≡ 0 → unsent id xs ≡ 0
  unsent_none id [] h = refl
  unsent_none id ((j, p) ∷ xs) h = ground (arith, unsent_none id xs)

  unsent_found :
      (id : ℕ) (xs : List (ℕ × PtrInfo T)) (p : PtrInfo T)
      → find id xs ≡ some p
      → unsent id xs ≡ (if p.has_send then 0 else 1)
  unfolding find
  unsent_found id [] p h = ground (arith, h)
  unsent_found id ((j, r) ∷ xs) p h = ground (arith, unsent_found id xs p)

  found-count :
      (id : ℕ) (xs : List (ℕ × PtrInfo T)) (p : PtrInfo T)
      → find id xs ≡ some p
      → 0 < count_by data_key id xs
  unfolding find
  found-count id [] p h = ground (arith, h)
  found-count id ((j, r) ∷ xs) p h = ground (arith, found-count id xs p)

  pub found_of_count :
      (id : ℕ) (xs : List (ℕ × PtrInfo T))
      → 0 < count_by data_key id xs
      → (p : PtrInfo T) × (find id xs ≡ some p)
  found_of_count id xs h = elim (cases (find id xs)) [
    | inl e ↦ absurd (omega (arith, count-find-none id xs e, h))
    | inr found ↦ found
  ]

  -- An id that was taken out is gone, and the others are as they were.
  pub find-erase_self :
      (id : ℕ) (xs : List (ℕ × PtrInfo T))
      → count_by data_key id xs ≤ 1
      → find id (erase_by data_key id xs) ≡ none
  unfolding find erase_by
  find-erase_self id [] h = refl
  find-erase_self id ((j, r) ∷ xs) h = ground (arith, find-erase_self id xs, find-none id xs)

  pub find-erase_ne :
      (id other : ℕ) (xs : List (ℕ × PtrInfo T))
      → other ≢ id
      → find other (erase_by data_key id xs) ≡ find other xs
  unfolding find erase_by
  find-erase_ne id other [] h = refl
  find-erase_ne id other ((j, r) ∷ xs) h = ground (arith, find-erase_ne id other xs h)

  unsent-erase_ne :
      (id other : ℕ) (xs : List (ℕ × PtrInfo T))
      → other ≢ id
      → unsent other (erase_by data_key id xs) ≡ unsent other xs
  unfolding erase_by
  unsent-erase_ne id other [] h = refl
  unsent-erase_ne id other ((j, r) ∷ xs) h = ground (arith, unsent-erase_ne id other xs h)

  pub construct-Linked : (id : ℕ) → Linked (construct {T = T} id)
  unfolding construct
  construct-Linked id = record {
    once = λ i. omega arith;
    timed = λ i. refl;
    waiting = λ i. refl;
    sorted = tt;
  }

  -- `push` keeps the containers linked.
  pub push-Linked :
      (t : T) (id timeout : ℕ) (has_send : Bool) (q : TimeoutQueueNew T)
      → Linked q
      → Linked (push t id timeout has_send q).1
  unfolding push
  push-Linked t id timeout has_send q v = elim (cases (find id q.data_)) [
    | inr (p, e) ↦ rw (push, e) v
    | inl e ↦
        rw (push, e)
          (record {
            once = λ i. ground (arith, v.once i, count-find-none id q.data_ e);
            timed = λ i. ground (arith, v.timed i, count_by-insert id timeout i q.time_);
            waiting = λ i.
                ground (arith, v.waiting i, unsent_none id q.data_ (count-find-none id q.data_ e));
            sorted = insert-Above 0 timeout id q.time_ (omega arith) v.sorted;
          })
  ]

  -- To take an entry out of the three containers keeps them linked.
  pub unlink-Linked :
      (id : ℕ) (p : PtrInfo T) (q : TimeoutQueueNew T)
      → Linked q
      → find id q.data_ ≡ some p
      → Linked (unlink id p q)
  unfolding unlink
  unlink-Linked id p q v e = record {
    once = λ i. elim (ℕ_discrete i id) [
      | yes same ↦ rw same (omega (arith, v.once id, count_by-erase_self data_key id q.data_))
      | no other ↦ rw (count_by-erase_ne data_key id i q.data_ other) (v.once i)
    ];
    timed = λ i. elim (ℕ_discrete i id) [
      | yes same ↦ rw same (
          omega (
            arith,
            v.timed id,
            count_by-erase_self data_key id q.data_,
            count_by-erase_self time_key id q.time_,
          ))
      | no other ↦
          rw
            (
              count_by-erase_ne data_key id i q.data_ other,
              count_by-erase_ne time_key id i q.time_ other,
            )
            (v.timed i)
    ];
    waiting = λ i. elim (ℕ_discrete i id) [
      | yes same ↦ rw same (
          ground (
            arith,
            v.waiting id,
            unsent_found id q.data_ p e,
            unsent_none id (erase_by data_key id q.data_)
                (omega (arith, v.once id, count_by-erase_self data_key id q.data_)),
            count_by-erase_self send_key id q.send_,
          ))
      | no other ↦
          rw (unsent-erase_ne id i q.data_ other)
            (ground (arith, v.waiting i, count_by-erase_ne send_key id i q.send_ other))
    ];
    sorted = Above-erase 0 id q.time_ v.sorted;
  }

  -- `get` and `erase` keep the containers linked.
  pub get-Linked :
      (id : ℕ) (takes : Bool) (q : TimeoutQueueNew T) → Linked q → Linked (get id takes q).1
  unfolding get
  get-Linked id takes q v = elim (cases (find id q.data_)) [
    | inl e ↦ rw (get, e) v
    | inr (p, e) ↦ rw (get, e) (Linked-if takes (unlink id p q) q (unlink-Linked id p q v e) v)
  ]
    where
      Linked-if :
          (b : Bool) (q r : TimeoutQueueNew T) → Linked q → Linked r → Linked (if b then q else r)
      Linked-if true q r v w = v
      Linked-if false q r v w = w
