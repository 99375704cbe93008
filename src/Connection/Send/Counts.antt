-- ===== src/Connection/Send/Counts.antt =====
-- The count that `send` of slices answers.
use tarsx.Prelude.{
  ℕ, zero, suc, ◌+◌, ◌%◌, ◌^◌, ◌≤◌, ◌<◌, ◌≡◌, ◌≢◌, refl, sym, ap, ◌∙◌, ◌⊎◌, inl, inr, true, false,
  not, Option, some, List, [], ◌∷◌, ltb, leb, ◌==◌, length, take, drop, min, add64, arith,
  Bool-cases, length-take, length-drop,
}
use tarsx.Connection.{Slice, sign_extend}
use tarsx.Connection.Send.{
  Written, wrote, again_write, invalid_write, failed_write, int_minus_one, total, all_positive,
  no_slices, tcp_write_v, send_loop, send_slices,
}

total-take-drop :
    (n : ℕ) (slices : List Slice) → total (take n slices) + total (drop n slices) ≡ total slices
total-take-drop zero slices = omega arith
total-take-drop (suc n) [] = refl
total-take-drop (suc n) (s ∷ slices) = omega (arith, total-take-drop n slices)

positive_take :
    (n : ℕ) (slices : List Slice) → all_positive slices ≡ true → all_positive (take n slices) ≡ true
unfolding all_positive
positive_take zero slices h = refl
positive_take (suc n) [] h = refl
positive_take (suc n) (s ∷ slices) h = ground (arith, positive_take n slices)

positive_drop :
    (n : ℕ) (slices : List Slice) → all_positive slices ≡ true → all_positive (drop n slices) ≡ true
unfolding all_positive
positive_drop zero slices h = h
positive_drop (suc n) [] h = refl
positive_drop (suc n) (s ∷ slices) h = ground (arith, positive_drop n slices)

length-le-total : (slices : List Slice) → all_positive slices ≡ true → length slices ≤ total slices
unfolding all_positive
length-le-total [] h = omega arith
length-le-total (s ∷ slices) h = ground (arith, length-le-total slices)

some_taken :
    (n : ℕ) (s : Slice) (slices : List Slice)
    → 1 ≤ n
    → all_positive (s ∷ slices) ≡ true
    → 1 ≤ total (take n (s ∷ slices))
unfolding all_positive
some_taken zero s slices h pos = absurd (omega arith)
some_taken (suc n) s slices h pos = ground arith

Written-cases :
    (w : Written)
    → ((n : ℕ) × (w ≡ wrote n)) ⊎ ((w ≡ again_write) ⊎ ((w ≡ invalid_write) ⊎ (w ≡ failed_write)))
Written-cases (wrote n) = inl (n, refl)
Written-cases again_write = inr (inl refl)
Written-cases invalid_write = inr (inr (inl refl))
Written-cases failed_write = inr (inr (inr refl))

-- An `::writev` that takes all that it is given.
abbrev pub TakesAll : (List Slice → Written) → Type 0
TakesAll writev = (group : List Slice) → writev group ≡ wrote (total group)

-- A call that returns -1, or a count from `lo` to `hi`, which is `hi` where `::writev` takes all.
pub record Counts (writev : List Slice → Written) (o : Option ℕ) (lo hi : ℕ) : Type 0 where
  pub answer : ℕ
  pub returned : o ≡ some answer
  pub bounded : (answer ≡ int_minus_one) ⊎ ((lo ≤ answer) × (answer ≤ hi))
  pub whole : TakesAll writev → answer ≡ hi

module _ (writev : List Slice → Written) (max_iov : ℕ)
    (honest : (group : List Slice) (n : ℕ) → writev group ≡ wrote n → n ≤ total group)
    (valid : (group : List Slice)
      → length group ≤ max_iov
      → total group < 2 ^ 31
      → writev group ≢ invalid_write)
    (some_room : 1 ≤ max_iov) where
  Counts-write :
      (group : List Slice)
      → length group ≤ max_iov
      → total group < 2 ^ 31
      → Counts writev (tcp_write_v writev max_iov group) 0 (total group)
  unfolding tcp_write_v
  Counts-write group fits small = elim (Written-cases (writev group)) [
    | inl (n, e) ↦
        let h = honest group n e in
        let kept : n % 2 ^ 32 ≡ n = omega (arith, h, small) in
        let count : not (n % 2 ^ 32 == int_minus_one) ≡ true = ground (arith, kept, h, small) in
        record {
          answer = n;
          returned = rw (few, e, tcp_write_v, count) (ap some kept);
          bounded = inr (omega arith, h);
          whole = λ all. let same = sym e ∙ all group in cc;
        }
    | inr (inl e) ↦ record {
      answer = 0;
      returned = rw (few, e, tcp_write_v);
      bounded = inr (omega arith, omega arith);
      whole = λ all. let same = sym e ∙ all group in cc;
    }
    | inr (inr (inl e)) ↦ absurd (valid group fits small e)
    | inr (inr (inr e)) ↦ record {
      answer = int_minus_one;
      returned = rw (few, e, tcp_write_v);
      bounded = inl refl;
      whole = λ all. let same = sym e ∙ all group in cc;
    }
  ]
    where
      few : leb (length group) max_iov ≡ true
      few = ground (arith, fits)

  -- The slices of a call of `::writev`, by their number.
  abbrev chosen : List Slice → ℕ
  chosen slices = min (length slices % 2 ^ 32) max_iov

  -- A round in which `tcpWriteV` answered with a number of bytes, over the rest of the loop.
  Counts-round :
      (fuel : ℕ) (s : Slice) (slices : List Slice) (already bytes : ℕ)
      → ltb (length (s ∷ slices) % 2 ^ 32) (2 ^ 31) ≡ true
      → all_positive (take (chosen (s ∷ slices)) (s ∷ slices)) ≡ true
      → already + total (s ∷ slices) < 2 ^ 31
      → 1 ≤ total (take (chosen (s ∷ slices)) (s ∷ slices))
      → tcp_write_v writev max_iov (take (chosen (s ∷ slices)) (s ∷ slices)) ≡ some bytes
      → bytes ≤ total (take (chosen (s ∷ slices)) (s ∷ slices))
      → (TakesAll writev → bytes ≡ total (take (chosen (s ∷ slices)) (s ∷ slices)))
      → Counts writev
          (send_loop writev max_iov fuel
            (drop (chosen (s ∷ slices)) (s ∷ slices))
            (already + bytes))
          (already + bytes)
          (already + bytes + total (drop (chosen (s ∷ slices)) (s ∷ slices)))
      → Counts writev
          (send_loop writev max_iov (suc fuel) (s ∷ slices) already)
          already
          (already + total (s ∷ slices))
  unfolding send_loop no_slices
  Counts-round fuel s slices already bytes few p small given e most each rest =
      elim (Bool-cases (bytes == 0)) [
        | inl nothing ↦ record {
          answer = already % 2 ^ 32;
          returned = rw (few, p, e, kept, nothing);
          bounded = inr (omega (arith, small), omega (arith, small));
          whole = λ all. absurd (ground (arith, nothing, given, each all));
        }
        | inr more ↦ elim (Bool-cases (bytes == total group % 2 ^ 32)) [
          | inl full ↦
              let same : bytes ≡ total group = ground (arith, part, small, full) in
              record {
                answer = rest.answer;
                returned =
                    rw (few, p, e, kept, more, full)
                      (ap (send_loop writev max_iov fuel (drop g (s ∷ slices))) next
                        ∙ rest.returned);
                bounded = bounds rest.bounded same;
                whole = λ all. rest.whole all ∙ omega (arith, split, same);
              }
          | inr partly ↦
              let sent : ltb bytes (2 ^ 31) ≡ true = ground (arith, most, part, small) in
              record {
                answer = add64 already bytes % 2 ^ 32;
                returned = rw (few, p, e, kept, more, partly, sent);
                bounded = inr (omega (arith, small, part, most), omega (arith, small, part, most));
                whole = λ all. absurd (ground (arith, each all, partly, part, small));
              }
        ]
      ]
    where
      g : ℕ
      g = chosen (s ∷ slices)

      group : List Slice
      group = take g (s ∷ slices)

      split : total group + total (drop g (s ∷ slices)) ≡ total (s ∷ slices)
      split = total-take-drop g (s ∷ slices)

      part : total group ≤ total (s ∷ slices)
      part = omega (arith, split)

      kept : (bytes == int_minus_one) ≡ false
      kept = ground (arith, most, part, small)

      next : add64 already (sign_extend bytes) ≡ already + bytes
      next = unfold sign_extend in ground (arith, part, small, most)

      bounds :
          (rest.answer ≡ int_minus_one)
            ⊎ ((already + bytes ≤ rest.answer)
                × (rest.answer ≤ already + bytes + total (drop g (s ∷ slices))))
          → bytes ≡ total group
          → (rest.answer ≡ int_minus_one)
            ⊎ ((already ≤ rest.answer) × (rest.answer ≤ already + total (s ∷ slices)))
      bounds (inl failed) same = inl failed
      bounds (inr (lo, hi)) same = inr (omega (arith, lo), omega (arith, hi, split, same))

  -- A round in which `tcpWriteV` answered -1.
  Counts-lost :
      (fuel : ℕ) (s : Slice) (slices : List Slice) (already : ℕ)
      → ltb (length (s ∷ slices) % 2 ^ 32) (2 ^ 31) ≡ true
      → all_positive (take (chosen (s ∷ slices)) (s ∷ slices)) ≡ true
      → ¬ TakesAll writev
      → tcp_write_v writev max_iov (take (chosen (s ∷ slices)) (s ∷ slices)) ≡ some int_minus_one
      → Counts writev
          (send_loop writev max_iov (suc fuel) (s ∷ slices) already)
          already
          (already + total (s ∷ slices))
  unfolding send_loop no_slices
  Counts-lost fuel s slices already few p never e = record {
    answer = int_minus_one;
    returned = rw (few, p, e);
    bounded = inl refl;
    whole = λ all. absurd (never all);
  }

  Counts-loop :
      (fuel : ℕ) (slices : List Slice) (already : ℕ)
      → suc (length slices) ≤ fuel
      → all_positive slices ≡ true
      → already + total slices < 2 ^ 31
      → Counts writev
          (send_loop writev max_iov fuel slices already)
          already
          (already + total slices)
  unfolding send_loop no_slices
  Counts-loop zero slices already h pos small = absurd (omega arith)
  Counts-loop (suc fuel) [] already h pos small = record {
    answer = already % 2 ^ 32;
    returned = refl;
    bounded = inr (omega (arith, small), omega (arith, small));
    whole = λ all. omega (arith, small);
  }
  Counts-loop (suc fuel) (s ∷ slices) already h pos small =
      let g : ℕ = chosen (s ∷ slices) in
      let group : List Slice = take g (s ∷ slices) in
      let counted : length (s ∷ slices) < 2 ^ 31 =
        omega (arith, small, length-le-total (s ∷ slices) pos) in
      let few : ltb (length (s ∷ slices) % 2 ^ 32) (2 ^ 31) ≡ true = ground (arith, counted) in
      let at_least : 1 ≤ g = omega (arith, counted, some_room) in
      let split = total-take-drop g (s ∷ slices) in
      let part : total group ≤ total (s ∷ slices) = omega (arith, split) in
      let p = positive_take g (s ∷ slices) pos in
      let w =
        Counts-write group (omega (arith, length-take g (s ∷ slices)))
          (omega (arith, part, small)) in
      elim w.bounded [
        | inl lost ↦
            Counts-lost fuel s slices already few p
              (λ all. omega (arith, small, part, lost, w.whole all)) (w.returned ∙ ap some lost)
        | inr (_, most) ↦
            Counts-round fuel s slices already w.answer few p small
              (some_taken g s slices at_least pos) w.returned most w.whole
              (Counts-loop fuel (drop g (s ∷ slices)) (already + w.answer)
                (omega (arith, h, at_least, length-drop g (s ∷ slices)))
                (positive_drop g (s ∷ slices) pos) (omega (arith, small, split, most)))
      ]

  -- Over slices that all have bytes, fewer than 2^31 of them together, with room for at least one
  -- slice in a call of `::writev`, which takes no more than it is given and does not find a group of
  -- so few slices and bytes invalid: `send` passes its assertions and ends, and answers -1 or a number
  -- of bytes that is not above what the slices hold, and is all of them where `::writev` takes all
  -- that it is given.
  pub send_slices_lem :
      (slices : List Slice)
      → all_positive slices ≡ true
      → total slices < 2 ^ 31
      → Counts writev (send_slices writev max_iov slices) 0 (total slices)
  unfolding send_slices
  send_slices_lem slices pos small =
      let c = Counts-loop (suc (length slices)) slices 0 (omega arith) pos (omega (arith, small)) in
      record {
        answer = c.answer;
        returned = c.returned;
        bounded = bounds c.answer c.bounded;
        whole = λ all. c.whole all ∙ omega arith;
      }
    where
      bounds :
          (n : ℕ)
          → (n ≡ int_minus_one) ⊎ ((0 ≤ n) × (n ≤ 0 + total slices))
          → (n ≡ int_minus_one) ⊎ ((0 ≤ n) × (n ≤ total slices))
      bounds n (inl failed) = inl failed
      bounds n (inr (lo, hi)) = inr (lo, omega (arith, hi))
