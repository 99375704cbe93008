-- ===== src/Buffer/Growth.antt =====
-- The two loops of the buffer's growth.
use native.Mathlib.Nat.{two-pow-succ, pow-le-pow_right}
use tarsx.Prelude.{
  ℕ, zero, suc, ◌+◌, ◌*◌, ◌^◌, ◌≤◌, ◌<◌, ◌≡◌, refl, ◌⊎◌, inl, inr, Option, some, arith, ltb, ltb→lt,
  lt→ltb, dec_lt, ◌==◌, if◌then◌else◌, add64, sub64, mul64, Bool-cases,
}
use tarsx.Buffer.{
  max_buffer_size, default_size, round_up_loop, round_up_2_power, next_capacity, grow,
}

pub pow_le : (i j : ℕ) → i ≤ j → 2 ^ i ≤ 2 ^ j
pow_le i j h = pow-le-pow_right {n = 2} (omega arith) h

-- Doubling does not wrap below `2 ^ 63`.
double_pow : (j : ℕ) → j < 63 → mul64 (2 ^ j) 2 ≡ 2 ^ suc j
double_pow j h = omega (arith, two-pow-succ j, pow_le (suc j) 63 h)

pow_lt_bound : (j size : ℕ) → j ≤ 63 → 2 ^ j < size → size ≤ 2 ^ 63 → j < 63
pow_lt_bound j size hj less hs = elim (dec_lt j 63) [
  | yes below ↦ below
  | no above ↦ absurd (omega (arith, pow_le 63 j (omega arith)))
]

-- The loop's value is a power of two at each round; it stops at the first that is not below `size`.
round_up_loop_lem :
    (f j size : ℕ)
    → 64 ≤ f + j
    → j ≤ 63
    → size ≤ 2 ^ 63
    → (k : ℕ) × (round_up_loop f size (2 ^ j) ≡ some (2 ^ k))
      × (size ≤ 2 ^ k)
      × (k ≤ 63)
      × ((k ≡ j) ⊎ (2 ^ k < 2 * size))
unfolding round_up_loop
round_up_loop_lem zero j size h hj hs = absurd (omega arith)
round_up_loop_lem (suc f) j size h hj hs = elim (Bool-cases (ltb (2 ^ j) size)) [
  | inl less ↦
      let below : j < 63 = pow_lt_bound j size hj (ltb→lt _ _ less) hs in
      let r = round_up_loop_lem f (suc j) size (omega arith) (omega arith) hs in
      (
        r.0,
        rw (less, double_pow j below) r.1,
        r.2,
        r.3,
        inr (doubled j size r.0 (ltb→lt _ _ less) r.4),
      )
  | inr enough ↦ (j, rw enough, ground arith, hj, inl refl)
]
  where
    doubled : (j size k : ℕ) → 2 ^ j < size → (k ≡ suc j) ⊎ (2 ^ k < 2 * size) → 2 ^ k < 2 * size
    doubled j size k less (inl e) = rw e (omega (arith, two-pow-succ j))
    doubled j size k less (inr h) = h

-- `roundUp2Power` returns for every size from 1 to `2 ^ 63`: a power of two that is not below the
-- size, and is below twice the size.
pub round_up_2_power_lem :
    (size : ℕ)
    → 1 ≤ size
    → size ≤ 2 ^ 63
    → (k : ℕ) × (round_up_2_power size ≡ some (2 ^ k))
      × (size ≤ 2 ^ k)
      × (2 ^ k < 2 * size)
      × (k ≤ 63)
unfolding round_up_2_power
round_up_2_power_lem size lo hi =
    let r = round_up_loop_lem 65 0 size (omega arith) (omega arith) hi in
    (r.0, tested r.1, r.2, below r.0 r.4, r.3)
  where
    tested :
        {o : Option ℕ}
        → round_up_loop 65 size 1 ≡ o
        → (if size == 0 then some 0 else round_up_loop 65 size 1) ≡ o
    tested e = ground arith

    below : (k : ℕ) → (k ≡ 0) ⊎ (2 ^ k < 2 * size) → 2 ^ k < 2 * size
    below k (inl e) = rw e (omega arith)
    below k (inr h) = h

pow_lt_inv : (i k : ℕ) → 2 ^ i < 2 ^ k → i < k
pow_lt_inv i k h = elim (dec_lt i k) [
  | yes below ↦ below
  | no above ↦ absurd (omega (arith, pow_le k i (omega arith)))
]

-- One round at least doubles the power of two under the capacity.
next_capacity_lem :
    (c i : ℕ)
    → 2 ^ i ≤ c
    → default_size ≤ c
    → c ≤ max_buffer_size
    → (d : ℕ) × (next_capacity c ≡ some d) × (2 ^ suc i ≤ d) × (d ≤ 2 ^ 63) × (c < d)
unfolding next_capacity
next_capacity_lem c i hi lo hc =
    let r = round_up_2_power_lem c (omega arith) (omega arith) in
    let big = pow_le r.0 63 r.4 in
    elim (dec_lt c (2 ^ r.0)) [
      | yes less ↦ (
        2 ^ r.0,
        ground (arith, r.1),
        pow_le (suc i) r.0 (pow_lt_inv i r.0 (omega arith)),
        big,
        less,
      )
      | no exact ↦
          let k63 : r.0 < 63 = pow_lt_inv r.0 63 (omega arith) in
          (
            2 ^ suc r.0,
            ground (arith, r.1, double_pow r.0 k63),
            pow_le (suc i) (suc r.0) (pow_lt_inv i (suc r.0) (omega (arith, two-pow-succ r.0))),
            pow_le (suc r.0) 63 k63,
            omega (arith, two-pow-succ r.0),
          )
    ]

-- What the loop of `assureSpace` ends with.
abbrev pub Grown : ℕ → ℕ → ℕ → ℕ → Option ℕ → Type 0
Grown read write need c o =
    (d : ℕ) × (o ≡ some d) × (need + write ≤ d + read) × (c ≤ d) × (d ≤ 2 ^ 63)

grow_from :
    (f read write need c i : ℕ)
    → 2 ^ i ≤ c
    → default_size ≤ c
    → c ≤ 2 ^ 63
    → read ≤ write
    → write ≤ c
    → need + write ≤ max_buffer_size + read
    → 64 ≤ f + i
    → Grown read write need c (grow f read write need c)
unfolding grow
grow_from zero read write need c i hi lo hc hr hw hn hf =
    absurd (omega (arith, pow_le 64 i (omega arith)))
grow_from (suc f) read write need c i hi lo hc hr hw hn hf =
    elim (Bool-cases (ltb (add64 (sub64 c write) read) need)) [
      | inl less ↦
          let s = next_capacity_lem c i hi lo (ground arith) in
          let r =
            grow_from f read write need s.0 (suc i) s.2 (omega (arith, s.4)) s.3 hr
              (omega (arith, s.4)) hn (omega arith) in
          (r.0, rw (less, s.1) r.1, r.2, omega (arith, r.3, s.4), r.4)
      | inr enough ↦ (c, rw enough, ground arith, omega arith, hc)
    ]

grow_small :
    (f read write need c : ℕ)
    → c < default_size
    → read ≤ write
    → write ≤ c
    → need + write ≤ max_buffer_size + read
    → 57 ≤ f
    → Grown read write need c (grow (suc f) read write need c)
unfolding grow next_capacity
grow_small f read write need c small hr hw hn hf =
    elim (Bool-cases (ltb (add64 (sub64 c write) read) need)) [
      | inl less ↦
          let r =
            grow_from f read write need default_size 7 (omega arith) (omega arith) (omega arith) hr
              (omega arith) hn (omega arith) in
          (r.0, rw (less, lt→ltb c default_size small) r.1, r.2, omega (arith, r.3), r.4)
      | inr enough ↦ (c, rw enough, ground arith, omega arith, omega arith)
    ]

-- `assureSpace`'s loop ends within 64 rounds, for every request that with the bytes held stays
-- within `MaxBufferSize`.
pub grow_lem :
    (read write need c : ℕ)
    → c ≤ 2 ^ 63
    → read ≤ write
    → write ≤ c
    → need + write ≤ max_buffer_size + read
    → Grown read write need c (grow 64 read write need c)
grow_lem read write need c hc hr hw hn = elim (dec_lt c default_size) [
  | yes small ↦ grow_small 63 read write need c small hr hw hn (omega arith)
  | no large ↦
      grow_from 64 read write need c 7 (omega arith) (omega arith) hc hr hw hn (omega arith)
]
