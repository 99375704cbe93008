-- ===== src/Buffer/Shrink.antt =====
-- `shrink`, and the bytes that the buffer holds.
use tarsx.Prelude.{
  ℕ, ◌-◌, ◌*◌, ◌^◌, ◌≤◌, ◌≡◌, refl, sym, ◌∙◌, inl, inr, false, Option, none, some, [], ◌++◌, arith,
  ltb, leb, ◌==◌, mul64, ◌>>=◌, Bool-cases, length, drop, replicate, length-append, length-drop,
  length-replicate, take-append, nil_of_length,
}
use tarsx.Buffer.{
  Byte, Buffer, copy_out, copy_in, readable_size, empty, clear, default_size, shrink, reset_buffer,
}
use tarsx.Buffer.Growth.{round_up_2_power_lem, pow_le}
use tarsx.Buffer.Inv.{
  IsValid, contents, length-contents, readable_size_lem, copy_out-contents, copy_in-front,
}

-- What `shrink` leaves.
pub record Shrunk (b : Buffer) : Type 0 where
  pub after : Buffer
  pub returned : shrink b ≡ some after
  pub valid : IsValid after
  pub kept : contents after ≡ contents b
  pub smaller : after.capacity ≤ b.capacity

-- The move to a block of `roundUp2Power(readableSize())` bytes.
shrunk_to :
    (b : Buffer) (k : ℕ)
    → IsValid b
    → length (contents b) ≤ 2 ^ k
    → k ≤ 63
    → 2 ^ k ≤ b.capacity
    → (o : Option Buffer)
    → o ≡ (do
      bytes ← copy_out b.mem b.read_pos (readable_size b)
      tmp ← copy_in (replicate (2 ^ k) none) 0 bytes
      some (record (reset_buffer b tmp) {
        capacity = 2 ^ k;
        read_pos = 0;
        write_pos = readable_size b;
      }))
    → (after : Buffer) × (o ≡ some after)
      × IsValid after
      × (contents after ≡ contents b)
      × (after.capacity ≤ b.capacity)
unfolding reset_buffer
shrunk_to b k v fits hk smaller o e =
    let rest = drop (length (contents b)) (replicate {A = Byte} (2 ^ k) none) in
    let size : length (contents b ++ rest) ≡ 2 ^ k = omega (
      arith,
      length-append (contents b) rest,
      length-drop (length (contents b)) (replicate {A = Byte} (2 ^ k) none),
      length-replicate {A = Byte} (2 ^ k) none,
    ) in
    (
      record b {
        read_pos = 0;
        write_pos = length (contents b);
        capacity = 2 ^ k;
        mem = contents b ++ rest;
      },
      e
          ∙ rw (
            copy_out-contents b v,
            copy_in-front (replicate {A = Byte} (2 ^ k) none) (contents b)
                (omega (arith, length-replicate {A = Byte} (2 ^ k) none)),
            readable_size_lem b v,
          ),
      record { ordered = omega arith; written = fits; small = pow_le k 63 hk; block = size },
      take-append (length (contents b) - 0) (contents b) rest (omega arith),
      smaller,
    )

-- The high-water test, where its products do not wrap.
at_most_half :
    (cap held p : ℕ)
    → p ≤ 50
    → cap ≤ 2 ^ 57
    → held ≤ cap
    → ltb (mul64 cap p) (mul64 held 100) ≡ false
    → 2 * held ≤ cap
at_most_half cap held p hp hc hr low = omega (arith, fits, not_below, scaled)
  where
    scaled : cap * p ≤ cap * 50
    scaled = grind arith

    fits : mul64 cap p ≡ cap * p
    fits = omega (arith, scaled)

    not_below : mul64 held 100 ≤ mul64 cap p
    not_below = ground arith

-- `shrink` returns for every valid buffer whose high-water mark is at most half of its block: it
-- keeps the bytes and the invariant, and the block does not grow.
shrink_lem : (b : Buffer) → IsValid b → b.high_water_percent ≤ 50 → b.capacity ≤ 2 ^ 57 → Shrunk b
unfolding shrink clear reset_buffer empty
shrink_lem b v percent moderate = elim (Bool-cases (readable_size b == 0)) [
  | inl nothing ↦ record {
    after = record b { read_pos = 0; write_pos = 0; capacity = 0; mem = [] };
    returned = rw nothing;
    valid = omega arith;
    kept = sym (nil_of_length (contents b) (ground (arith, readable_size_lem b v)));
    smaller = omega arith;
  }
  | inr some_there ↦ elim (Bool-cases (leb b.capacity default_size)) [
    | inl small ↦ record {
      after = b;
      returned = rw (some_there, small);
      valid = v;
      kept = refl;
      smaller = omega arith;
    }
    | inr large ↦
        elim (Bool-cases
          (ltb (mul64 b.capacity b.high_water_percent) (mul64 (readable_size b) 100))) [
            | inl full ↦ record {
              after = b;
              returned = rw (some_there, large, full);
              valid = v;
              kept = refl;
              smaller = omega arith;
            }
            | inr low ↦
                let r =
                  round_up_2_power_lem (readable_size b) (ground arith)
                    (omega (arith, readable_size_lem b v, length-contents b v)) in
                let s =
                  shrunk_to b r.0 v (omega (arith, r.2, readable_size_lem b v)) r.4
                    (omega (
                      arith,
                      r.3,
                      at_most_half b.capacity (readable_size b) b.high_water_percent percent
                          moderate (omega (arith, readable_size_lem b v, length-contents b v)) low,
                    ))
                    (shrink b) (rw (some_there, large, low, r.1)) in
                record { after = s.0; returned = s.1; valid = s.2; kept = s.3; smaller = s.4 }
          ]
  ]
]
