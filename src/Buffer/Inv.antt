-- ===== src/Buffer/Inv.antt =====
-- The buffer's invariant, and the bytes that it holds.
use native.Mathlib.Nat.{zero-add, sub-zero}
use tarsx.Prelude.{
  ℕ, zero, suc, ◌+◌, ◌-◌, ◌^◌, ◌≤◌, ◌<◌, ◌≡◌, refl, sym, ap, inl, inr, true, false, none, some,
  List, [], ◌∷◌, ◌++◌, append_assoc, arith, ltb, leb, lt→ltb, ◌==◌, if◌then◌else◌, Bool-cases,
  length, take, drop, replicate, length-append, length-take, length-drop, length-replicate,
  take-append, nil_of_length,
}
use tarsx.Buffer.{
  Byte, Buffer, reset_buffer, copy_out, copy_in, readable_size, writable_size, max_buffer_size,
  relocate, grow, assure_space,
}
use tarsx.Buffer.Growth.{grow_lem}

pub record IsValid (b : Buffer) : Type 0 where
  pub ordered : b.read_pos ≤ b.write_pos
  pub written : b.write_pos ≤ b.capacity
  pub small : b.capacity ≤ 2 ^ 63
  pub block : length b.mem ≡ b.capacity

-- The bytes between the two positions.
abbrev pub contents : Buffer → List Byte
contents b = take (b.write_pos - b.read_pos) (drop b.read_pos b.mem)

pub length-contents : (b : Buffer) → IsValid b → length (contents b) ≡ b.write_pos - b.read_pos
length-contents b v = omega (
  arith,
  length-take (b.write_pos - b.read_pos) (drop b.read_pos b.mem),
  length-drop b.read_pos b.mem,
  v.block,
)

pub readable_size_lem : (b : Buffer) → IsValid b → readable_size b ≡ length (contents b)
unfolding readable_size
readable_size_lem b v = omega (arith, length-contents b v)

pub writable_size_lem : (b : Buffer) → IsValid b → writable_size b ≡ b.capacity - b.write_pos
unfolding writable_size
writable_size_lem b v = omega arith

pub copy_out-contents :
    (b : Buffer) → IsValid b → copy_out b.mem b.read_pos (readable_size b) ≡ some (contents b)
unfolding copy_out
copy_out-contents b v = rw (readable_size_lem b v, length-contents b v) (ground arith)

-- Bytes copied to the front of a block.
pub copy_in-front :
    (mem bytes : List Byte)
    → length bytes ≤ length mem
    → copy_in mem 0 bytes ≡ some (bytes ++ drop (length bytes) mem)
unfolding copy_in
copy_in-front mem bytes h = rw (zero-add, leb_of (length bytes) (length mem) h)
  where
    leb_of : (m n : ℕ) → m ≤ n → leb m n ≡ true
    leb_of m n h = ground arith

suc_add : (m n : ℕ) → suc m + n ≡ suc (m + n)
suc_add m n = omega arith

suc_sub : (m n : ℕ) → suc m - suc n ≡ m - n
suc_sub m n = omega arith

-- Bytes written behind a window extend the window by them.
pub take-drop-written :
    {A : Type 0} (r w n : ℕ) (mem bytes rest : List A)
    → r ≤ w
    → w ≤ length mem
    → n ≡ length bytes
    → take (w + n - r) (drop r (take w mem ++ (bytes ++ rest))) ≡ take (w - r) (drop r mem) ++ bytes
take-drop-written zero w n mem bytes rest hr hw e =
    rw (sub-zero, sub-zero, ← append_assoc (take w mem) bytes rest)
      (take-append (w + n) (take w mem ++ bytes) rest
        (omega (arith, length-append (take w mem) bytes, length-take w mem)))
take-drop-written (suc r) zero n mem bytes rest hr hw e = absurd (omega arith)
take-drop-written (suc r) (suc w) n [] bytes rest hr hw e = absurd (omega arith)
take-drop-written (suc r) (suc w) n (x ∷ mem) bytes rest hr hw e =
    rw (suc_add w n, suc_sub (w + n) r, suc_sub w r)
      (take-drop-written r w n mem bytes rest (omega arith) (omega arith) e)

-- What is copied out before the move.
copied_lem :
    (b : Buffer)
    → IsValid b
    → (if readable_size b == 0 then some [] else copy_out b.mem b.read_pos (readable_size b))
      ≡ some (contents b)
copied_lem b v = elim (Bool-cases (readable_size b == 0)) [
  | inl none_there ↦
      rw none_there
        (ap some (sym (nil_of_length (contents b) (ground (arith, readable_size_lem b v)))))
  | inr some_there ↦ rw some_there (copy_out-contents b v)
]

relocate_lem :
    (b : Buffer) (c : ℕ)
    → IsValid b
    → b.capacity ≤ c
    → (b.capacity ≡ c → 0 < b.read_pos)
    → (rest : List Byte) × (relocate b c
        ≡ some (record b { capacity = c; mem = contents b ++ rest }))
      × (length (contents b ++ rest) ≡ c)
unfolding relocate reset_buffer
relocate_lem b c v h moved = elim (Bool-cases (ltb b.capacity c)) [
  | inl larger ↦ (
    drop (length (contents b)) (replicate c none),
    rw (
      larger,
      relocate,
      copied_lem b v,
      copy_in-front (replicate c none) (contents b)
          (ground (arith, length-replicate {A = Byte} c none, length-contents b v)),
    ),
    ground (
      arith,
      length-append (contents b) (drop (length (contents b)) (replicate c none)),
      length-drop (length (contents b)) (replicate {A = Byte} c none),
      length-replicate {A = Byte} c none,
      length-contents b v,
    ),
  )
  | inr same ↦
      let e : b.capacity ≡ c = ground arith in
      (
        drop (length (contents b)) b.mem,
        rw
            (
              same,
              relocate,
              lt→ltb 0 b.read_pos (moved e),
              copy_out-contents b v,
              copy_in-front b.mem (contents b) (ground (arith, length-contents b v)),
            )
            (ap
              (λ k.
                some
                  (record b { capacity = k; mem = contents b ++ drop (length (contents b)) b.mem }))
              e),
        ground (
          arith,
          length-append (contents b) (drop (length (contents b)) b.mem),
          length-drop (length (contents b)) b.mem,
          length-contents b v,
        ),
      )
]

-- A buffer after `assureSpace(need)`.
pub record Assured (b : Buffer) (need : ℕ) : Type 0 where
  pub after : Buffer
  pub returned : assure_space b need ≡ some after
  pub valid : IsValid after
  pub kept : contents after ≡ contents b
  pub room : need + after.write_pos ≤ after.capacity
  pub grown : b.capacity ≤ after.capacity
  pub percent : after.high_water_percent ≡ b.high_water_percent

-- `assureSpace` returns for every request that with the bytes held stays within `MaxBufferSize`;
-- it makes the room asked for, and keeps the bytes held and the invariant.
pub assure_space_lem :
    (b : Buffer) (need : ℕ)
    → IsValid b
    → length (contents b) + need ≤ max_buffer_size
    → Assured b need
unfolding assure_space
assure_space_lem b need v h = elim (Bool-cases (leb need (writable_size b))) [
  | inl enough ↦ record {
    after = b;
    returned = rw enough;
    valid = v;
    kept = refl;
    room = ground (arith, writable_size_lem b v);
    grown = omega arith;
    percent = refl;
  }
  | inr short ↦
      let g =
        grow_lem b.read_pos b.write_pos need b.capacity v.small v.ordered v.written
          (omega (arith, length-contents b v)) in
      let m = relocate_lem b g.0 v g.3 (λ e. ground (arith, g.2, writable_size_lem b v)) in
      assured g.0 m.0 (ground arith) g.1 m.1 m.2 g.2 g.3 g.4
]
  where
    assured :
        (c : ℕ) (rest : List Byte)
        → leb need (writable_size b) ≡ false
        → grow 64 b.read_pos b.write_pos need b.capacity ≡ some c
        → relocate b c ≡ some (record b { capacity = c; mem = contents b ++ rest })
        → length (contents b ++ rest) ≡ c
        → need + b.write_pos ≤ c + b.read_pos
        → b.capacity ≤ c
        → c ≤ 2 ^ 63
        → Assured b need
    assured c rest short g m l room big small =
        let after : Buffer = record {
          read_pos = 0;
          write_pos = length (contents b);
          capacity = c;
          mem = contents b ++ rest;
          high_water_percent = b.high_water_percent;
        } in
        let valid : IsValid after = record {
          ordered = omega arith;
          written = omega (arith, length-append (contents b) rest);
          small = small;
          block = l;
        } in
        record {
          after = after;
          returned =
              rw (short, g, m, readable_size_lem b v, writable_size_lem after valid)
                (ground (arith, length-contents b v));
          valid = valid;
          kept = take-append (length (contents b) - 0) (contents b) rest (omega arith);
          room = omega (arith, length-contents b v);
          grown = big;
          percent = refl;
        }
