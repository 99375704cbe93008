-- ===== src/Buffer/Contents.antt =====
-- What each operation of the buffer does to the bytes held.
use tarsx.Prelude.{
  ℕ, zero, suc, ◌+◌, ◌-◌, ◌%◌, ◌^◌, ◌≤◌, ◌<◌, ◌≡◌, refl, sym, ap, ◌∙◌, inl, inr, Bool, true, false,
  Option, none, some, List, [], ◌∷◌, ◌++◌, append-nil, arith, ltb, leb, ◌==◌, if◌then◌else◌, add64,
  ◌>>=◌, Bool-cases, length, take, drop, length-append, length-take, length-drop, drop-drop,
  drop-take, drop_all, nil_of_length, take-take, take_all,
}
use tarsx.Buffer.{
  Byte, Buffer, copy_out, copy_in, readable_size, empty, clear, produce, consume, max_buffer_size,
  push_data, pop_data,
}
use tarsx.Buffer.Inv.{
  IsValid, contents, length-contents, readable_size_lem, copy_out-contents, take-drop-written,
  assure_space_lem,
}

-- The buffer that a step returned, and the bytes that it holds.
pub record Returns {A : Type 0} (o : Option (A × Buffer)) (a : A) (xs : List Byte) : Type 0 where
  pub after : Buffer
  pub returned : o ≡ some (a, after)
  pub valid : IsValid after
  pub holds : contents after ≡ xs

pub copy_out_lem :
    (mem : List Byte) (pos n : ℕ)
    → pos + n ≤ length mem
    → copy_out mem pos n ≡ some (take n (drop pos mem))
unfolding copy_out
copy_out_lem mem pos n h = ground arith

copy_in_lem :
    (mem : List Byte) (pos : ℕ) (bytes : List Byte)
    → pos + length bytes ≤ length mem
    → copy_in mem pos bytes ≡ some (take pos mem ++ (bytes ++ drop (pos + length bytes) mem))
unfolding copy_in
copy_in_lem mem pos bytes h = ground arith

-- The write behind the bytes held, once there is room.
pub pushed :
    (b : Buffer) (bytes : List Byte)
    → IsValid b
    → length bytes + b.write_pos ≤ b.capacity
    → Returns
        (copy_in b.mem b.write_pos bytes >>= λ mem.
          some (length bytes, produce (record b { mem = mem }) (length bytes)))
        (length bytes)
        (contents b ++ bytes)
unfolding produce
pushed b bytes v room =
    let wrote = take b.write_pos b.mem ++ (bytes ++ drop (b.write_pos + length bytes) b.mem) in
    let e : (b.write_pos + length bytes) % 2 ^ 64 ≡ b.write_pos + length bytes = omega arith in
    record {
      after = record b { mem = wrote; write_pos = b.write_pos + length bytes };
      returned = rw (copy_in_lem b.mem b.write_pos bytes (omega arith), e);
      valid = record {
        ordered = omega arith;
        written = omega arith;
        small = v.small;
        block = omega (
          arith,
          length-append (take b.write_pos b.mem) (bytes ++ drop (b.write_pos + length bytes) b.mem),
          length-append bytes (drop (b.write_pos + length bytes) b.mem),
          length-take b.write_pos b.mem,
          length-drop (b.write_pos + length bytes) b.mem,
          v.block,
        );
      };
      holds =
          take-drop-written b.read_pos b.write_pos (length bytes) b.mem bytes
            (drop (b.write_pos + length bytes) b.mem) v.ordered (omega arith) refl;
    }

-- The byte list after `pushData`, and what it returns: a null pointer, no bytes, and bytes with
-- which `MaxBufferSize` would be reached add nothing.
unfoldable pub push_result : List Byte → Option (List Byte) → ℕ × List Byte
push_result xs none = (0, xs)
push_result xs (some bytes) =
    if leb max_buffer_size (length xs + length bytes) then (0, xs) else (length bytes, xs ++ bytes)

-- The byte list after `popData`, and the bytes that it gives out, from the front.
unfoldable pub pop_result : Bool → List Byte → ℕ → List Byte × List Byte
pop_result true xs size = ([], xs)
pop_result false xs size = (take size xs, drop size xs)

-- `push_data` past its guards.
push_some :
    (b : Buffer) (bytes : List Byte)
    → IsValid b
    → 0 < length bytes
    → length bytes < 2 ^ 63
    → Returns
        (push_data b (some bytes))
        (push_result (contents b) (some bytes)).0
        (push_result (contents b) (some bytes)).1
unfolding push_data push_result
push_some b bytes v lo hi =
    elim (Bool-cases (leb max_buffer_size (length (contents b) + length bytes))) [
      | inl over ↦ record {
        after = b;
        returned = rw (over, is_some, sum, over);
        valid = v;
        holds = rw over;
      }
      | inr fits ↦
          let a = assure_space_lem b (length bytes) v (ground arith) in
          let p = pushed a.after bytes a.valid a.room in
          record {
            after = p.after;
            returned = rw (fits, is_some, sum, fits, a.returned) p.returned;
            valid = p.valid;
            holds = rw fits (p.holds ∙ ap (λ xs. xs ++ bytes) a.kept);
          }
    ]
  where
    is_some : (length bytes == 0) ≡ false
    is_some = ground arith

    sum : add64 (readable_size b) (length bytes) ≡ length (contents b) + length bytes
    sum = omega (arith, readable_size_lem b v, length-contents b v)

-- `pushData` returns for every valid buffer and every block of fewer than `2 ^ 63` bytes: it appends
-- the bytes and returns their number, or refuses them and returns 0, as `push_result` says, and
-- keeps the invariant.
pub push_data_lem :
    (b : Buffer) (source : Option (List Byte))
    → IsValid b
    → ((bytes : List Byte) → source ≡ some bytes → length bytes < 2 ^ 63)
    → Returns
        (push_data b source)
        (push_result (contents b) source).0
        (push_result (contents b) source).1
push_data_lem b none v h =
    unfold push_data push_result in record { after = b; returned = refl; valid = v; holds = refl }
push_data_lem b (some []) v h =
    unfold push_data push_result in
    record {
      after = b;
      returned = ground arith;
      valid = v;
      holds = ground (arith, append-nil (contents b));
    }
push_data_lem b (some (x ∷ bytes)) v h =
    push_some b (x ∷ bytes) v (omega arith) (h (x ∷ bytes) refl)

-- `consume` moves past bytes that are there; past the last one it starts over at the front.
pub consume_lem :
    (b : Buffer) (n : ℕ)
    → IsValid b
    → n ≤ length (contents b)
    → (after : Buffer) × (consume b n ≡ some after)
      × IsValid after
      × (contents after ≡ drop n (contents b))
unfolding consume empty clear
consume_lem b n v h = elim (Bool-cases (b.write_pos == b.read_pos + n)) [
  | inl all_read ↦ (
    record b { read_pos = 0; write_pos = 0 },
    rw (moved, inside) (ground (arith, length-contents b v)),
    record { ordered = omega arith; written = omega arith; small = v.small; block = v.block },
    sym (drop_all n (contents b) (ground (arith, length-contents b v))),
  )
  | inr some_left ↦ (
    record b { read_pos = b.read_pos + n },
    rw (moved, inside) (ground (arith, length-contents b v)),
    record {
      ordered = omega (arith, length-contents b v);
      written = v.written;
      small = v.small;
      block = v.block;
    },
    sym (
        drop-take n (b.write_pos - b.read_pos) (drop b.read_pos b.mem)
        ∙ rw (drop-drop n b.read_pos b.mem)
            (ap (λ k. take k (drop (b.read_pos + n) b.mem)) (omega arith))),
  )
]
  where
    moved : (b.read_pos + n) % 2 ^ 64 ≡ b.read_pos + n
    moved = omega (arith, length-contents b v)

    inside : leb (b.read_pos + n) b.write_pos ≡ true
    inside = ground (arith, length-contents b v)

-- `popData` returns for every valid buffer: it gives out the first bytes, as many as were asked for
-- and are there, and keeps the others in order.
pub pop_data_lem :
    (is_null : Bool) (b : Buffer) (size : ℕ)
    → IsValid b
    → Returns
        (pop_data is_null b size)
        (pop_result is_null (contents b) size).0
        (pop_result is_null (contents b) size).1
unfolding pop_data pop_result
pop_data_lem true b size v = record { after = b; returned = refl; valid = v; holds = refl }
pop_data_lem false b zero v = record { after = b; returned = ground arith; valid = v; holds = refl }
pop_data_lem false b (suc k) v = elim (Bool-cases (readable_size b == 0)) [
  | inl nothing ↦
      let e : contents b ≡ [] =
        nil_of_length (contents b) (ground (arith, readable_size_lem b v)) in
      record { after = b; returned = rw (not_zero k, nothing) (rw e); valid = v; holds = rw e }
  | inr some_there ↦ elim (Bool-cases (ltb (readable_size b) (suc k))) [
    | inl fewer ↦
        let e : length (contents b) ≤ suc k = ground (arith, readable_size_lem b v) in
        let c = consume_lem b (readable_size b) v (omega (arith, readable_size_lem b v)) in
        record {
          after = c.0;
          returned =
              rw (not_zero k, some_there, fewer, copy_out-contents b v, c.1)
                (rw (take_all (suc k) (contents b) e));
          valid = c.2;
          holds =
              c.3
              ∙ drop_all (readable_size b) (contents b) (omega (arith, readable_size_lem b v))
              ∙ sym (drop_all (suc k) (contents b) e);
        }
    | inr enough ↦
        let e : suc k ≤ length (contents b) = ground (arith, readable_size_lem b v) in
        let c = consume_lem b (suc k) v e in
        record {
          after = c.0;
          returned = rw (not_zero k, some_there, enough, copied k e, c.1);
          valid = c.2;
          holds = c.3;
        }
  ]
]
  where
    not_zero : (k : ℕ) → (suc k == 0) ≡ false
    not_zero k = ground arith

    copied :
        (k : ℕ)
        → suc k ≤ length (contents b)
        → copy_out b.mem b.read_pos (suc k) ≡ some (take (suc k) (contents b))
    copied k e =
        rw
          (take-take (suc k) (b.write_pos - b.read_pos) (drop b.read_pos b.mem)
            (omega (arith, length-contents b v)))
          (copy_out_lem b.mem b.read_pos (suc k) (omega (arith, length-contents b v)))
