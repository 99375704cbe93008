-- ===== src/Connection/Slices.antt =====
-- What `adjustSlices` leaves to be sent.
use tarsx.Prelude.{
  ℕ, suc, ◌+◌, ◌-◌, ◌≤◌, ◌<◌, ◌≡◌, refl, ap, ◌∙◌, some, List, [], ◌∷◌, ◌++◌, append_assoc, arith,
  length, take, drop, length-append, length-take, length-drop, drop-take,
}
use tarsx.Connection.{Slice, shift, adjust_slices}

-- The bytes of the slices, which `writev` is given.
abbrev pub pending : List Slice → List ℕ
pending [] = []
pending (s ∷ slices) = take s.data_len s.block ++ pending slices

-- Every slice has bytes, and its block holds them.
abbrev pub AllFilled : List Slice → Type 0
AllFilled [] = Unit
AllFilled (s ∷ slices) = (0 < s.data_len) × (s.data_len ≤ length s.block) × AllFilled slices

length-own :
    (s : Slice) → s.data_len ≤ length s.block → length (take s.data_len s.block) ≡ s.data_len
length-own s h = omega (arith, length-take s.data_len s.block)

keep_all : (ys : List Slice) → AllFilled ys → adjust_slices ys 0 ≡ some ys
unfolding adjust_slices
keep_all [] f = refl
keep_all (s ∷ ys) f = ground (arith, f.0)

skip :
    (s : Slice) (slices : List Slice) (n : ℕ)
    → 0 < s.data_len
    → s.data_len ≤ n
    → adjust_slices (s ∷ slices) n ≡ adjust_slices slices (n - s.data_len)
unfolding adjust_slices
skip s slices n pos h = ground arith

-- Skipping to a place `n` bytes behind whole slices skips these.
skip_all :
    (xs ys : List Slice) (n : ℕ)
    → AllFilled xs
    → adjust_slices (xs ++ ys) (length (pending xs) + n) ≡ adjust_slices ys n
skip_all [] ys n f = ap (adjust_slices ys) (omega arith)
skip_all (s ∷ xs) ys n f =
    skip s (xs ++ ys) (length (pending (s ∷ xs)) + n) f.0
      (omega (arith, length-append (take s.data_len s.block) (pending xs), length-own s f.1))
    ∙ ap (adjust_slices (xs ++ ys))
        (omega (arith, length-append (take s.data_len s.block) (pending xs), length-own s f.1))
    ∙ skip_all xs ys n f.2

-- After a write that ended between two slices, the slices behind that place are left, as they were.
adjust_slices-boundary :
    (xs ys : List Slice)
    → AllFilled xs
    → AllFilled ys
    → adjust_slices (xs ++ ys) (length (pending xs)) ≡ some ys
adjust_slices-boundary xs ys f g =
    ap (adjust_slices (xs ++ ys)) (omega arith) ∙ skip_all xs ys 0 f ∙ keep_all ys g

take-past : (xs ys : List ℕ) (n : ℕ) → take (length xs + n) (xs ++ ys) ≡ xs ++ take n ys
take-past [] ys n = ap (λ m. take m ys) (omega arith)
take-past (x ∷ xs) ys n =
    ap (λ m. take m (x ∷ (xs ++ ys))) {x = suc (length xs) + n} {y = suc (length xs + n)}
      (omega arith)
    ∙ ap (λ zs. x ∷ zs) (take-past xs ys n)

-- A slice whose block was moved and whose length was kept.
shifted_lem :
    (k : ℕ) (s : Slice)
    → k < s.data_len
    → s.data_len ≤ length s.block
    → take s.data_len (shift k s)
      ≡ drop k (take s.data_len s.block) ++ drop (s.data_len - k) (take s.data_len s.block)
unfolding shift
shifted_lem k s h f =
    ap (λ n. take n (shift k s)) (omega (arith, front))
    ∙ take-past (take (s.data_len - k) (drop k s.block)) (drop (s.data_len - k) s.block) k
    ∙ rw (drop-take k s.data_len s.block, drop-take (s.data_len - k) s.data_len s.block)
        (ap (λ n. take (s.data_len - k) (drop k s.block) ++ take n (drop (s.data_len - k) s.block))
          (omega arith))
  where
    front : length (take (s.data_len - k) (drop k s.block)) ≡ s.data_len - k
    front = omega (arith, length-take (s.data_len - k) (drop k s.block), length-drop k s.block)

stop_inside :
    (k : ℕ) (s : Slice) (ys : List Slice)
    → 0 < k
    → k < s.data_len
    → adjust_slices (s ∷ ys) k ≡ some (record s { block = shift k s } ∷ ys)
unfolding adjust_slices
stop_inside k s ys pos h = ground arith

-- After a write that ended `k` bytes inside a slice, that slice's remaining bytes are left, but then
-- its last `k` bytes once more, before those of the other slices.
pub adjust_slices-inside :
    (xs : List Slice) (s : Slice) (ys : List Slice) (k : ℕ)
    → AllFilled (xs ++ s ∷ ys)
    → 0 < k
    → k < s.data_len
    → (left : List Slice) × (adjust_slices (xs ++ s ∷ ys) (length (pending xs) + k) ≡ some left)
      × (pending left
          ≡ drop k (take s.data_len s.block)
            ++ (drop (s.data_len - k) (take s.data_len s.block) ++ pending ys))
adjust_slices-inside xs s ys k f pos h = (
  record s { block = shift k s } ∷ ys,
  skip_all xs (s ∷ ys) k (AllFilled-front xs (s ∷ ys) f) ∙ stop_inside k s ys pos h,
  ap (λ zs. zs ++ pending ys) (shifted_lem k s h (AllFilled-back xs (s ∷ ys) f).1)
      ∙ append_assoc (drop k (take s.data_len s.block))
          (drop (s.data_len - k) (take s.data_len s.block)) (pending ys),
)
  where
    AllFilled-front : (xs ys : List Slice) → AllFilled (xs ++ ys) → AllFilled xs
    AllFilled-front [] ys f = tt
    AllFilled-front (x ∷ xs) ys f = (f.0, f.1, AllFilled-front xs ys f.2)

    AllFilled-back : (xs ys : List Slice) → AllFilled (xs ++ ys) → AllFilled ys
    AllFilled-back [] ys f = f
    AllFilled-back (x ∷ xs) ys f = AllFilled-back xs ys f.2
