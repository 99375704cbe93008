-- ===== src/Servants/Methods.antt =====
-- `std::equal_range` over two names, and the order of names that it goes by.
use tarsx.Prelude.{
  ℕ, ◌+◌, ◌≡◌, refl, sym, ◌∙◌, inl, inr, true, false, not, [], ◌∷◌, arith, ◌==◌, if◌then◌else◌,
  Bool-cases, Text, same_text, same_text_self, same_text-eq,
}
use tarsx.Servants.{less_text, one_if, equal_range, dispatch}

pub less_text_irrefl : (xs : Text) → less_text xs xs ≡ false
unfolding less_text
less_text_irrefl [] = refl
less_text_irrefl (x ∷ xs) = ground (arith, less_text_irrefl xs)

less_text_asymm : (xs ys : Text) → less_text xs ys ≡ true → less_text ys xs ≡ false
unfolding less_text
less_text_asymm [] [] h = refl
less_text_asymm [] (y ∷ ys) h = refl
less_text_asymm (x ∷ xs) [] h = cc
less_text_asymm (x ∷ xs) (y ∷ ys) h = ground (arith, less_text_asymm xs ys)

pub less_text_total :
    (xs ys : Text) → less_text xs ys ≡ false → less_text ys xs ≡ false → same_text xs ys ≡ true
unfolding less_text same_text
less_text_total [] [] h k = refl
less_text_total [] (y ∷ ys) h k = cc
less_text_total (x ∷ xs) [] h k = cc
less_text_total (x ∷ xs) (y ∷ ys) h k = ground (arith, less_text_total xs ys)

-- Of two names that differ just one is less.
apart : (xs ys : Text) → same_text xs ys ≡ false → less_text ys xs ≡ not (less_text xs ys)
apart xs ys h = elim (Bool-cases (less_text xs ys)) [
  | inl less ↦ rw less (less_text_asymm xs ys less)
  | inr ge ↦ elim (Bool-cases (less_text ys xs)) [
    | inl greater ↦ rw (ge, greater)
    | inr le ↦ let no = sym h ∙ less_text_total xs ys ge le in cc
  ]
]

module _ {ℓ} {A : Type ℓ} where
  -- The `switch` over two sorted names takes the case of the method's name, and no other one.
  pub dispatch-equal_range :
      (a b m : Text) (unknown case0 case1 past : A)
      → less_text a b ≡ true
      → dispatch (equal_range a b m) unknown case0 case1 past
        ≡ (if same_text m a then case0 else if same_text m b then case1 else unknown)
  unfolding dispatch equal_range
  dispatch-equal_range a b m unknown case0 case1 past h = elim (Bool-cases (same_text m a)) [
    | inl first ↦
        let eq : m ≡ a = same_text-eq m a first in
        rw (eq, less_text_irrefl a, less_text_asymm a b h, h, same_text_self a) refl
    | inr other ↦ elim (Bool-cases (same_text m b)) [
      | inl second ↦
          let eq : m ≡ b = same_text-eq m b second in
          rw (other, second) (rw (eq, less_text_irrefl b, less_text_asymm a b h, h) refl)
      | inr neither ↦
          rw (other, neither, apart m a other, apart m b neither)
            (rw (==-refl (one_if (not (less_text m a)) + one_if (not (less_text m b)))) refl)
    ]
  ]
    where
      ==-refl : (n : ℕ) → (n == n) ≡ true
      ==-refl n = ground arith
