-- ===== src/Prelude/Multimap.antt =====
-- `std::multimap` over numbers, as the list of its nodes in the order of its iterators. An insertion
-- goes behind the nodes with an equal key.
use Prim.Native.Nat.{ℕ, ◌≤◌}
use mathlib.Core.List.{List, [], ◌∷◌}
use native.Mathlib.Omega.{arith}
use tarsx.Prelude.Tests.{ltb, if◌then◌else◌}

module _ {A : Type 0} where
  unfoldable pub insert : ℕ → A → List (ℕ × A) → List (ℕ × A)
  insert k v [] = (k, v) ∷ []
  insert k v ((j, w) ∷ m) = if ltb k j then (k, v) ∷ (j, w) ∷ m else (j, w) ∷ insert k v m

  -- The keys do not fall.
  abbrev pub Above : ℕ → List (ℕ × A) → Type 0
  Above n [] = Unit
  Above n ((j, w) ∷ m) = (n ≤ j) × Above j m

  pub insert-Above :
      (n k : ℕ) (v : A) (m : List (ℕ × A)) → n ≤ k → Above n m → Above n (insert k v m)
  unfolding insert
  insert-Above n k v [] h a = (h, tt)
  insert-Above n k v ((j, w) ∷ m) h a = ground (arith, insert-Above j k v m)

  pub Above-mono : (m n : ℕ) (xs : List (ℕ × A)) → m ≤ n → Above n xs → Above m xs
  Above-mono m n [] h a = tt
  Above-mono m n ((j, w) ∷ xs) h a = (omega arith, a.1)
