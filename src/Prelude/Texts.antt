-- ===== src/Prelude/Texts.antt =====
-- `std::string` as its characters, and `std::map` over such keys as a list of its entries. The order of
-- a map's iterators is never read.
use Prim.Native.Nat.{ℕ}
use Prim.Native.Char.{code}
use Prim.Native.String.{String}
use mathlib.Core.Path.{◌≡◌, refl, sym, ap, ap₂, ◌∙◌}
use mathlib.Core.Logic.{◌≢◌, inl, inr}
use mathlib.Core.Bool.{Bool, true, false}
use mathlib.Core.Option.{Option, none, some}
use mathlib.Core.List.{List, [], ◌∷◌}
use native.Mathlib.Omega.{arith}
use tarsx.Prelude.Tests.{◌==◌, ==_iff, if◌then◌else◌, Bool-cases}

abbrev pub Text : Type 0
Text = List ℕ

-- A literal.
abbrev pub codes : String → List ℕ
codes String.[] = []
codes (String.◌∷◌ c s) = code c ∷ codes s

-- `==` of two strings.
unfoldable pub same_text : Text → Text → Bool
same_text [] [] = true
same_text [] (y ∷ ys) = false
same_text (x ∷ xs) [] = false
same_text (x ∷ xs) (y ∷ ys) = if x == y then same_text xs ys else false

pub same_text_self : (xs : Text) → same_text xs xs ≡ true
unfolding same_text
same_text_self [] = refl
same_text_self (x ∷ xs) = ground (arith, same_text_self xs)

pub same_text-eq : (xs ys : Text) → same_text xs ys ≡ true → xs ≡ ys
unfolding same_text
same_text-eq [] [] e = refl
same_text-eq [] (y ∷ ys) e = cc
same_text-eq (x ∷ xs) [] e = cc
same_text-eq (x ∷ xs) (y ∷ ys) e = elim (Bool-cases (x == y)) [
  | inl same ↦
      let rest = same_text-eq xs ys (sym (step same) ∙ e) in
      ap₂ (λ a as'. a ∷ as') ((==_iff x y).0 same) rest
  | inr other ↦ let no = sym (stop other) ∙ e in cc
]
  where
    step : (x == y) ≡ true → same_text (x ∷ xs) (y ∷ ys) ≡ same_text xs ys
    step f = simp f

    stop : (x == y) ≡ false → same_text (x ∷ xs) (y ∷ ys) ≡ false
    stop f = simp f

pub same_text_ne : (xs ys : Text) → xs ≢ ys → same_text xs ys ≡ false
same_text_ne xs ys h = elim (Bool-cases (same_text xs ys)) [
  | inl same ↦ absurd (h (same_text-eq xs ys same))
  | inr other ↦ other
]

pub differ : (xs ys : Text) → same_text xs ys ≡ false → xs ≢ ys
differ xs ys e same =
    let no : false ≡ true = sym e ∙ ap (same_text xs) (sym same) ∙ same_text_self xs in cc

module _ {A : Type 0} where
  -- `find`.
  unfoldable pub look_up : Text → List (Text × A) → Option A
  look_up k [] = none
  look_up k ((j, v) ∷ m) = if same_text k j then some v else look_up k m

  -- `m[k] = v`.
  unfoldable pub put_at : Text → A → List (Text × A) → List (Text × A)
  put_at k v [] = (k, v) ∷ []
  put_at k v ((j, w) ∷ m) = if same_text k j then (j, v) ∷ m else (j, w) ∷ put_at k v m

  pub look_up-put_at : (k : Text) (v : A) (m : List (Text × A)) → look_up k (put_at k v m) ≡ some v
  unfolding look_up put_at
  look_up-put_at k v [] = rw (same_text_self k)
  look_up-put_at k v ((j, w) ∷ m) = elim (Bool-cases (same_text k j)) [
    | inl same ↦ simp (same)
    | inr other ↦ simp (other, look_up-put_at k v m)
  ]

  pub look_up-put_other :
      (k l : Text) (v : A) (m : List (Text × A)) → k ≢ l → look_up l (put_at k v m) ≡ look_up l m
  unfolding look_up put_at
  look_up-put_other k l v [] h = simp (same_text_ne l k (λ e. h (sym e)))
  look_up-put_other k l v ((j, w) ∷ m) h = elim (Bool-cases (same_text k j)) [
    | inl same ↦
        let far : same_text l j ≡ false =
          same_text_ne l j (λ e. h (same_text-eq k j same ∙ sym e)) in
        simp (same, far)
    | inr other ↦ elim (Bool-cases (same_text l j)) [
      | inl here ↦ simp (other, here)
      | inr on ↦ simp (other, on, look_up-put_other k l v m h)
    ]
  ]
