-- ===== src/TarsNodeF/Reports.antt =====
-- Which adapters a node is told of.
use tarsx.Prelude.{
  ℕ, suc, ◌≡◌, refl, sym, ap, subst, ◌∙◌, inl, inr, Bool, true, false, Option, none, some, List, [],
  ◌∷◌, ◌++◌, arith, if◌then◌else◌, map, Bool-cases, Text, codes, same_text, same_text_self,
  same_text-eq,
}
use tarsx.Servants.{less_text, one_if}
use tarsx.Servants.Methods.{less_text_irrefl, less_text_total}
use tarsx.TarsNodeF.{TarsNodeFHelper, insert_name, report, beat, keep_alive, keep_alive_each}

less_text_trans :
    (xs ys zs : Text) → less_text xs ys ≡ true → less_text ys zs ≡ true → less_text xs zs ≡ true
unfolding less_text
less_text_trans [] [] zs h k = cc
less_text_trans [] (y ∷ ys) [] h k = cc
less_text_trans [] (y ∷ ys) (z ∷ zs) h k = refl
less_text_trans (x ∷ xs) [] zs h k = cc
less_text_trans (x ∷ xs) (y ∷ ys) [] h k = cc
less_text_trans (x ∷ xs) (y ∷ ys) (z ∷ zs) h k = ground (arith, less_text_trans xs ys zs)

-- How often a name is in a list, and whether it is.
abbrev pub times : Text → List Text → ℕ
times x [] = 0
times x (y ∷ ys) = if same_text x y then suc (times x ys) else times x ys

abbrev pub is_in : Text → List Text → Bool
is_in x [] = false
is_in x (y ∷ ys) = if same_text x y then true else is_in x ys

abbrev Above : Text → List Text → Type 0
Above a [] = Unit
Above a (b ∷ s) = (less_text a b ≡ true) × Above a s

abbrev pub Sorted : List Text → Type 0
Sorted [] = Unit
Sorted (a ∷ s) = Above a s × Sorted s

Above-trans : (a b : Text) (s : List Text) → less_text a b ≡ true → Above b s → Above a s
Above-trans a b [] h v = tt
Above-trans a b (c ∷ s) h v = (less_text_trans a b c h v.0, Above-trans a b s h v.1)

less-ne : (a b : Text) → less_text a b ≡ true → same_text a b ≡ false
less-ne a b h = elim (Bool-cases (same_text a b)) [
  | inl same ↦
      let eq : a ≡ b = same_text-eq a b same in
      let no = sym h ∙ ap (λ x. less_text x b) eq ∙ less_text_irrefl b in cc
  | inr other ↦ other
]

times-Above : (a : Text) (s : List Text) → Above a s → times a s ≡ 0
times-Above a [] v = refl
times-Above a (b ∷ s) v = rw (less-ne a b v.0) (times-Above a s v.1)

Above-insert :
    (b a : Text) (s : List Text) → less_text b a ≡ true → Above b s → Above b (insert_name a s)
unfolding insert_name
Above-insert b a [] h v = (h, tt)
Above-insert b a (c ∷ s) h v = elim (Bool-cases (same_text a c)) [
  | inl same ↦ rw same v
  | inr other ↦ elim (Bool-cases (less_text a c)) [
    | inl less ↦ rw (other, less) (h, v)
    | inr more ↦ rw (other, more) (v.0, Above-insert b a s h v.1)
  ]
]

greater : (a b : Text) → same_text a b ≡ false → less_text a b ≡ false → less_text b a ≡ true
greater a b h k = elim (Bool-cases (less_text b a)) [
  | inl less ↦ less
  | inr le ↦ let no = sym h ∙ less_text_total a b k le in cc
]

insert-Sorted : (a : Text) (s : List Text) → Sorted s → Sorted (insert_name a s)
unfolding insert_name
insert-Sorted a [] v = (tt, tt)
insert-Sorted a (b ∷ s) v = elim (Bool-cases (same_text a b)) [
  | inl same ↦ rw same v
  | inr other ↦ elim (Bool-cases (less_text a b)) [
    | inl less ↦ rw (other, less) ((less, Above-trans a b s less v.0), v)
    | inr more ↦
        rw (other, more) (Above-insert b a s (greater a b other more) v.0, insert-Sorted a s v.1)
  ]
]

same_text-sym : (a b : Text) → same_text a b ≡ same_text b a
unfolding same_text
same_text-sym [] [] = refl
same_text-sym [] (y ∷ ys) = refl
same_text-sym (x ∷ xs) [] = refl
same_text-sym (x ∷ xs) (y ∷ ys) = ground (arith, same_text-sym xs ys)

-- In a set a name is once.
times-Sorted : (x : Text) (s : List Text) → Sorted s → times x s ≡ one_if (is_in x s)
times-Sorted x [] v = refl
times-Sorted x (y ∷ s) v = elim (Bool-cases (same_text x y)) [
  | inl same ↦
      let eq : x ≡ y = same_text-eq x y same in
      rw same (ap suc (ap (λ z. times z s) eq ∙ times-Above y s v.0))
  | inr other ↦ rw other (times-Sorted x s v.1)
]

is_in-insert :
    (x a : Text) (s : List Text)
    → is_in x (insert_name a s) ≡ (if same_text x a then true else is_in x s)
unfolding insert_name
is_in-insert x a [] = refl
is_in-insert x a (b ∷ s) = elim (Bool-cases (same_text a b)) [
  | inl same ↦
      let eq : a ≡ b = same_text-eq a b same in rw (same, eq) (twice (same_text x b) (is_in x s))
  | inr other ↦ elim (Bool-cases (less_text a b)) [
    | inl less ↦ rw (other, less) refl
    | inr more ↦
        rw (other, more, is_in-insert x a s) (swapped (same_text x b) (same_text x a) (is_in x s))
  ]
]
  where
    twice : (p q : Bool) → (if p then true else q) ≡ (if p then true else if p then true else q)
    twice true q = refl
    twice false q = refl

    swapped :
        (p r q : Bool)
        → (if p then true else if r then true else q) ≡ (if r then true else if p then true else q)
    swapped true true q = refl
    swapped true false q = refl
    swapped false r q = refl

collect : List Text → List Text → List Text
collect [] s = s
collect (b ∷ bs) s = collect bs (insert_name b s)

collect-Sorted : (bs s : List Text) → Sorted s → Sorted (collect bs s)
unfolding collect
collect-Sorted [] s v = v
collect-Sorted (b ∷ bs) s v = collect-Sorted bs (insert_name b s) (insert-Sorted b s v)

is_in-collect :
    (x : Text) (bs s : List Text)
    → is_in x (collect bs s) ≡ (if is_in x bs then true else is_in x s)
unfolding collect
is_in-collect x [] s = refl
is_in-collect x (b ∷ bs) s =
    rw (is_in-collect x bs (insert_name b s), is_in-insert x b s)
      (swapped (same_text x b) (is_in x bs) (is_in x s))
  where
    swapped :
        (p r q : Bool)
        → (if r then true else if p then true else q)
          ≡ (if (if p then true else r) then true else q)
    swapped true true q = refl
    swapped true false q = refl
    swapped false r q = refl

-- None of the names is that of the administration's adapter.
abbrev pub NoAdmin : List Text → Type 0
NoAdmin [] = Unit
NoAdmin (b ∷ bs) = (same_text b (codes "AdminAdapter") ≡ false) × NoAdmin bs

module _ (to_string : ℕ → Text) where
  with_node :
      (b : Text) (h : TarsNodeFHelper) (p : Text × ℕ)
      → h.node_proxy ≡ some p
      → keep_alive to_string b h ≡ beat to_string b h
  unfolding keep_alive
  with_node b h p e =
      subst
        (λ (o : Option (Text × ℕ)).
          (elim o as (λ _. TarsNodeFHelper) [ none ↦ h | some _ ↦ beat to_string b h ])
          ≡ beat to_string b h)
        (sym e) refl

  beat_kept :
      (b : Text) (h : TarsNodeFHelper) (p : Text × ℕ)
      → h.node_proxy ≡ some p
      → same_text b (codes "AdminAdapter") ≡ false
      → keep_alive to_string b h ≡ record h { adapter_set = insert_name b h.adapter_set }
  unfolding beat
  beat_kept b h p e f = with_node b h p e ∙ rw f refl

  beat_told :
      (h : TarsNodeFHelper) (p : Text × ℕ)
      → h.node_proxy ≡ some p
      → keep_alive to_string (codes "AdminAdapter") h ≡ record h {
        adapter_set = [];
        told =
            h.told ++ map (report to_string h) (insert_name (codes "AdminAdapter") h.adapter_set);
      }
  unfolding beat
  beat_told h p e =
      with_node (codes "AdminAdapter") h p e ∙ rw (same_text_self (codes "AdminAdapter")) refl

  told_of :
      (bs : List Text) (h : TarsNodeFHelper) (p : Text × ℕ)
      → h.node_proxy ≡ some p
      → NoAdmin bs
      → keep_alive_each to_string (bs ++ codes "AdminAdapter" ∷ []) h ≡ record h {
        adapter_set = [];
        told =
            h.told
            ++ map
                (report to_string h)
                (insert_name (codes "AdminAdapter") (collect bs h.adapter_set));
      }
  unfolding keep_alive_each collect report
  told_of [] h p e n = beat_told h p e
  told_of (b ∷ bs) h p e n =
      ap (keep_alive_each to_string (bs ++ codes "AdminAdapter" ∷ [])) (beat_kept b h p e n.0)
      ∙ told_of bs (record h { adapter_set = insert_name b h.adapter_set }) p e n.1

  -- Where the node is known and no beat is pending, the beats of adapters up to one of the
  -- administration's adapter are told to the node by that one: every adapter that beat, and the
  -- administration's, just once, in the order of their names, and no other one; and no beat is
  -- pending then.
  pub keep_alive_each_lem :
      (bs : List Text) (h : TarsNodeFHelper) (p : Text × ℕ)
      → h.node_proxy ≡ some p
      → h.adapter_set ≡ []
      → NoAdmin bs
      → (names : List Text) × (keep_alive_each to_string (bs ++ codes "AdminAdapter" ∷ []) h
          ≡ record h { adapter_set = []; told = h.told ++ map (report to_string h) names })
        × Sorted names
        × ((x : Text)
            → times x names
              ≡ one_if (if same_text x (codes "AdminAdapter") then true else is_in x bs))
  keep_alive_each_lem bs h p e f n =
      let sorted =
        insert-Sorted (codes "AdminAdapter") (collect bs h.adapter_set)
          (collect-Sorted bs h.adapter_set (subst Sorted (sym f) tt)) in
      (
        insert_name (codes "AdminAdapter") (collect bs h.adapter_set),
        told_of bs h p e n,
        sorted,
        λ x.
            times-Sorted x _ sorted
            ∙ ap one_if (
                is_in-insert x (codes "AdminAdapter") (collect bs h.adapter_set)
                ∙ ap (λ b. if same_text x (codes "AdminAdapter") then true else b)
                    (is_in-collect x bs h.adapter_set
                      ∙ ap (λ s. if is_in x bs then true else is_in x s) f
                      ∙ as_is (is_in x bs))),
      )
    where
      as_is : (r : Bool) → (if r then true else false) ≡ r
      as_is true = refl
      as_is false = refl
