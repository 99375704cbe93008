-- ===== src/NetThread/Lookups.antt =====
-- How `connectionUids_[uid]`, the assignment to it and `erase` go together.
use tarsx.Prelude.{ℕ, ◌≤◌, ◌≡◌, ◌≢◌, refl, subst, Option, none, List, [], ◌∷◌, arith, ℕ_discrete}
use tarsx.NetThread.{Connection, lookup, touch, assign, erase_uid}
use tarsx.NetThread.Closed.{keys, keys-touch, lookup_absent}

pub lookup-touch : (u v : ℕ) (m : List (ℕ × Option Connection)) → lookup u (touch v m) ≡ lookup u m
unfolding lookup touch
lookup-touch u v [] = ground arith
lookup-touch u v ((j, c) ∷ m) = ground (arith, lookup-touch u v m)

keys-touch_ne : (u v : ℕ) (m : List (ℕ × Option Connection)) → u ≢ v → keys u (touch v m) ≡ keys u m
unfolding touch
keys-touch_ne u v [] h = ground arith
keys-touch_ne u v ((j, c) ∷ m) h = ground (arith, keys-touch_ne u v m h)

pub keys-touch_le :
    (u v : ℕ) (m : List (ℕ × Option Connection)) → keys u m ≤ 1 → keys u (touch v m) ≤ 1
keys-touch_le u v m h = elim (ℕ_discrete u v) [
  | yes same ↦ subst (λ w. keys u (touch w m) ≤ 1) same (omega (arith, keys-touch u m h))
  | no other ↦ omega (arith, keys-touch_ne u v m other)
]

pub lookup-assign_self :
    (u : ℕ) (c : Option Connection) (m : List (ℕ × Option Connection)) → lookup u (assign u c m) ≡ c
unfolding lookup assign
lookup-assign_self u c [] = ground arith
lookup-assign_self u c ((j, d) ∷ m) = ground (arith, lookup-assign_self u c m)

pub lookup-assign_ne :
    (u v : ℕ) (c : Option Connection) (m : List (ℕ × Option Connection))
    → u ≢ v
    → lookup u (assign v c m) ≡ lookup u m
unfolding lookup assign
lookup-assign_ne u v c [] h = ground arith
lookup-assign_ne u v c ((j, d) ∷ m) h = ground (arith, lookup-assign_ne u v c m h)

keys-assign_ne :
    (u v : ℕ) (c : Option Connection) (m : List (ℕ × Option Connection))
    → u ≢ v
    → keys u (assign v c m) ≡ keys u m
unfolding assign
keys-assign_ne u v c [] h = ground arith
keys-assign_ne u v c ((j, d) ∷ m) h = ground (arith, keys-assign_ne u v c m h)

keys-assign_self :
    (u : ℕ) (c : Option Connection) (m : List (ℕ × Option Connection))
    → keys u m ≤ 1
    → keys u (assign u c m) ≡ 1
unfolding assign
keys-assign_self u c [] h = ground arith
keys-assign_self u c ((j, d) ∷ m) h = ground (arith, keys-assign_self u c m)

pub keys-assign_le :
    (u v : ℕ) (c : Option Connection) (m : List (ℕ × Option Connection))
    → keys u m ≤ 1
    → keys u (assign v c m) ≤ 1
keys-assign_le u v c m h = elim (ℕ_discrete u v) [
  | yes same ↦ subst (λ w. keys u (assign w c m) ≤ 1) same (omega (arith, keys-assign_self u c m h))
  | no other ↦ omega (arith, keys-assign_ne u v c m other)
]

pub keys-erase_le : (u v : ℕ) (m : List (ℕ × Option Connection)) → keys u (erase_uid v m) ≤ keys u m
unfolding erase_uid
keys-erase_le u v [] = ground arith
keys-erase_le u v ((j, d) ∷ m) = ground (arith, keys-erase_le u v m)

pub lookup-erase_ne :
    (u v : ℕ) (m : List (ℕ × Option Connection)) → u ≢ v → lookup u (erase_uid v m) ≡ lookup u m
unfolding lookup erase_uid
lookup-erase_ne u v [] h = refl
lookup-erase_ne u v ((j, d) ∷ m) h = ground (arith, lookup-erase_ne u v m h)

pub lookup-erase_self :
    (u : ℕ) (m : List (ℕ × Option Connection)) → keys u m ≤ 1 → lookup u (erase_uid u m) ≡ none
unfolding lookup erase_uid
lookup-erase_self u [] h = refl
lookup-erase_self u ((j, d) ∷ m) h = ground (arith, lookup-erase_self u m, lookup_absent u m)
