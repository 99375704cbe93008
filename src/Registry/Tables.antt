-- ===== src/Registry/Tables.antt =====
-- What the tables hold after they were written.
use tarsx.Prelude.{
  ℕ, ◌≡◌, refl, sym, ap, ◌∙◌, inl, inr, true, false, none, some, List, [], ◌∷◌, Bool-cases,
  Option-cases, Text, same_text, same_text_self, same_text-eq, look_up, put_at, look_up-put_at,
  look_up-put_other,
}
use tarsx.Registry.{
  Registry, set_of, servant_set, touch_name, has_address, add_servant_address, del_servant_address,
  ServantHelperManager, add_servant, set_adapter_servant, get_adapter_servant, get_servant_adapter,
}

put_empty :
    (k n : Text) (m : List (Text × List (Text × ℕ)))
    → look_up k m ≡ none
    → set_of (look_up n (put_at k [] m)) ≡ set_of (look_up n m)
put_empty k n m e = elim (Bool-cases (same_text k n)) [
  | inl same ↦
      let eq = same_text-eq k n same in
      ap set_of (ap (λ x. look_up x (put_at k [] m)) (sym eq) ∙ look_up-put_at k [] m)
      ∙ sym (ap set_of (ap (λ x. look_up x m) (sym eq) ∙ e))
  | inr other ↦ ap set_of (
      look_up-put_other k n [] m (λ eq.
        let no : false ≡ true = sym other ∙ ap (same_text k) (sym eq) ∙ same_text_self k in cc))
]

touch_missing :
    (name : Text) (r : Registry)
    → look_up name r.all_servants ≡ none
    → touch_name name r ≡ record { all_servants = put_at name [] r.all_servants }
unfolding touch_name
touch_missing name r e = rw (e, touch_name)

touch_known :
    (name : Text) (r : Registry) (s : List (Text × ℕ))
    → look_up name r.all_servants ≡ some s
    → touch_name name r ≡ r
unfolding touch_name
touch_known name r s e = rw (e, touch_name)

servant_set-touch_name :
    (name n : Text) (r : Registry) → servant_set n (touch_name name r) ≡ servant_set n r
unfolding servant_set
servant_set-touch_name name n r = elim (Option-cases (look_up name r.all_servants)) [
  | inl missing ↦ rw (touch_missing name r missing) (put_empty name n r.all_servants missing)
  | inr (s, known) ↦ rw (touch_known name r s known) refl
]

-- Registrations, one after the other.
unfoldable pub add_all : List (Text × Text × ℕ) → Registry → Registry
add_all [] r = r
add_all ((name, ip, port) ∷ as') r = add_all as' (add_servant_address name ip port r).1

servant_set-add_all :
    (as' : List (Text × Text × ℕ)) (n : Text) (r : Registry)
    → servant_set n (add_all as' r) ≡ servant_set n r
unfolding add_all add_servant_address
servant_set-add_all [] n r = refl
servant_set-add_all ((name, ip, port) ∷ as') n r =
    servant_set-add_all as' n (touch_name name r) ∙ servant_set-touch_name name n r

-- Whatever was registered with `addServantAddress` on a registry that was new, to delete any address,
-- also one of those, erases the end of a set.
pub del_servant_address-add_all :
    (as' : List (Text × Text × ℕ)) (name ip : Text) (port : ℕ)
    → del_servant_address name ip port (add_all as' (record { all_servants = [] })) ≡ none
unfolding del_servant_address
del_servant_address-add_all as' name ip port =
    rw (servant_set-add_all as' name (record { all_servants = [] }))
      (unfold servant_set has_address look_up in refl)

-- An adapter and a servant that were set together are found from each other; and `addServant` with
-- its check then throws that the adapter was not found.
set_adapter_servant_lem :
    (adapter servant : Text) (func : ℕ) (m : ServantHelperManager)
    → (get_adapter_servant adapter (set_adapter_servant adapter servant m) ≡ some servant)
      × (get_servant_adapter servant (set_adapter_servant adapter servant m) ≡ some adapter)
      × (add_servant servant func true (set_adapter_servant adapter servant m) ≡ none)
unfolding get_adapter_servant get_servant_adapter set_adapter_servant add_servant
set_adapter_servant_lem adapter servant func m = (
  look_up-put_at adapter servant m.adapter_servant,
  look_up-put_at servant adapter m.servant_adapter,
  simp (look_up-put_at servant adapter m.servant_adapter),
)
