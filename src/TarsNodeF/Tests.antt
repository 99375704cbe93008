-- ===== src/TarsNodeF/Tests.antt =====
-- Beats of two adapters and of the administration's.
use tarsx.Prelude.{
  ℕ, ◌+◌, ◌≡◌, refl, true, some, List, [], ◌∷◌, ◌++◌, map, if◌then◌else◌, Text, codes, same_text,
}
use tarsx.Servants.{one_if}
use tarsx.TarsNodeF.{TarsNodeFHelper, report, keep_alive_each}
use tarsx.TarsNodeF.Reports.{times, is_in, Sorted, keep_alive_each_lem}

abbrev helper : TarsNodeFHelper
helper = record {
  node_proxy = some (codes "127.0.0.1", 19386);
  adapter_set = [];
  application = codes "TestApp";
  server_name = codes "Hello";
  pid = 7;
  told = [];
}

abbrev digit : ℕ → Text
digit n = (48 + n) ∷ []

abbrev beats : List Text
beats = codes "Hello" ∷ codes "Again" ∷ codes "Hello" ∷ []

keep_alive_each_lem_example :
    (names : List Text) × (keep_alive_each digit (beats ++ codes "AdminAdapter" ∷ []) helper
      ≡ record helper { adapter_set = []; told = map (report digit helper) names })
    × Sorted names
    × ((x : Text)
        → times x names
          ≡ one_if (if same_text x (codes "AdminAdapter") then true else is_in x beats))
unfolding same_text
keep_alive_each_lem_example =
    keep_alive_each_lem digit beats helper (codes "127.0.0.1", 19386) refl refl
      (refl, (refl, (refl, tt)))
