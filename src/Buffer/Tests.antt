-- ===== src/Buffer/Tests.antt =====
-- The buffer's theorems at a small buffer.
use tarsx.Prelude.{ℕ, ◌≡◌, refl, ap, Option, false, none, some, List, [], ◌∷◌, arith, length}
use tarsx.Buffer.{Byte, Buffer}
use tarsx.Buffer.Inv.{IsValid}
use tarsx.Buffer.Contents.{push_result, pop_result}
use tarsx.Buffer.Queue.{
  Call, pushes, pops, peeks, sizes, consumes, assures, AllAllowed, queue_step, run, queue_run,
  run_refines,
}

-- The bytes 11 and 12 in a block of four, behind one that was consumed.
abbrev held : Buffer
held = record {
  read_pos = 1;
  write_pos = 3;
  capacity = 4;
  mem = some 10 ∷ some 11 ∷ some 12 ∷ none ∷ [];
  high_water_percent = 50;
}

held-IsValid : IsValid held
held-IsValid = record {
  ordered = omega arith;
  written = omega arith;
  small = omega arith;
  block = refl;
}

abbrev script : List Call
script =
    pushes (some (some 13 ∷ some 14 ∷ []))
    ∷ sizes
    ∷ consumes 1
    ∷ pops false 2
    ∷ assures 9
    ∷ peeks
    ∷ []

abbrev given_length : Option (List Byte) → ℕ
given_length none = 0
given_length (some bytes) = length bytes

script-AllAllowed : AllAllowed (some 11 ∷ some 12 ∷ []) script
script-AllAllowed =
    unfold queue_step push_result pop_result in
    (
      (λ given e. omega (arith, ap given_length e)),
      (tt, (omega arith, (tt, (omega arith, (tt, tt))))),
    )

run_refines_example : run held script ≡ some (queue_run (some 11 ∷ some 12 ∷ []) script)
run_refines_example =
    run_refines held (some 11 ∷ some 12 ∷ []) script held-IsValid refl script-AllAllowed
