-- ===== src/Transceiver/Tests.antt =====
-- Two answers that come in two pieces.
use tarsx.Prelude.{refl, true, some, [], ◌∷◌, arith}
use tarsx.Buffer.{Buffer}
use tarsx.Buffer.Inv.{IsValid}
use tarsx.Transceiver.{got, do_response}
use tarsx.Transceiver.Received.{Answered, unless_empty, do_response_lem}

abbrev nothing : Buffer
nothing = record { read_pos = 0; write_pos = 0; capacity = 0; mem = []; high_water_percent = 50 }

nothing-IsValid : IsValid nothing
nothing-IsValid = record {
  ordered = omega arith;
  written = omega arith;
  small = omega arith;
  block = refl;
}

-- The answers "1:a" and "2:b".
do_response_lem_example :
    Answered
      (record { valid = true; send_buffer = nothing; receive_buffer = nothing })
      (do_response
        (got (some 49) (some 58 ∷ some 97 ∷ []) ∷ got (some 50) (some 58 ∷ some 98 ∷ []) ∷ [])
        (record { valid = true; send_buffer = nothing; receive_buffer = nothing }))
      ((some 49 ∷ some 58 ∷ some 97 ∷ some 50 ∷ some 58 ∷ some 98 ∷ []) ∷ [])
unfolding unless_empty
do_response_lem_example =
    do_response_lem ((some 49, some 58 ∷ some 97 ∷ []) ∷ (some 50, some 58 ∷ some 98 ∷ []) ∷ [])
      (record { valid = true; send_buffer = nothing; receive_buffer = nothing }) nothing-IsValid
      (omega arith)
