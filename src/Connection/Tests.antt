-- ===== src/Connection/Tests.antt =====
-- The theorems of the connection at small requests and slices.
use tarsx.Prelude.{ℕ, ◌+◌, ◌≤◌, ◌≡◌, refl, min, none, some, List, [], ◌∷◌, arith}
use tarsx.Buffer.{Byte, Buffer, init}
use tarsx.Buffer.Inv.{IsValid}
use tarsx.Connection.{Read, received, htonl, req_data, frame_loop, Slice, adjust_slices}
use tarsx.Connection.Frames.{Framed, frame, frame_loop_lem}
use tarsx.Connection.Stream.{recv_all, taken}
use tarsx.Connection.Slices.{pending, adjust_slices-inside}
use tarsx.Connection.Send.{Written, wrote, total, all_positive, send_slices}
use tarsx.Connection.Send.Counts.{Counts, send_slices_lem}
use tarsx.Connection.Wire.{recv_all-sent, frame_loop-negative}

-- Numbers below ten have one digit.
abbrev digit : ℕ → List Byte
digit n = some (48 + n) ∷ []

-- The bytes of the request "a" with the id 1, in two pieces.
abbrev pieces : List (List Read)
pieces =
    (received (some 0 ∷ some 0 ∷ some 0 ∷ []) ∷ [])
    ∷ (received (some 3 ∷ some 58 ∷ some 49 ∷ some 58 ∷ some 97 ∷ []) ∷ [])
    ∷ []

recv_all-sent_example : recv_all pieces init ≡ some ((some 49 ∷ some 58 ∷ some 97 ∷ []) ∷ [])
unfolding req_data htonl taken
recv_all-sent_example =
    recv_all-sent digit ((1, some 97 ∷ []) ∷ []) pieces (omega arith, tt) (omega arith)
      (tt, (tt, tt)) refl

-- A whole frame, of the request 97, and one byte of the next.
abbrev held : Buffer
held = record {
  read_pos = 0;
  write_pos = 7;
  capacity = 7;
  mem = some 0 ∷ some 0 ∷ some 0 ∷ some 1 ∷ some 58 ∷ some 97 ∷ some 0 ∷ [];
  high_water_percent = 50;
}

held-IsValid : IsValid held
held-IsValid = record {
  ordered = omega arith;
  written = omega arith;
  small = omega arith;
  block = refl;
}

frame_loop_lem_example :
    Framed ((some 97 ∷ []) ∷ [] ∷ []) (some 0 ∷ some 0 ∷ some 0 ∷ some 58 ∷ []) (frame_loop 8 held)
unfolding frame htonl
frame_loop_lem_example =
    frame_loop_lem 8 ((some 97 ∷ []) ∷ [] ∷ []) held (some 0 ∷ some 0 ∷ some 0 ∷ some 58 ∷ [])
      held-IsValid (omega arith) (omega arith, (omega arith, tt)) refl

-- The four bytes of -5.
abbrev minus_five : Buffer
minus_five = record {
  read_pos = 0;
  write_pos = 4;
  capacity = 4;
  mem = some 255 ∷ some 255 ∷ some 255 ∷ some 251 ∷ [];
  high_water_percent = 50;
}

minus_five-IsValid : IsValid minus_five
minus_five-IsValid = record {
  ordered = omega arith;
  written = omega arith;
  small = omega arith;
  block = refl;
}

frame_loop-negative_example : frame_loop 5 minus_five ≡ none
unfolding htonl
frame_loop-negative_example =
    frame_loop-negative 4 4294967291 minus_five minus_five-IsValid (omega arith) refl (omega arith)
      (omega arith)

abbrev pair : Slice
pair = record { block = 1 ∷ 2 ∷ 3 ∷ []; data_len = 2 }

abbrev single : Slice
single = record { block = 4 ∷ []; data_len = 1 }

-- After one byte of 1, 2, 4 was sent, 2, 2, 4 is left.
adjust_slices-inside_example :
    (left : List Slice) × (adjust_slices (pair ∷ single ∷ []) 1 ≡ some left)
    × (pending left ≡ 2 ∷ 2 ∷ 4 ∷ [])
adjust_slices-inside_example =
    adjust_slices-inside [] pair (single ∷ []) 1
      (omega arith, omega arith, (omega arith, omega arith, tt)) (omega arith) (omega arith)

-- A `::writev` that takes one byte of what it is given.
abbrev one_byte : List Slice → Written
one_byte group = wrote (min 1 (total group))

one_byte_honest : (group : List Slice) (n : ℕ) → one_byte group ≡ wrote n → n ≤ total group
one_byte_honest group n e = let same : min 1 (total group) ≡ n = cc in omega (arith, same)

send_slices_lem_example :
    Counts one_byte (send_slices one_byte 16 (record { block = 1 ∷ 2 ∷ []; data_len = 2 } ∷ [])) 0 2
send_slices_lem_example =
    send_slices_lem one_byte 16 one_byte_honest (λ group few small e. cc) (omega arith)
      (record { block = 1 ∷ 2 ∷ []; data_len = 2 } ∷ []) (unfold all_positive in refl) (omega arith)
