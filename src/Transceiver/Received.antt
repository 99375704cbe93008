-- ===== src/Transceiver/Received.antt =====
-- What a `doResponse` hands on of what has arrived.
use tarsx.Prelude.{
  ℕ, ◌+◌, ◌*◌, ◌≤◌, ◌<◌, ◌≡◌, refl, sym, ap, ◌∙◌, inl, inr, false, Option, some, List, [], ◌∷◌,
  ◌++◌, append_assoc, append-nil, arith, ltb, leb, ◌==◌, if◌then◌else◌, length, length-append,
  length-take, length-drop, take, drop, drop_all, take_all, leb→le, take-append-drop, Bool-cases,
  >>=-eq-some,
}
use tarsx.Buffer.{Byte, Buffer, empty, writable_size, produce, copy_in, shrink, max_buffer_size}
use tarsx.Buffer.Inv.{
  IsValid, contents, readable_size_lem, writable_size_lem, copy_out-contents, assure_space_lem,
}
use tarsx.Buffer.Contents.{pushed, push_result, push_data_lem, consume_lem}
use tarsx.Transceiver.Sent.{given_length, shrink-empty, empty_lem, none_held}
use tarsx.Transceiver.{
  Arrived, got, Transceiver, write_first, receive_bytes, make_room, receive_loop, take_done,
  do_response,
}

-- What a step leaves in the buffer.
record Holding (o : Option Buffer) (xs : List Byte) : Type 0 where
  after : Buffer
  returned : o ≡ some after
  valid : IsValid after
  holds : contents after ≡ xs

write_lem :
    (b : Buffer) (bytes : List Byte)
    → IsValid b
    → length bytes + b.write_pos ≤ b.capacity
    → Holding (write_first bytes b) (contents b ++ bytes)
unfolding write_first
write_lem b bytes v h =
    let p = pushed b bytes v h in
    let (mem, e, f) = >>=-eq-some (copy_in b.mem b.write_pos bytes) _ p.returned in
    let same : produce (record b { mem = mem }) (length bytes) ≡ p.after = cc in
    record { after = p.after; returned = rw e (ap some same); valid = p.valid; holds = p.holds }

push_small :
    (xs bytes : List Byte)
    → length xs + length bytes < max_buffer_size
    → (push_result xs (some bytes)).1 ≡ xs ++ bytes
unfolding push_result
push_small xs bytes h = ground arith

receive_bytes_lem :
    (bytes : List Byte) (b : Buffer)
    → IsValid b
    → length (contents b) + length bytes + 8192 < max_buffer_size
    → Holding (receive_bytes bytes b) (contents b ++ bytes)
unfolding receive_bytes
receive_bytes_lem bytes b v h =
    let a = assure_space_lem b (8 * 1024) v (omega (arith, h)) in
    let n : ℕ = writable_size a.after in
    let w =
      write_lem a.after (take n bytes) a.valid
        (omega (arith, length-take n bytes, writable_size_lem a.after a.valid, a.valid.written)) in
    elim (Bool-cases (leb (length bytes) n)) [
      | inl fits ↦ record {
        after = w.after;
        returned = rw (a.returned, w.returned, fits);
        valid = w.valid;
        holds =
            w.holds
            ∙ ap (λ xs. contents a.after ++ xs) (take_all n bytes (leb→le (length bytes) n fits))
            ∙ ap (λ xs. xs ++ bytes) a.kept;
      }
      | inr over ↦
          let held : length (contents w.after) ≡ length (contents b) + length (take n bytes) =
            omega (
              arith,
              ap length w.holds,
              ap length a.kept,
              length-append (contents a.after) (take n bytes),
            ) in
          let p =
            push_data_lem w.after (some (drop n bytes)) w.valid
              (λ given e. omega (arith, h, ap given_length e, length-drop n bytes)) in
          record {
            after = p.after;
            returned = rw (a.returned, w.returned, over, p.returned);
            valid = p.valid;
            holds =
                p.holds
                ∙ push_small (contents w.after) (drop n bytes)
                    (omega (arith, h, held, length-take n bytes, length-drop n bytes))
                ∙ ap (λ xs. xs ++ drop n bytes) w.holds
                ∙ append_assoc (contents a.after) (take n bytes) (drop n bytes)
                ∙ ap (λ xs. contents a.after ++ xs) (take-append-drop n bytes)
                ∙ ap (λ xs. xs ++ bytes) a.kept;
          }
    ]

-- Bytes that arrive in pieces, none of them empty.
abbrev pub in_pieces : List (Byte × List Byte) → List Arrived
in_pieces [] = []
in_pieces ((x, xs) ∷ pieces) = got x xs ∷ in_pieces pieces

abbrev pub arrived : List (Byte × List Byte) → List Byte
arrived [] = []
arrived ((x, xs) ∷ pieces) = (x ∷ xs) ++ arrived pieces

-- A transceiver whose receive buffer holds `xs`; the rest of it is as it was.
pub record Received (t : Transceiver) (o : Option Transceiver) (xs : List Byte) : Type 0 where
  pub after : Buffer
  pub returned : o ≡ some (record t { receive_buffer = after })
  pub valid : IsValid after
  pub holds : contents after ≡ xs

pub receive_loop_lem :
    (pieces : List (Byte × List Byte)) (t : Transceiver)
    → IsValid t.receive_buffer
    → length (contents t.receive_buffer) + length (arrived pieces) + 8192 < max_buffer_size
    → Received t (receive_loop (in_pieces pieces) t) (contents t.receive_buffer ++ arrived pieces)
unfolding receive_loop make_room
receive_loop_lem [] t v h =
    let a = assure_space_lem t.receive_buffer (8 * 1024) v (omega (arith, h)) in
    record {
      after = a.after;
      returned = rw a.returned;
      valid = a.valid;
      holds = a.kept ∙ sym (append-nil (contents t.receive_buffer));
    }
receive_loop_lem ((x, xs) ∷ pieces) t v h =
    let sum = length-append (x ∷ xs) (arrived pieces) in
    let b = receive_bytes_lem (x ∷ xs) t.receive_buffer v (omega (arith, h, sum)) in
    let held : length (contents b.after) ≡ length (contents t.receive_buffer) + length (x ∷ xs) =
      omega (arith, ap length b.holds, length-append (contents t.receive_buffer) (x ∷ xs)) in
    let rest =
      receive_loop_lem pieces (record t { receive_buffer = b.after }) b.valid
        (omega (arith, h, sum, held)) in
    record {
      after = rest.after;
      returned = rw b.returned rest.returned;
      valid = rest.valid;
      holds =
          rest.holds
          ∙ ap (λ ys. ys ++ arrived pieces) b.holds
          ∙ append_assoc (contents t.receive_buffer) (x ∷ xs) (arrived pieces);
    }

-- A string, unless it is empty.
unfoldable pub unless_empty : List Byte → List (List Byte)
unless_empty [] = []
unless_empty (x ∷ xs) = (x ∷ xs) ∷ []

one_string : (xs : List Byte) → (length xs == 0) ≡ false → unless_empty xs ≡ xs ∷ []
unfolding unless_empty
one_string [] e = absurd (ground arith)
one_string (x ∷ xs) e = refl

-- A `doResponse` that returned: the strings that it gave out, and a valid, empty receive buffer.
pub record Answered (t : Transceiver) (o : Option (List (List Byte) × Transceiver))
    (done : List (List Byte)) : Type 0 where
  pub after : Buffer
  pub returned : o ≡ some (done, record t { receive_buffer = after })
  pub valid : IsValid after
  pub drained : contents after ≡ []

emptied :
    (b : Buffer)
    → IsValid b
    → contents b ≡ []
    → Holding (if ltb (8 * 1024 * 1024) b.capacity then shrink b else some b) []
emptied b v e = elim (Bool-cases (ltb (8 * 1024 * 1024) b.capacity)) [
  | inl large ↦ record {
    after = record b { read_pos = 0; write_pos = 0; capacity = 0; mem = [] };
    returned = rw large (shrink-empty b (empty_lem b v ∙ ap (λ xs. length xs == 0) e));
    valid = omega arith;
    holds = refl;
  }
  | inr small ↦ record { after = b; returned = rw small; valid = v; holds = e }
]

take_done_lem :
    (t : Transceiver)
    → IsValid t.receive_buffer
    → Answered t (take_done t) (unless_empty (contents t.receive_buffer))
unfolding take_done
take_done_lem t v = elim (Bool-cases (empty t.receive_buffer)) [
  | inl nothing ↦
      let none_there = none_held t.receive_buffer v nothing in
      record {
        after = t.receive_buffer;
        returned = rw (nothing, none_there) (unfold unless_empty in refl);
        valid = v;
        drained = none_there;
      }
  | inr some_there ↦
      let xs : List Byte = contents t.receive_buffer in
      let (b₁, e, w, k) = consume_lem t.receive_buffer (length xs) v (omega arith) in
      let s = emptied b₁ w (k ∙ drop_all (length xs) xs (omega arith)) in
      record {
        after = s.after;
        returned = rw (
          some_there,
          copy_out-contents t.receive_buffer v,
          readable_size_lem t.receive_buffer v,
          e,
          s.returned,
          one_string xs (sym (empty_lem t.receive_buffer v) ∙ some_there),
        );
        valid = s.valid;
        drained = s.holds;
      }
]

-- However the bytes of responses are cut into pieces, and whichever they are: a `doResponse` over a
-- valid receive buffer returns, gives out everything that was held and that arrives as one string,
-- nothing where there is nothing, and leaves the buffer valid and empty.
pub do_response_lem :
    (pieces : List (Byte × List Byte)) (t : Transceiver)
    → IsValid t.receive_buffer
    → length (contents t.receive_buffer) + length (arrived pieces) + 8192 < max_buffer_size
    → Answered t
        (do_response (in_pieces pieces) t)
        (unless_empty (contents t.receive_buffer ++ arrived pieces))
unfolding do_response
do_response_lem pieces t v h =
    let r = receive_loop_lem pieces t v h in
    let d = take_done_lem (record t { receive_buffer = r.after }) r.valid in
    record {
      after = d.after;
      returned = rw r.returned (
          d.returned
          ∙ ap (λ xs. some (unless_empty xs, record t { receive_buffer = d.after })) r.holds);
      valid = d.valid;
      drained = d.drained;
    }
