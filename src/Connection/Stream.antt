-- ===== src/Connection/Stream.antt =====
-- The calls of `recv` of a connection, with the bytes in pieces.
use tarsx.Prelude.{
  ℕ, suc, ◌+◌, ◌*◌, ◌≤◌, ◌<◌, ◌≡◌, refl, sym, subst, ap, ◌∙◌, inl, inr, true, false, Option, none,
  some, List, [], ◌∷◌, ◌++◌, append_assoc, append-nil, arith, ltb, if◌then◌else◌, Bool-cases, ◌>>=◌,
  length, length-append,
}
use tarsx.Buffer.{Byte, Buffer, readable_size, max_buffer_size}
use tarsx.Buffer.Inv.{IsValid, contents, readable_size_lem}
use tarsx.Buffer.Contents.{push_result, push_data_lem}
use tarsx.Connection.{Read, received, closed, read_loop, recv}
use tarsx.Connection.Frames.{frame, stream, length-frame, AllShort, Waits, frame_loop_lem}

-- The bytes that a reading loop reads: up to the first piece smaller than its block.
unfoldable pub taken : List Read → List Byte
taken [] = []
taken (closed ∷ reads) = []
taken (received bytes ∷ reads) =
    let more = taken reads in if ltb (length bytes) (32 * 1024) then bytes else bytes ++ more

-- The peer does not close the connection.
abbrev pub IsOpen : List Read → Type 0
IsOpen [] = Unit
IsOpen (received bytes ∷ reads) = IsOpen reads
IsOpen (closed ∷ reads) = ⊥

abbrev given_length : Option (List Byte) → ℕ
given_length none = 0
given_length (some bytes) = length bytes

record Reads (reads : List Read) (b : Buffer) : Type 0 where
  after : Buffer
  returned : read_loop reads b ≡ some (true, after)
  valid : IsValid after
  holds : contents after ≡ contents b ++ taken reads

push_fits :
    (xs bytes : List Byte)
    → length xs + length bytes < max_buffer_size
    → (push_result xs (some bytes)).1 ≡ xs ++ bytes
unfolding push_result
push_fits xs bytes h = ground arith

taken-small :
    (bytes : List Byte) (reads : List Read)
    → ltb (length bytes) (32 * 1024) ≡ true
    → taken (received bytes ∷ reads) ≡ bytes
unfolding taken
taken-small bytes reads e = rw e

taken-full :
    (bytes : List Byte) (reads : List Read)
    → ltb (length bytes) (32 * 1024) ≡ false
    → taken (received bytes ∷ reads) ≡ bytes ++ taken reads
unfolding taken
taken-full bytes reads e = rw e

read_loop_lem :
    (reads : List Read) (b : Buffer)
    → IsValid b
    → IsOpen reads
    → length (contents b) + length (taken reads) < max_buffer_size
    → Reads reads b
unfolding read_loop
read_loop_lem [] b v o h = record {
  after = b;
  returned = refl;
  valid = v;
  holds = unfold taken in sym (append-nil (contents b));
}
read_loop_lem (closed ∷ reads) b v o h = absurd o
read_loop_lem (received bytes ∷ reads) b v o h =
    elim (Bool-cases (ltb (length bytes) (32 * 1024))) [
      | inl small ↦
          let bound : length (contents b) + length bytes < max_buffer_size =
            omega (arith, ap length (taken-small bytes reads small)) in
          let p =
            push_data_lem b (some bytes) v (λ given e. omega (arith, bound, ap given_length e)) in
          record {
            after = p.after;
            returned = rw (p.returned, small);
            valid = p.valid;
            holds =
                p.holds
                ∙ push_fits (contents b) bytes bound
                ∙ ap (λ xs. contents b ++ xs) (sym (taken-small bytes reads small));
          }
      | inr full ↦
          let bound : length (contents b) + length (bytes ++ taken reads) < max_buffer_size =
            omega (arith, ap length (taken-full bytes reads full)) in
          let p = push_data_lem b (some bytes) v (λ given e.
            omega (arith, bound, ap given_length e, length-append bytes (taken reads))) in
          let held =
            p.holds
            ∙ push_fits (contents b) bytes
                (omega (arith, bound, length-append bytes (taken reads))) in
          let g = read_loop_lem reads p.after p.valid o (
            omega (
              arith,
              bound,
              ap length held,
              length-append bytes (taken reads),
              length-append (contents b) bytes,
            )) in
          record {
            after = g.after;
            returned = rw (p.returned, full, g.returned);
            valid = g.valid;
            holds =
                g.holds
                ∙ ap (λ xs. xs ++ taken reads) held
                ∙ append_assoc (contents b) bytes (taken reads)
                ∙ ap (λ xs. contents b ++ xs) (sym (taken-full bytes reads full));
          }
    ]

-- A call of `recv` of a connection whose peer sends the frames of `ms`.
recv_lem :
    (reads : List Read) (ms : List (List Byte)) (b : Buffer) (future : List Byte)
    → IsValid b
    → IsOpen reads
    → length (contents b) + length (taken reads) < max_buffer_size
    → AllShort ms
    → contents b ++ (taken reads ++ future) ≡ stream ms
    → (done : List (List Byte)) × (rest : List (List Byte)) × (after : Buffer) × (recv true reads b
        ≡ some (some done, after))
      × IsValid after
      × (ms ≡ done ++ rest)
      × (contents after ++ future ≡ stream rest)
      × Waits rest (length (contents after))
unfolding recv
recv_lem reads ms b future v o h short e =
    let r = read_loop_lem reads b v o h in
    let f =
      frame_loop_lem (suc (readable_size r.after)) ms r.after future r.valid
        (omega (arith, readable_size_lem r.after r.valid)) short
        (ap (λ xs. xs ++ future) r.holds ∙ append_assoc (contents b) (taken reads) future ∙ e) in
    (f.done, f.rest, f.after, rw (r.returned, f.returned), f.valid, f.split, f.left, f.partial)

-- The requests of several calls of `recv`, in the order in which they are queued; -1 ends them.
unfoldable pub recv_all : List (List Read) → Buffer → Option (List (List Byte))
recv_all [] b = some []
recv_all (reads ∷ calls) b = do
  (got, b') ← recv true reads b
  elim got [ none ↦ some [] | some queue ↦ (do more ← recv_all calls b'; some (queue ++ more)) ]

abbrev pub AllOpen : List (List Read) → Type 0
AllOpen [] = Unit
AllOpen (reads ∷ calls) = IsOpen reads × AllOpen calls

-- The bytes that arrive in several calls.
abbrev pub arrived : List (List Read) → List Byte
arrived [] = []
arrived (reads ∷ calls) = taken reads ++ arrived calls

AllShort-drop : (xs ys : List (List Byte)) → AllShort (xs ++ ys) → AllShort ys
AllShort-drop [] ys a = a
AllShort-drop (x ∷ xs) ys a = AllShort-drop xs ys a.1

length-stream-append : (xs ys : List (List Byte)) → length (stream ys) ≤ length (stream (xs ++ ys))
length-stream-append [] ys = omega arith
length-stream-append (x ∷ xs) ys =
    omega (arith, length-stream-append xs ys, length-append (frame x) (stream (xs ++ ys)))

none_left :
    (ms : List (List Byte)) (bytes : List Byte)
    → bytes ++ [] ≡ stream ms
    → Waits ms (length bytes)
    → ms ≡ []
none_left [] bytes e w = refl
none_left (m ∷ ms) bytes e w = absurd (
    omega (
      arith,
      ap length e,
      length-append bytes [],
      length-append (frame m) (stream ms),
      length-frame m,
    ))

-- From a valid buffer that holds the front of a frame: the calls of `recv` give out the requests
-- whose frames the buffer's bytes and the arriving ones are, each once and in order.
pub recv_all_from :
    (calls : List (List Read)) (ms : List (List Byte)) (b : Buffer)
    → IsValid b
    → AllOpen calls
    → AllShort ms
    → length (stream ms) < max_buffer_size
    → contents b ++ arrived calls ≡ stream ms
    → Waits ms (length (contents b))
    → recv_all calls b ≡ some ms
unfolding recv_all
recv_all_from [] ms b v o short h e w = ap some (sym (none_left ms (contents b) e w))
recv_all_from (reads ∷ calls) ms b v o short h e w =
    let (done, rest, after, r, v', split, left, waits) =
      recv_lem reads ms b (arrived calls) v o.0
        (omega (
          arith,
          h,
          ap length e,
          length-append (contents b) (taken reads ++ arrived calls),
          length-append (taken reads) (arrived calls),
        ))
        short e in
    let g =
      recv_all_from calls rest after v' o.1 (AllShort-drop done rest (subst AllShort split short))
        (omega (arith, h, ap (λ xs. length (stream xs)) split, length-stream-append done rest)) left
        waits in
    rw (r, g) (ap some (sym split))
