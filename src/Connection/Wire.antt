-- ===== src/Connection/Wire.antt =====
-- The frames that `ObjectProxy::sendReqMessage` writes, read by the `Connection` at the other end.
use tarsx.Prelude.{
  ℕ, suc, ◌+◌, ◌^◌, ◌≤◌, ◌<◌, ◌≡◌, refl, ap, ◌∙◌, true, none, some, List, [], ◌∷◌, ◌++◌, arith, leb,
  length, take, add64, dec_lt,
}
use tarsx.Buffer.{Byte, Buffer, init, max_buffer_size, readable_size, copy_out, consume}
use tarsx.Buffer.Inv.{IsValid, contents, length-contents, readable_size_lem}
use tarsx.Buffer.Contents.{consume_lem}
use tarsx.Connection.{Read, htonl, sign_extend, req_data, take_request, next_request, frame_loop}
use tarsx.Connection.Frames.{frame, stream, AllShort, Waits, ntohl-htonl, copy_front}
use tarsx.Connection.Stream.{AllOpen, arrived, recv_all, recv_all_from}

module _ (to_string : ℕ → List Byte) where
  -- What the server is to see of a request.
  abbrev pub numbered : List (ℕ × List Byte) → List (List Byte)
  numbered [] = []
  numbered ((id, request) ∷ rs) = (to_string id ++ some 58 ∷ request) ∷ numbered rs

  abbrev pub sent : List (ℕ × List Byte) → List Byte
  sent [] = []
  sent ((id, request) ∷ rs) = req_data to_string id request ++ sent rs

  req_data-frame :
      (id : ℕ) (request : List Byte)
      → length (to_string id ++ some 58 ∷ request) < 2 ^ 31
      → req_data to_string id request ≡ frame (to_string id ++ some 58 ∷ request)
  unfolding req_data frame
  req_data-frame id request h =
      ap (λ n. htonl n ++ some 58 ∷ (to_string id ++ some 58 ∷ request)) (omega (arith, h))

  sent-stream :
      (rs : List (ℕ × List Byte)) → AllShort (numbered rs) → sent rs ≡ stream (numbered rs)
  sent-stream [] h = refl
  sent-stream ((id, request) ∷ rs) h = rw (req_data-frame id request h.0, sent-stream rs h.1)

  init-IsValid : IsValid init
  unfolding init
  init-IsValid = record {
    ordered = omega arith;
    written = omega arith;
    small = omega arith;
    block = refl;
  }

  -- However the bytes of some requests are cut into pieces on their way, as long as the peer stays,
  -- the server's calls of `recv` queue the requests with their ids, each once and in order; no
  -- request reaches `2 ^ 31` bytes, and together they stay below `MaxBufferSize`.
  pub recv_all-sent :
      (rs : List (ℕ × List Byte)) (calls : List (List Read))
      → AllShort (numbered rs)
      → length (sent rs) < max_buffer_size
      → AllOpen calls
      → arrived calls ≡ sent rs
      → recv_all calls init ≡ some (numbered rs)
  unfolding init
  recv_all-sent rs calls short small o e =
      recv_all_from calls (numbered rs) init init-IsValid o short
        (omega (arith, small, ap length (sent-stream rs short))) (e ∙ sent-stream rs short)
        (waits (numbered rs))
    where
      waits : (ms : List (List Byte)) → Waits ms 0
      waits [] = tt
      waits (m ∷ ms) = omega arith

-- A length that was negative as an `int32_t`, from -5 to -1, is a fault: the sum with the header's
-- size wraps round to a small number, and the request is cut from bytes that are not there.
pub frame_loop-negative :
    (fuel n : ℕ) (b : Buffer)
    → IsValid b
    → 4 ≤ length (contents b)
    → take 4 (contents b) ≡ htonl n
    → 2 ^ 32 ≤ n + 5
    → n < 2 ^ 32
    → frame_loop (suc fuel) b ≡ none
unfolding frame_loop
frame_loop-negative fuel n b v h e low high = rw (fault)
  where
    enough : leb 4 (readable_size b) ≡ true
    enough = ground (arith, readable_size_lem b v)

    wraps : leb (add64 (sign_extend n) 5) (readable_size b) ≡ true
    wraps = unfold sign_extend in ground (arith, readable_size_lem b v)

    short : length (contents b) < 5 → consume b 5 ≡ none
    short part = unfold consume in ground (arith, length-contents b v)

    past : (b : Buffer) → IsValid b → copy_out b.mem b.read_pos (sign_extend n) ≡ none
    past b v = unfold sign_extend copy_out in ground (arith, v.block)

    no_request : take_request (sign_extend n) b ≡ none
    no_request =
        unfold take_request in
        elim (dec_lt (length (contents b)) 5) [
          | yes four ↦ rw (short four)
          | no whole ↦ let (b₁, e₁, v₁, _) = consume_lem b 5 v (omega arith) in rw (e₁, past b₁ v₁)
        ]

    fault : next_request b ≡ none
    fault =
        unfold next_request in
        rw (enough, copy_front b 4 v h, e, ntohl-htonl n high, wraps, no_request)
