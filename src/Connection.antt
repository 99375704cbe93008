-- ===== src/Connection.antt =====
-- tarsx/Connection.cc: what a connection reads and cuts into requests, and the slices that it has
-- still to send. `::read` and `::writev` are the system's: what they return is an argument. The frame
-- around a request is written by `ObjectProxy::sendReqMessage` (tarsx/ObjectProxy.cc).
pub mod Frames
pub mod Stream
pub mod Slices
pub mod Send
pub mod Wire
pub mod Tests
use tarsx.Prelude.{
  ℕ, zero, suc, ◌+◌, ◌-◌, ◌*◌, ◌/◌, ◌%◌, ◌^◌, Bool, true, false, Option, none, some, List, [], ◌∷◌,
  ◌++◌, ltb, leb, ◌==◌, if◌then◌else◌, length, take, drop, add64, ◌>>=◌, ◌>>◌, guard,
}
use tarsx.Buffer.{Byte, Buffer, readable_size, copy_out, consume, push_data}

-- `Buffer::kHeaderSize`: four bytes of length and a colon.
abbrev pub header_size : ℕ
header_size = 5

-- The four bytes of a `uint32_t`, the most significant one first (`htonl`).
unfoldable pub htonl : ℕ → List Byte
htonl n =
    some (n / 16777216 % 256) ∷ some (n / 65536 % 256) ∷ some (n / 256 % 256) ∷ some (n % 256) ∷ []

-- The number in four bytes (`ntohl`). To read indeterminate memory is a fault.
unfoldable pub ntohl : List Byte → Option ℕ
ntohl (some a ∷ some b ∷ some c ∷ some d ∷ []) = some (a * 16777216 + (b * 65536 + (c * 256 + d)))
ntohl _ = none

-- An `int32_t`, by its 32 bits, as a `size_t`.
unfoldable pub sign_extend : ℕ → ℕ
sign_extend n = if ltb n (2 ^ 31) then n else n + (2 ^ 64 - 2 ^ 32)

-- The bytes that `sendReqMessage` puts into `reqData`: the id in the digits that `std::to_string`
-- gives, a colon and the request, behind their length and a colon (58).
unfoldable pub req_data : (ℕ → List Byte) → ℕ → List Byte → List Byte
unfolding htonl
req_data to_string request_id request =
    let temp = to_string request_id ++ some 58 ∷ request in
    htonl (length temp % 2 ^ 32) ++ some 58 ∷ temp

-- What a call of `::read` returns: bytes, or 0 or an error other than `EAGAIN`.
pub data Read : Type 0 where
  received : List Byte → Read
  closed : Read

-- The reading loop of `recv`. Past the list's end `::read` fails with `EAGAIN`. The answer is whether
-- the peer is still there.
unfoldable pub read_loop : List Read → Buffer → Option (Bool × Buffer)
read_loop [] b = some (true, b)
read_loop (closed ∷ reads) b = some (false, b)
read_loop (received bytes ∷ reads) b = do
  (_, b') ← push_data b (some bytes)
  let more = read_loop reads b'
  (if ltb (length bytes) (32 * 1024) then some (true, b') else more)

-- A request of `len` bytes behind its header. One longer than a `std::string` can be, or past the
-- block, is a fault.
unfoldable pub take_request : ℕ → Buffer → Option (List Byte × Buffer)
take_request len b = do
  b₁ ← consume b header_size
  req ← copy_out b₁.mem b₁.read_pos len
  b₂ ← consume b₁ len
  some (req, b₂)

-- A round of the framing loop: a request, or `none` where the loop ends.
unfoldable pub next_request : Buffer → Option (Option (List Byte) × Buffer)
next_request b =
    let whole = (do
      data_ ← copy_out b.mem b.read_pos 4
      be32 ← ntohl data_
      let len = sign_extend be32
      let request = (do (req, b') ← take_request len b; some (some req, b'))
      (if leb (add64 len header_size) (readable_size b) then request else some (none, b))) in
    if leb (header_size - 1) (readable_size b) then whole else some (none, b)

-- The framing loop of `recv`, for fewer rounds than the fuel: the requests that it queues.
unfoldable pub frame_loop : ℕ → Buffer → Option (List (List Byte) × Buffer)
frame_loop zero b = none
frame_loop (suc fuel) b = do
  (got, b₁) ← next_request b
  elim got [
    | none ↦ some ([], b₁)
    | some req ↦ (do (queue, b') ← frame_loop fuel b₁; some (req ∷ queue, b'))
  ]

-- `recv` of a connection that a listening socket accepted, or (`listening` false) of another one,
-- which keeps the bytes in its buffer. `none` inside is the answer -1. A frame has five bytes, so the
-- loop makes fewer rounds than there are bytes.
unfoldable pub recv : Bool → List Read → Buffer → Option (Option (List (List Byte)) × Buffer)
recv listening reads b = do
  (there, b₁) ← read_loop reads b
  let framed = (do (queue, b₂) ← frame_loop (suc (readable_size b₁)) b₁; some (some queue, b₂))
  (if there then (if listening then framed else some (some [], b₁)) else some (none, b₁))

-- A `Slice`: its block of memory and `dataLen`.
pub record Slice : Type 0 where
  pub block : List ℕ
  pub data_len : ℕ

-- `memmove(slice.data, slice.data + n, slice.dataLen - n)`.
unfoldable pub shift : ℕ → Slice → List ℕ
shift n s = take (s.data_len - n) (drop n s.block) ++ drop (s.data_len - n) s.block

-- `adjustSlices`. The loop's `slice` is a copy: the block that it moves is the vector's, the length
-- that it lowers is not.
unfoldable pub adjust_slices : List Slice → ℕ → Option (List Slice)
adjust_slices [] n = some []
adjust_slices (s ∷ slices) n =
    let rest = adjust_slices slices (n - s.data_len) in
    if s.data_len == 0
    then none
    else if leb s.data_len n
    then rest
    else if n == 0
    then some (s ∷ slices)
    else some (record s { block = shift n s } ∷ slices)
