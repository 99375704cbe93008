-- ===== src/Connection/Send.antt =====
-- tarsx/Connection.cc: what a connection sends. `::writev` is a parameter that answers by the slices
-- that it is given; what `::send` answers is an argument. An `int` is its 32 bits, a `size_t` is 64.
pub mod Counts
use tarsx.Prelude.{
  ℕ, zero, suc, ◌+◌, ◌%◌, ◌-◌, ◌*◌, ◌^◌, ◌≡◌, refl, inl, inr, Bool, true, false, not, ◌&&◌, Option,
  none, some, List, [], ◌∷◌, ltb, leb, ◌==◌, if◌then◌else◌, length, take, drop, min, add64,
  Option-cases, ◌>>=◌, ◌>>◌, guard,
}
use tarsx.Connection.{Slice, sign_extend, adjust_slices}

-- What a call of `::writev` answers: a number of bytes, or -1 with `EAGAIN`, `EINVAL` or another error.
pub data Written : Type 0 where
  wrote : ℕ → Written
  again_write invalid_write failed_write : Written

-- -1, as an `int`.
abbrev pub int_minus_one : ℕ
int_minus_one = 2 ^ 32 - 1

-- -1, -2 and 0.
pub data SendResult : Type 0 where
  send_failed to_close send_ok : SendResult

-- `to_send_bytes` and `expectSent`.
abbrev pub total : List Slice → ℕ
total [] = 0
total (s ∷ slices) = s.data_len + total slices

-- Every slice passes `assert(slices[i].dataLen > 0)`.
unfoldable pub all_positive : List Slice → Bool
all_positive [] = true
all_positive (s ∷ slices) = ltb 0 s.data_len && all_positive slices

unfoldable pub no_slices : List Slice → Bool
no_slices [] = true
no_slices (_ ∷ _) = false

-- `tcpWriteV`. Where the conversion to `int` makes a number of bytes -1, `errno` is read though the call
-- did not set it: that is taken for a fault.
unfoldable pub tcp_write_v : (List Slice → Written) → ℕ → List Slice → Option ℕ
tcp_write_v writev max_iov group = do
  guard (leb (length group) max_iov)
  elim (writev group) [
    | wrote n ↦ (do guard (not (n % 2 ^ 32 == int_minus_one)); some (n % 2 ^ 32))
    | again_write ↦ some 0
    | invalid_write ↦ none
    | failed_write ↦ some int_minus_one
  ]

-- `send(const std::vector<Slice>&)`, for fewer rounds than the fuel: `max_iov` slices in a call of
-- `::writev`. A number of slices that is negative as an `int` has the loop read past the vector.
unfoldable pub send_loop : (List Slice → Written) → ℕ → ℕ → List Slice → ℕ → Option ℕ
send_loop writev max_iov zero slices already = none
send_loop writev max_iov (suc fuel) slices already =
    let vc = min (length slices % 2 ^ 32) max_iov in
    let group = take vc slices in
    let round = (do
      guard (ltb (length slices % 2 ^ 32) (2 ^ 31))
      guard (all_positive group)
      bytes ← tcp_write_v writev max_iov group
      let onward =
          send_loop writev max_iov fuel (drop vc slices) (add64 already (sign_extend bytes))
      let partly = (do guard (ltb bytes (2 ^ 31)); some (add64 already bytes % 2 ^ 32))
      (if bytes == int_minus_one
          then some int_minus_one
          else if bytes == 0
          then some (already % 2 ^ 32)
          else if bytes == total group % 2 ^ 32
          then onward
          else partly)) in
    if no_slices slices then some (already % 2 ^ 32) else round

-- A round sends at least one slice, so the slices bound the rounds.
unfoldable pub send_slices : (List Slice → Written) → ℕ → List Slice → Option ℕ
send_slices writev max_iov slices = send_loop writev max_iov (suc (length slices)) slices 0

-- `clearSlices`.
unfoldable pub clear_slices : List Slice → Option (List Slice)
clear_slices slices = adjust_slices slices (2 ^ 64 - 1)

-- The end of `send`, behind the writing.
unfoldable pub after_send : Bool → List Slice → Option (SendResult × List Slice)
after_send close slices =
    let cleared = (do slices' ← clear_slices slices; some (to_close, slices')) in
    if leb (8 * 1024) (total slices)
    then cleared
    else if close && no_slices slices
    then some (to_close, slices)
    else some (send_ok, slices)

-- `send(buffer, ip, port, true)`.
unfoldable pub send_held :
    (List Slice → Written) → ℕ → Bool → List Slice → Option (SendResult × List Slice)
send_held writev max_iov close slices = do
  sent ← send_slices writev max_iov slices
  let adjusted = (do slices' ← adjust_slices slices (sign_extend sent); after_send close slices')
  (if sent == int_minus_one then some (send_failed, slices) else adjusted)

-- `send()`.
unfoldable pub send :
    (List Slice → Written) → ℕ → Bool → List Slice → Option (SendResult × List Slice)
send writev max_iov close slices =
    let held = send_held writev max_iov close slices in
    if no_slices slices then some (send_ok, slices) else held

-- `tcpSend`, where `accepted` is what `::send` answers, `EAGAIN` and `EINTR` as 0.
unfoldable pub tcp_send : ℕ → Option ℕ → Option ℕ
tcp_send len accepted = if len == 0 then some 0 else accepted

-- `send(buffer, ip, port)` of `len` bytes. How many of them were sent is not looked at.
unfoldable pub send_buffer : ℕ → Option ℕ → Bool → List Slice → Option (SendResult × List Slice)
send_buffer len accepted close slices = elim (tcp_send len accepted) [
  | none ↦ some (send_failed, slices)
  | some bytes ↦ after_send close slices
]

-- What is told of a connection that holds no slices.
unfoldable pub told : ℕ → Option ℕ → Bool → SendResult
told len accepted close = elim (tcp_send len accepted) [
  | none ↦ send_failed
  | some _ ↦ if close then to_close else send_ok
]

after_send-nil :
    (close : Bool) → after_send close [] ≡ some (if close then to_close else send_ok, [])
unfolding after_send no_slices
after_send-nil true = refl
after_send-nil false = refl

-- A connection that holds no slices holds none after `send` of a buffer either, however few of the
-- bytes `::send` took.
pub send_buffer-nil :
    (len : ℕ) (accepted : Option ℕ) (close : Bool)
    → send_buffer len accepted close [] ≡ some (told len accepted close, [])
unfolding send_buffer told
send_buffer-nil len accepted close = elim (Option-cases (tcp_send len accepted)) [
  | inl failed ↦ rw (failed, send_buffer, told)
  | inr (bytes, sent) ↦ rw (sent, send_buffer, told, after_send-nil close)
]
