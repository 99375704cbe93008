-- ===== src/Transceiver.antt =====
-- tarsx/Transceiver.cc: what a client sends and receives. What `::send` accepts of the bytes that it
-- is given is an argument: a number of bytes, where `EAGAIN` counts as 0, or an error (`none`), whose
-- `LOG_SYSFATAL` ends the program: that is a fault.
pub mod Sent
pub mod Received
mod Tests
use tarsx.Prelude.{
  ℕ, ◌+◌, ◌-◌, ◌*◌, ◌==◌, Bool, true, false, Option, none, some, List, [], ◌∷◌, ◌++◌, length, take,
  drop, if◌then◌else◌, ltb, leb, ◌>>=◌, ◌>>◌,
}
use tarsx.Buffer.{
  Byte, Buffer, empty, clear, readable_size, writable_size, produce, copy_out, copy_in,
  assure_space, consume, shrink, push_data,
}

-- `ReturnStatus`, and the number of bytes sent where all of them were.
pub data Status : Type 0 where
  ret_error ret_full : Status
  sent_all : ℕ → Status

-- `sendRequest`: the answer and `sendBuffer_` after it. `accepted` is the answer of `send`.
unfoldable pub send_request : List Byte → Option ℕ → Buffer → Option (Status × Buffer)
send_request bytes accepted b =
    let send = (do
      n ← accepted
      let rest = (do (_, b') ← push_data b (some (drop n bytes)); some (ret_full, b'))
      (if ltb n (length bytes) then rest else some (sent_all n, b))) in
    if empty b then send else some (ret_error, b)

-- `doRequest`, up to the call of `doInvoke`: whether it gets there, and `sendBuffer_`.
unfoldable pub do_request : Option ℕ → Buffer → Option (Bool × Buffer)
do_request accepted b =
    let send = (do
      n ← accepted
      let sent = (do
        b₁ ← consume b n
        let drained = (do b₂ ← shrink b₁; some (true, b₂))
        (if empty b₁ then drained else some (false, b₁)))
      (if n == 0 then some (true, b) else sent)) in
    if empty b then some (true, b) else send

-- What a call of `::readv` answers: some bytes, `EAGAIN`, or 0 or another error.
pub data Arrived : Type 0 where
  got : Byte → List Byte → Arrived
  nothing_yet gone : Arrived

-- Whether the descriptor is valid, and both buffers.
pub record Transceiver : Type 0 where
  pub valid : Bool
  pub send_buffer : Buffer
  pub receive_buffer : Buffer

-- `close`.
unfoldable pub close : Transceiver → Transceiver
close t =
    if t.valid
    then record t {
      valid = false;
      send_buffer = clear t.send_buffer;
      receive_buffer = clear t.receive_buffer;
    }
    else t

-- The bytes that `readv` put behind those held, and `produce`.
unfoldable pub write_first : List Byte → Buffer → Option Buffer
write_first bytes b = do
  mem ← copy_in b.mem b.write_pos bytes
  some (produce (record b { mem = mem }) (length bytes))

-- The bytes of one `readv`: those for which the block has room, and those in `stackBuffer`.
unfoldable pub receive_bytes : List Byte → Buffer → Option Buffer
receive_bytes bytes b = do
  b₁ ← assure_space b (8 * 1024)
  b₂ ← write_first (take (writable_size b₁) bytes) b₁
  let more = (do (_, b₃) ← push_data b₂ (some (drop (writable_size b₁) bytes)); some b₃)
  (if leb (length bytes) (writable_size b₁) then some b₂ else more)

-- The space that a turn of the reading loop makes before `::readv`, where that gives no bytes.
unfoldable pub make_room : Transceiver → Option Transceiver
make_room t = do
  b ← assure_space t.receive_buffer (8 * 1024)
  some (record t { receive_buffer = b })

-- The reading loop of `doResponse`. Past the answers' end `::readv` answers `EAGAIN`.
unfoldable pub receive_loop : List Arrived → Transceiver → Option Transceiver
receive_loop [] t = make_room t
receive_loop (nothing_yet ∷ answers) t = make_room t
receive_loop (gone ∷ answers) t = do t' ← make_room t; some (close t')
receive_loop (got x xs ∷ answers) t = do
  b ← receive_bytes (x ∷ xs) t.receive_buffer
  receive_loop answers (record t { receive_buffer = b })

-- The end of `doResponse`: what was read, as one string.
unfoldable pub take_done : Transceiver → Option (List (List Byte) × Transceiver)
take_done t =
    let b = t.receive_buffer in
    let len = readable_size b in
    let whole = (do
      text ← copy_out b.mem b.read_pos len
      b₁ ← consume b len
      b₂ ← if ltb (8 * 1024 * 1024) b₁.capacity then shrink b₁ else some b₁
      some (text ∷ [], record t { receive_buffer = b₂ })) in
    if empty b then some ([], t) else whole

-- `doResponse`: what it puts into `done`.
unfoldable pub do_response : List Arrived → Transceiver → Option (List (List Byte) × Transceiver)
do_response answers t = do t' ← receive_loop answers t; take_done t'
