-- ===== src/NetThread/Serve.antt =====
-- tarsx/NetThread.cc: what a network thread does about what epoll reports and what handles hand it.
use tarsx.Prelude.{
  ℕ, Bool, true, false, Option, none, some, List, [], ◌∷◌, if◌then◌else◌, length, ◌>>=◌, map,
}
use tarsx.Buffer.{Byte, Buffer}
use tarsx.Connection.{Slice, Read, recv}
use tarsx.Connection.Send.{Written, no_slices, send, send_buffer}
use tarsx.ThreadDeque.{push_back, swap}
use tarsx.BindAdapter.{client_close, server_close, RecvData, insert_recv_deque}
use tarsx.NetThread.{
  Connection, SendData, NetThread, lookup, touch, update_adapter, del_connection, Accepted,
  accept_loop, store, cmd_s, cmd_c, cmd_other,
}

-- The `tagRecvData` that `recv` makes of a request.
unfoldable pub request_of : Connection → List Byte → RecvData
request_of c req = record {
  uid = c.uid;
  buffer = req;
  closed = false;
  fd = c.fd;
  close_type = client_close;
}

-- `insertRecvDeque` of the requests, where there are any.
unfoldable pub hand_on : Connection → List (List Byte) → NetThread → NetThread
hand_on c [] t = t
hand_on c (r ∷ reqs) t = record t {
  adapters =
      update_adapter c.adapter (insert_recv_deque (map (request_of c) (r ∷ reqs)) true) t.adapters;
}

-- `processNet`, behind the call of `conRecv`: what it answered, and the buffer it left.
unfoldable pub received :
    Option (List (List Byte)) → Buffer → Connection → NetThread → Connection × NetThread
received none b c t =
    let c' : Connection = record c { recv_buffer = b } in
    (c', del_connection c' client_close (store c' t))
received (some reqs) b c t =
    let c' : Connection = record c { recv_buffer = b } in (c', hand_on c' reqs (store c' t))

-- The `EPOLLIN` part of `processNet`; the connection may be a null pointer.
unfoldable pub input :
    Bool → List Read → Option Connection → NetThread → Option (Option Connection × NetThread)
input false reads c t = some (c, t)
input true reads none t = none
input true reads (some c) t = do
  (got, b) ← recv c.listening reads c.recv_buffer
  let (c', t') = received got b c t
  some (some c', t')

-- The `EPOLLOUT` part: `conSend`, whose answer is only printed.
unfoldable pub output :
    (List Slice → Written) → ℕ → Bool → Option Connection → NetThread → Option NetThread
output writev max_iov false c t = some t
output writev max_iov true none t = none
output writev max_iov true (some c) t = do
  (_, slices) ← send writev max_iov c.close_ c.send_slices
  some (store (record c { send_slices = slices }) t)

-- `processNet`, with whether the event is an error, an input and an output.
unfoldable pub process_net :
    (List Slice → Written) → ℕ → ℕ → Bool → Bool → Bool → List Read → NetThread → Option NetThread
process_net writev max_iov uid err is_in is_out reads t =
    let found = lookup uid t.connection_uids in
    let t₀ = record t { connection_uids = touch uid t.connection_uids } in
    let broken = (do c ← found; some (del_connection c server_close t₀)) in
    let served = (do (c, t₁) ← input is_in reads found t₀; output writev max_iov is_out c t₁) in
    if err then broken else served

-- `conSend` for a message from a handle.
unfoldable pub con_send : Option ℕ → List Byte → Connection → NetThread → Option NetThread
con_send accepted buffer c t = do
  (_, slices) ← send_buffer (length buffer) accepted c.close_ c.send_slices
  some (store (record c { send_slices = slices }) t)

-- `set_close`, and what follows from its answer.
unfoldable pub close_connection : Connection → NetThread → NetThread
close_connection c t =
    let c' : Connection = record c { close_ = true } in
    if no_slices c.send_slices then del_connection c' server_close (store c' t) else store c' t

-- A message of `processPipe`; `accepted` is the answer of `::send`.
unfoldable pub process_message : Option ℕ → SendData → NetThread → Option NetThread
process_message accepted (cmd_s uid buffer) t = do
  c ← lookup uid t.connection_uids
  con_send accepted buffer c (record t { connection_uids = touch uid t.connection_uids })
process_message accepted (cmd_c uid) t =
    let t₀ = record t { connection_uids = touch uid t.connection_uids } in
    elim (lookup uid t.connection_uids) [ none ↦ some t₀ | some c ↦ some (close_connection c t₀) ]
process_message accepted cmd_other t = none

unfoldable pub process_messages :
    (SendData → Option ℕ) → List SendData → NetThread → Option NetThread
process_messages accepted [] t = some t
process_messages accepted (m ∷ ms) t = do
  t' ← process_message (accepted m) m t
  process_messages accepted ms t'

-- `processPipe`.
unfoldable pub process_pipe : (SendData → Option ℕ) → NetThread → Option NetThread
process_pipe accepted t =
    let (_, msgs, q) = swap 0 (λ d. d) [] t.send_deque in
    process_messages accepted msgs (record t { send_deque = q })

-- `recvNeedToSendFromServer`.
unfoldable pub recv_need_to_send_from_server : ℕ → List Byte → NetThread → NetThread
recv_need_to_send_from_server uid msg t =
    if t.terminate_ then t else record t { send_deque = push_back (cmd_s uid msg) t.send_deque }

unfoldable pub close : ℕ → NetThread → NetThread
close uid t = record t { send_deque = push_back (cmd_c uid) t.send_deque }

unfoldable pub terminate : NetThread → NetThread
terminate t = record t { terminate_ = true }

-- What epoll reports in a round of `run`, with what the system answers to what it leads to.
pub data Event : Type 0 where
  et_listen : ℕ → List Accepted → Event
  et_close : Event
  et_notify : (SendData → Option ℕ) → Event
  et_net : ℕ → Bool → Bool → Bool → List Read → Event

-- The `switch` of `run`.
unfoldable pub dispatch : (List Slice → Written) → ℕ → Event → NetThread → Option NetThread
dispatch writev max_iov (et_listen listenfd answers) t = accept_loop listenfd answers t
dispatch writev max_iov et_close t = some t
dispatch writev max_iov (et_notify accepted) t = process_pipe accepted t
dispatch writev max_iov (et_net uid err is_in is_out reads) t =
    process_net writev max_iov uid err is_in is_out reads t

-- What happens to a network thread: an event in its loop, or a call from another thread.
pub data Step : Type 0 where
  dispatched : Event → Step
  needs_to_send : ℕ → List Byte → Step
  closes : ℕ → Step
  terminates : Step

unfoldable pub step : (List Slice → Written) → ℕ → Step → NetThread → Option NetThread
step writev max_iov (dispatched e) t = dispatch writev max_iov e t
step writev max_iov (needs_to_send uid msg) t = some (recv_need_to_send_from_server uid msg t)
step writev max_iov (closes uid) t = some (close uid t)
step writev max_iov terminates t = some (terminate t)

unfoldable pub steps : (List Slice → Written) → ℕ → List Step → NetThread → Option NetThread
steps writev max_iov [] t = some t
steps writev max_iov (s ∷ ss) t = do t' ← step writev max_iov s t; steps writev max_iov ss t'
