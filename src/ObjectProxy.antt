-- ===== src/ObjectProxy.antt =====
-- tarsx/ObjectProxy.cc: a client's side of one server, with the messages that it refers to. What
-- `::send` accepts is an argument, `std::to_string` and `atoi` are parameters; `none` is a fault, or
-- the end of the program where `::send` fails.
pub mod Valid
pub mod Types
pub mod Answer
pub mod Unsent
pub mod Book
pub mod Tests
use tarsx.Prelude.{
  ℕ, ◌+◌, Bool, true, false, Option, none, some, List, [], ◌∷◌, ◌==◌, if◌then◌else◌, add32, not,
  guard, ◌>>=◌, ◌>>◌,
}
use tarsx.Buffer.{Byte, Buffer}
use tarsx.Connection.{req_data}
use tarsx.TimeoutQueueNew.{TimeoutQueueNew, push, erase, get_send}
use tarsx.Transceiver.{Status, ret_error, ret_full, sent_all, send_request}
use tarsx.Message.{ReqMessage, CallType, sync_call, async_call, ReqStatus, req_exc, update}
use tarsx.AsyncProcThread.{AsyncThreads, push_async_thread_queue}

-- `id_`, the timeout queue, and of the transceiver `connected_` and `sendBuffer_`.
pub record ObjectProxy : Type 0 where
  pub id : ℕ
  pub connected : Bool
  pub send_buffer : Buffer
  pub queue : TimeoutQueueNew ℕ

-- The proxy with the messages by their addresses, those whose monitor was notified, the newest first,
-- and the threads that call back.
pub record Client : Type 0 where
  pub proxy : ObjectProxy
  pub msgs : ℕ → ReqMessage
  pub notified : List ℕ
  pub async : AsyncThreads

-- `generateId`: the new `id_`.
unfoldable pub generate_id : ℕ → ℕ
generate_id id = let once = add32 id 1 in if once == 0 then add32 once 1 else once

abbrev pub set_queue : TimeoutQueueNew ℕ → Client → Client
set_queue q c = record c { proxy = record c.proxy { queue = q } }

-- `finishInvoke(ReqMessage*)`.
unfoldable pub finish_message : ℕ → Client → Option Client
unfolding update
finish_message m c = elim (c.msgs m).type_ [
  | sync_call ↦ some (record c {
    notified = m ∷ c.notified;
    msgs = update m (λ r. record r { monitor_fin = true }) c.msgs;
  })
  | async_call ↦ (do a ← push_async_thread_queue m c.async; some (record c { async = a }))
  | _ ↦ some c
]

-- `response.substr(0, response.find(":"))`; a colon is 58.
unfoldable pub before_colon : List Byte → List Byte
before_colon [] = []
before_colon (none ∷ xs) = none ∷ before_colon xs
before_colon (some x ∷ xs) = if x == 58 then [] else some x ∷ before_colon xs

-- `finishInvoke(const std::string&)`, behind the `erase` of the id: what it answers is given.
unfoldable pub finish_erased : List Byte → Option ℕ → TimeoutQueueNew ℕ → Client → Option Client
finish_erased response none q c = some (set_queue q c)
finish_erased response (some m) q c =
    finish_message m
      (record (set_queue q c) { msgs = update m (λ r. record r { response = response }) c.msgs })

-- `finishInvoke(const std::string&)`.
unfoldable pub finish_invoke : (List Byte → ℕ) → List Byte → Client → Option Client
finish_invoke atoi response c =
    let (found, q) = erase (atoi (before_colon response)) c.proxy.queue in
    finish_erased response found q c

-- `sendRequest(…) != retError`.
unfoldable pub was_sent : Status → Bool
was_sent ret_error = false
was_sent ret_full = true
was_sent (sent_all n) = true

unfoldable pub send_list_empty : TimeoutQueueNew ℕ → Bool
send_list_empty q = elim q.send_ [ [] ↦ true | _ ∷ _ ↦ false ]

-- The `push` of a message and what follows where it fails.
unfoldable pub keep : ℕ → ℕ → ℕ → Bool → Client → Option Client
keep m id deadline has_send c =
    let (flag, q) = push m id deadline has_send c.proxy.queue in
    let failed =
      finish_message m
        (record (set_queue q c) { msgs = update m (λ r. record r { status = req_exc }) c.msgs }) in
    if flag then some (set_queue q c) else failed

-- `sendReqMessage`.
unfoldable pub send_req_message : (ℕ → List Byte) → Option ℕ → ℕ → Client → Option Client
send_req_message to_string accepted m c =
    let id = generate_id c.proxy.id in
    let bytes = req_data to_string id (c.msgs m).request in
    let deadline = 1000 + (c.msgs m).begin_time in
    let after : Buffer → Client = λ b. record c {
      proxy = record c.proxy { id = id; connected = true; send_buffer = b };
      msgs = update m (λ r. record r { request_id = id; req_data = bytes }) c.msgs;
    } in
    let sent = (do
      (status, b) ← send_request bytes accepted c.proxy.send_buffer
      keep m id deadline (was_sent status) (after b)) in
    if send_list_empty c.proxy.queue
    then sent
    else keep m id deadline false (after c.proxy.send_buffer)

-- A message read through a pointer, which is null where it is 0.
unfoldable pub deref : ℕ → Client → Option ReqMessage
deref m c = if m == 0 then none else some (c.msgs m)

-- `doInvoke`, with what `::send` answers in its rounds: a loop that has not ended behind these answers
-- is a fault. `getSend` leaves `msg` as it is, null.
unfoldable pub do_invoke : List (Option ℕ) → Client → Option Client
do_invoke [] c = if send_list_empty c.proxy.queue then some c else none
do_invoke (accepted ∷ later) c =
    let round = (do
      let msg : ℕ = 0
      _ ← get_send (λ p. p == 0) c.proxy.queue
      r ← deref msg c
      (status, b) ← send_request r.req_data accepted c.proxy.send_buffer
      let c' : Client = record c { proxy = record c.proxy { send_buffer = b } }
      elim status [ ret_error ↦ some c' | ret_full ↦ some c' | sent_all _ ↦ do_invoke later c' ]) in
    if send_list_empty c.proxy.queue then some c else round
