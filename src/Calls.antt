-- ===== src/Calls.antt =====
-- A call from end to end: `sendReqMessage` (tarsx/ObjectProxy.cc), `Connection::recv` (tarsx/Connection.cc),
-- `ServantHandle::handle` (tarsx/ServantHandle.cc), and `doResponse` and `finishInvoke` for the answer.
-- What the network delivers is an argument.
pub mod Answered
pub mod Merged
mod Tests
use tarsx.Prelude.{ℕ, Option, some, List, [], ◌∷◌, take, if◌then◌else◌, ◌>>=◌}
use tarsx.Buffer.{Byte, empty, init}
use tarsx.Connection.{Read, req_data}
use tarsx.Connection.Stream.{recv_all}
use tarsx.Transceiver.{Arrived, Transceiver, do_response}
use tarsx.NetThread.{Connection}
use tarsx.NetThread.Serve.{request_of}
use tarsx.EpollServer.{EpollServer}
use tarsx.ServantHandle.{handle}
use tarsx.ObjectProxy.{Client, generate_id, send_list_empty, send_req_message}
use tarsx.CommunicatorEpoll.{handle_input_imp}

-- The requests of a connection, handled one after the other.
unfoldable pub handle_all :
    (ℕ → Option (List Byte → List Byte))
    → ℕ
    → Connection
    → List (List Byte)
    → EpollServer
    → Option EpollServer
handle_all servants name conn [] e = some e
handle_all servants name conn (req ∷ reqs) e = do
  e' ← handle servants name (request_of conn req) e
  handle_all servants name conn reqs e'

-- The bytes that `::send` takes of a message's request, where `sendReqMessage` gives it to it at once.
unfoldable pub on_wire : (ℕ → List Byte) → ℕ → ℕ → Client → List Byte
on_wire to_string accepted m c =
    let bytes = req_data to_string (generate_id c.proxy.id) (c.msgs m).request in
    if send_list_empty c.proxy.queue
    then (if empty c.proxy.send_buffer then take accepted bytes else [])
    else []

-- A message is sent; `calls` is what the server reads of a new connection, `answers` what the client
-- then reads.
unfoldable pub call :
    (ℕ → List Byte)
    → (List Byte → ℕ)
    → (ℕ → Option (List Byte → List Byte))
    → ℕ
    → Connection
    → Option ℕ
    → List (List Read)
    → List Arrived
    → ℕ
    → Client
    → EpollServer
    → Transceiver
    → Option (Client × EpollServer × Transceiver)
call to_string atoi servants name conn accepted calls answers m c e t = do
  c₁ ← send_req_message to_string accepted m c
  reqs ← recv_all calls init
  e' ← handle_all servants name conn reqs e
  (done, t') ← do_response answers t
  c₂ ← handle_input_imp atoi done c₁
  some (c₂, e', t')
