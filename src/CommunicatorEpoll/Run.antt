-- ===== src/CommunicatorEpoll/Run.antt =====
-- tarsx/CommunicatorEpoll.cc: `handle` of what epoll reports, and the loop of `run`. The transceiver is
-- one; its send buffer stands in the client's proxy, and is put into the record for each call.
use tarsx.Prelude.{ℕ, Bool, Option, some, List, [], ◌∷◌, if◌then◌else◌, ◌>>=◌}
use tarsx.Buffer.{Byte, Buffer}
use tarsx.Transceiver.{Arrived, Transceiver, do_request, do_response}
use tarsx.ObjectProxy.{Client, do_invoke}
use tarsx.CommunicatorEpoll.{
  NotifyInfo, CommunicatorEpoll, handle_notify, handle_input_imp, terminate,
}

-- The thread with its transceiver.
pub record NetLoop : Type 0 where
  pub epoll : CommunicatorEpoll
  pub trans : Transceiver

-- What epoll reports: an entry of `notify_`, the transceiver with whether there is input and output
-- and what `::readv` and `::send` then answer, for the bytes held and in the rounds of `doInvoke`, or
-- an event that has no pointer.
pub data Reported : Type 0 where
  of_notify : NotifyInfo → Reported
  of_transceiver : Bool → Bool → List Arrived → Option ℕ → List (Option ℕ) → Reported
  no_pointer : Reported

unfoldable pub set_buffer : Buffer → Client → Client
set_buffer b c = record c { proxy = record c.proxy { send_buffer = b } }

-- `handleOutputImp`, with `doRequest` and the `doInvoke` that it may come to.
unfoldable pub handle_output_imp : Option ℕ → List (Option ℕ) → Client → Option Client
handle_output_imp accepted later c = do
  (goes_on, b) ← do_request accepted c.proxy.send_buffer
  let c' : Client = set_buffer b c
  (if goes_on then do_invoke later c' else some c')

unfoldable pub set_client : Client → NetLoop → NetLoop
set_client c l = record l { epoll = record l.epoll { client = c } }

-- `handleInputImp` with `doResponse`, which clears both buffers where it closes the transceiver.
unfoldable pub input : (List Byte → ℕ) → List Arrived → NetLoop → Option NetLoop
input atoi answers l = do
  (done, trans) ←
      do_response answers (record l.trans { send_buffer = l.epoll.client.proxy.send_buffer })
  c ← handle_input_imp atoi done (set_buffer trans.send_buffer l.epoll.client)
  some (set_client c (record l { trans = trans }))

unfoldable pub output : Option ℕ → List (Option ℕ) → NetLoop → Option NetLoop
output accepted later l = do
  c ← handle_output_imp accepted later l.epoll.client
  some (set_client c l)

-- `handle`; `accepted` is what `::send` answers for the messages of an announced queue.
unfoldable pub handle :
    (ℕ → List Byte) → (List Byte → ℕ) → (ℕ → Option ℕ) → Reported → NetLoop → Option NetLoop
handle to_string atoi accepted no_pointer l = some l
handle to_string atoi accepted (of_notify info) l = do
  epoll ← handle_notify to_string accepted info l.epoll
  some (record l { epoll = epoll })
handle to_string atoi accepted (of_transceiver is_in is_out answers sent later) l = do
  l₁ ← if is_in then input atoi answers l else some l
  (if is_out then output sent later l₁ else some l₁)

unfoldable pub handle_each :
    (ℕ → List Byte) → (List Byte → ℕ) → (ℕ → Option ℕ) → List Reported → NetLoop → Option NetLoop
handle_each to_string atoi accepted [] l = some l
handle_each to_string atoi accepted (r ∷ reports) l = do
  l' ← handle to_string atoi accepted r l
  handle_each to_string atoi accepted reports l'

-- `run`, for the reports of so many waits, each with whether `terminate` was called before it.
unfoldable pub run :
    (ℕ → List Byte)
    → (List Byte → ℕ)
    → (ℕ → Option ℕ)
    → List (Bool × List Reported)
    → NetLoop
    → Option NetLoop
run to_string atoi accepted [] l = some l
run to_string atoi accepted ((ends, reports) ∷ rounds) l =
    let l₁ = if ends then record l { epoll = terminate l.epoll } else l in
    let on = (do
      l₂ ← handle_each to_string atoi accepted reports l₁
      run to_string atoi accepted rounds l₂) in
    if l₁.epoll.terminate_ then some l₁ else on
