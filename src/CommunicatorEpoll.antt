-- ===== src/CommunicatorEpoll.antt =====
-- tarsx/CommunicatorEpoll.cc: a network thread of a client: the queues of requests that callers announce,
-- and what epoll reports. All messages are of one server, whose proxy is in the `Client`; queues are
-- named by numbers that stand for their addresses. `none` is a fault, or the end of the program.
pub mod Drain
pub mod Run
pub mod Inputs
pub mod Lost
pub mod Start
mod Tests
use tarsx.Prelude.{
  ℕ, zero, suc, Bool, true, false, Option, none, some, List, [], ◌∷◌, ◌==◌, if◌then◌else◌, length,
  get_elem?, set, map, ◌>>=◌, ◌>>◌, guard,
}
use tarsx.Buffer.{Byte}
use tarsx.LoopQueue.{LoopQueue, empty, size, pop_front}
use tarsx.AsyncProcThread
use tarsx.AsyncProcThread.{AsyncProcThread, AsyncThreads}
use tarsx.Message.{ReqMessage, CallType, sync_call, async_call, one_way, thread_exit}
use tarsx.ObjectProxy.{Client, send_req_message, finish_invoke}

-- `NotifyInfo`: whether its socket is open, `valid`, and of its `fd_info` the sequence number and the
-- queue.
pub record NotifyInfo : Type 0 where
  pub valid : Bool
  pub opened : Bool
  pub seq : ℕ
  pub p : Option ℕ

-- `notify_`, the queues by address (`none` once deleted), the client, and `terminate_`.
pub record CommunicatorEpoll : Type 0 where
  pub notify_ : List NotifyInfo
  pub queues : ℕ → Option (LoopQueue ℕ)
  pub client : Client
  pub deleted : List ℕ
  pub terminate_ : Bool

-- `notify_` of so many entries.
unfoldable pub entries : ℕ → List NotifyInfo
entries zero = []
entries (suc n) = record { valid = false; opened = false; seq = 0; p = none } ∷ entries n

-- The threads for callbacks that the constructor makes, each over the block that its ring allocates.
unfoldable pub new_threads : List (List ℕ) → Option (List AsyncProcThread)
new_threads [] = some []
new_threads (block ∷ blocks) = do
  t ← AsyncProcThread.construct 100 block
  ts ← new_threads blocks
  some (t ∷ ts)

-- `CommunicatorEpoll(communicator, netThreadSeq)`: the table and the threads for callbacks, of which
-- there is one; the messages, the queues and the proxies are made elsewhere.
unfoldable pub construct : List ℕ → Option (List NotifyInfo × AsyncThreads)
construct block = do
  ts ← new_threads (block ∷ [])
  some (entries 2048, record { threads = ts; async_seq = 0; async_thread_num = 1 })

unfoldable pub put_queue :
    ℕ → Option (LoopQueue ℕ) → (ℕ → Option (LoopQueue ℕ)) → ℕ → Option (LoopQueue ℕ)
put_queue a q queues b = if b == a then q else queues b

-- `notify`: the queue of a caller is announced. An entry past the table is the fault.
unfoldable pub notify : ℕ → ℕ → CommunicatorEpoll → Option CommunicatorEpoll
notify seq queue e = do
  info ← get_elem? e.notify_ seq
  some (record e {
    notify_ = set e.notify_ seq (
        if info.valid
        then record info { p = some queue }
        else record { valid = true; opened = true; seq = seq; p = some queue });
  })

-- `notifyDel`: whether epoll is asked to report the entry once more.
unfoldable pub notify_del : ℕ → CommunicatorEpoll → Option Bool
notify_del seq e = do
  info ← get_elem? e.notify_ seq
  some (if info.valid then (elim info.p [ none ↦ false | some _ ↦ true ]) else false)

-- A message that the loop of `handle` took out: `none` inside is the message that ends the thread,
-- behind which the queue has to be empty.
unfoldable pub take_message :
    (ℕ → List Byte) → (ℕ → Option ℕ) → ℕ → LoopQueue ℕ → Client → Option (Option Client)
take_message to_string accepted m q c =
    let sent = (do c' ← send_req_message to_string (accepted m) m c; some (some c')) in
    elim (c.msgs m).type_ [ thread_exit ↦ (do guard (empty q); some none) | _ ↦ sent ]

-- What the loop of `handle` leaves: the queue, the client, and the message that ended the thread.
pub record Drained : Type 0 where
  pub queue : LoopQueue ℕ
  pub client : Client
  pub exited : Option ℕ

-- The loop of `handle` over a queue, for fewer rounds than the fuel.
unfoldable pub drain : (ℕ → List Byte) → (ℕ → Option ℕ) → ℕ → LoopQueue ℕ → Client → Option Drained
drain to_string accepted zero q c = none
drain to_string accepted (suc fuel) q c = do
  (got, q') ← pop_front q
  elim got [
    | none ↦ some (record { queue = q'; client = c; exited = none })
    | some m ↦ (do
      next ← take_message to_string accepted m q' c
      elim next [
        | none ↦ some (record { queue = q'; client = c; exited = some m })
        | some c' ↦ drain to_string accepted fuel q' c'
      ])
  ]

-- The end of the thread in `handle`: the message and the queue are deleted, the entry is given back.
unfoldable pub retire : ℕ → ℕ → ℕ → CommunicatorEpoll → Option CommunicatorEpoll
retire m queue seq e = do
  info ← get_elem? e.notify_ seq
  some (record e {
    notify_ = set e.notify_ seq (record info { valid = false; opened = false; p = none });
    queues = put_queue queue none e.queues;
    deleted = m ∷ e.deleted;
  })

-- `handle` of an entry of `notify_`. The queue's elements bound the rounds.
unfoldable pub handle_notify :
    (ℕ → List Byte) → (ℕ → Option ℕ) → NotifyInfo → CommunicatorEpoll → Option CommunicatorEpoll
handle_notify to_string accepted info e = do
  queue ← info.p
  q ← e.queues queue
  d ← drain to_string accepted (suc (size q)) q e.client
  let e' : CommunicatorEpoll = record e {
    client = d.client;
    queues = put_queue queue (some d.queue) e.queues;
  }
  elim d.exited [ none ↦ some e' | some m ↦ retire m queue info.seq e' ]

-- `handleInputImp` with the strings that `doResponse` gave.
unfoldable pub handle_input_imp : (List Byte → ℕ) → List (List Byte) → Client → Option Client
handle_input_imp atoi [] c = some c
handle_input_imp atoi (response ∷ done) c = do
  c' ← finish_invoke atoi response c
  handle_input_imp atoi done c'

unfoldable pub terminate_threads : AsyncThreads → AsyncThreads
terminate_threads a = record a { threads = map AsyncProcThread.terminate a.threads }

unfoldable pub terminate : CommunicatorEpoll → CommunicatorEpoll
terminate e = record e {
  client = record e.client { async = terminate_threads e.client.async };
  terminate_ = true;
}
