-- ===== src/ServantProxy.antt =====
-- tarsx/ServantProxy.cc: how a call chooses a network thread and hands its message over. The blocks of
-- new rings are what `malloc` returns, an argument. `none` is a fault.
pub mod Text
pub mod Choose
pub mod Invoke
mod Tests
use tarsx.Prelude.{
  ℕ, zero, suc, ◌*◌, ◌+◌, ◌/◌, Bool, true, false, Option, none, some, List, [], ◌∷◌, ◌++◌, ◌==◌,
  ltb, not, if◌then◌else◌, length, get_elem?, set, ◌>>=◌, ◌>>◌, guard,
}
use tarsx.Buffer.{Byte}
use tarsx.LoopQueue.{LoopQueue, init, Pushed, push_back}
use tarsx.Message.{ReqMessage, CallType, sync_call, async_call, one_way, thread_exit, update}
use tarsx.Message as Message
use tarsx.ObjectProxy.{before_colon}

-- `ServantProxyThreadData`: `reqQueue_` as far as it was filled, and of the others what is used here;
-- `netThreadSeq_` is `none` for -1.
pub record ThreadData : Type 0 where
  pub req_queue : List (LoopQueue ℕ)
  pub queue_init : Bool
  pub net_seq : ℕ
  pub net_thread_seq : Option ℕ
  pub object_proxy_num : ℕ

-- The object proxies by address.
pub record ServantProxy : Type 0 where
  pub object_proxy : List ℕ
  pub object_proxy_num : ℕ
  pub queue_size : ℕ

-- `new ReqInfoQueue(queueSize_)` for `n` places of `reqQueue_`, of which there are `room`.
unfoldable pub new_queues : ℕ → (ℕ → List ℕ) → ℕ → ℕ → Option (List (LoopQueue ℕ))
new_queues queue_size malloc room zero = some []
new_queues queue_size malloc zero (suc n) = none
new_queues queue_size malloc (suc room) (suc n) = do
  q ← init queue_size (malloc n)
  qs ← new_queues queue_size malloc room n
  some (q ∷ qs)

unfoldable pub init_queues : ServantProxy → (ℕ → List ℕ) → ThreadData → Option ThreadData
init_queues s malloc d =
    let filled = (do
      qs ← new_queues s.queue_size malloc 64 s.object_proxy_num
      some (record d {
        req_queue = qs;
        object_proxy_num = s.object_proxy_num;
        queue_init = true;
      })) in
    if d.queue_init then some d else filled

-- The number of the proxy and of the queue.
unfoldable pub choose : ServantProxy → ThreadData → Option (ℕ × ThreadData)
choose s d =
    let next = suc d.net_seq in
    let turn : ℕ × ThreadData =
      (d.net_seq, record d { net_seq = if next == s.object_proxy_num then 0 else next }) in
    if s.object_proxy_num == 1 then some (0, d) else elim d.net_thread_seq [
      | none ↦ some turn
      | some i ↦ (do guard (ltb i s.object_proxy_num); some (i, d))
    ]

-- `selectNetThreadInfo`: the number chosen, the proxy and the thread's data.
unfoldable pub select_net_thread_info :
    ServantProxy → (ℕ → List ℕ) → ThreadData → Option (ℕ × ℕ × ThreadData)
select_net_thread_info s malloc d = do
  d₁ ← init_queues s malloc d
  (i, d₂) ← choose s d₁
  proxy ← get_elem? s.object_proxy i
  some (i, proxy, d₂)

-- What `invoke` leaves: the announcements that it made, each with its sequence number and the number
-- of the queue, the messages that it deleted, and whether the caller goes on to wait for the answer.
pub record Invoked : Type 0 where
  pub data_ : ThreadData
  pub msgs : ℕ → ReqMessage
  pub notified : List (ℕ × ℕ)
  pub deleted : List ℕ
  pub waits : Bool

unfoldable pub is_sync : CallType → Bool
is_sync sync_call = true
is_sync async_call = false
is_sync one_way = false
is_sync thread_exit = false

-- `beginTime` from the clock, and the monitor of a caller that waits.
unfoldable pub begin : ℕ → ℕ → ReqMessage → ReqMessage
begin sec usec r = record r {
  begin_time = sec * 1000 + usec / 1000;
  monitor_fin = if is_sync r.type_ then false else r.monitor_fin;
}

-- The end of `invoke`, with `msg`, which is null where it is `none`: whether the caller goes on to wait.
unfoldable pub wait_for : Bool → Option ℕ → (ℕ → ReqMessage) → Option Bool
wait_for false msg msgs = some false
wait_for true none msgs = none
wait_for true (some m) msgs = some (not (msgs m).monitor_fin)

-- `invoke`, behind the `push_back`: where that refused the message, it was deleted and `msg` is null.
unfoldable pub pushed : ℕ → ℕ → ThreadData → (ℕ → ReqMessage) → Bool → Option Invoked
pushed m i d msgs done = do
  waits ← wait_for (is_sync (msgs m).type_) (if done then some m else none) msgs
  some (record {
    data_ = d;
    msgs = msgs;
    notified = if done then (d.net_seq, i) ∷ [] else (d.net_seq, i) ∷ (d.net_seq, i) ∷ [];
    deleted = if done then [] else m ∷ [];
    waits = waits;
  })

-- `invoke`, at the time `sec` and `usec`.
unfoldable pub invoke :
    ServantProxy → (ℕ → List ℕ) → ℕ → ℕ → ℕ → (ℕ → ReqMessage) → ThreadData → Option Invoked
invoke s malloc sec usec m msgs d = do
  (i, _, d₁) ← select_net_thread_info s malloc d
  q ← get_elem? d₁.req_queue i
  r ← push_back q m
  pushed m i (record d₁ { req_queue = set d₁.req_queue i r.queue }) (update m (begin sec usec) msgs)
      r.done

-- `func_name + ":" + request`.
unfoldable pub request_text : List Byte → List Byte → List Byte
request_text func_name request = func_name ++ some 58 ∷ request

-- The message that `tars_invoke` and `tars_invoke_async` make.
unfoldable pub sync_message : List Byte → List Byte → ReqMessage
sync_message func_name request = record (Message.init sync_call Message.fresh) {
  request = request_text func_name request;
}

unfoldable pub async_message : Bool → List Byte → List Byte → ReqMessage
async_message callback func_name request = record (Message.init async_call Message.fresh) {
  callback = callback;
  request = request_text func_name request;
}

-- What is left of a `std::string` behind its first colon, all of it where there is none.
unfoldable pub after_colon : List Byte → List Byte → List Byte
after_colon whole [] = whole
after_colon whole (none ∷ xs) = after_colon whole xs
after_colon whole (some x ∷ xs) = if x == 58 then xs else after_colon whole xs

-- `parseRequest`: the request without its id, and the name of its function.
unfoldable pub parse_request : List Byte → List Byte × List Byte
parse_request request = let body = after_colon request request in (body, before_colon body)
