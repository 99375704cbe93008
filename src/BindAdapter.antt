-- ===== src/BindAdapter.antt =====
-- tarsx/BindAdapter.cc: the queue from the network thread to the handles. To notify the handles' monitor
-- changes nothing here.
use tarsx.Prelude.{ℕ, Bool, Option, none, some, List, if◌then◌else◌}
use tarsx.Buffer.{Byte}
use tarsx.ThreadDeque.{ThreadDeque, push_back_all, push_front_all, pop_front}

-- `EM_CLOSE_T`.
pub data CloseType : Type 0 where
  client_close server_close server_timeout_close : CloseType

-- `tagRecvData`, less the peer's address, the time, `overload` and `adapter`.
pub record RecvData : Type 0 where
  pub uid : ℕ
  pub buffer : List Byte
  pub closed : Bool
  pub fd : ℕ
  pub close_type : CloseType

-- `receiveBuffer_`.
pub record BindAdapter : Type 0 where
  pub receive_buffer : ThreadDeque RecvData

unfoldable pub insert_recv_deque : List RecvData → Bool → BindAdapter → BindAdapter
insert_recv_deque deque pushback a = record a {
  receive_buffer =
      if pushback
      then push_back_all deque a.receive_buffer
      else push_front_all deque a.receive_buffer;
}

-- `none` inside is a null pointer; what other threads do in the wait is an argument.
unfoldable pub wait_for_recv_queue :
    ℕ
    → (ThreadDeque RecvData → ThreadDeque RecvData)
    → BindAdapter
    → Option (Option RecvData × BindAdapter)
wait_for_recv_queue wait_time others a = elim (pop_front wait_time others a.receive_buffer) [
  | none ↦ none
  | some (recv, q) ↦ some (recv, record a { receive_buffer = q })
]
