-- ===== src/EpollServer.antt =====
-- tarsx/EpollServer.cc: the choice of the network thread for a connection, by its descriptor.
pub mod Threads
pub mod Groups
use tarsx.Prelude.{
  ℕ, ◌%◌, Bool, true, false, Option, none, some, List, [], ◌∷◌, ◌==◌, if◌then◌else◌, length,
  get_elem?, set, ◌>>=◌,
}
use tarsx.Buffer.{Byte}
use tarsx.NetThread.{Connection, NetThread, add_t_connection, create_epoll}
use tarsx.NetThread.Serve.{recv_need_to_send_from_server}
use tarsx.NetThread.Serve as Net

-- `netThreads_`, `terminate_` and `handleStarted_`, and how often handles were started.
pub record EpollServer : Type 0 where
  pub net_threads : List NetThread
  pub terminate_ : Bool
  pub handle_started : Bool
  pub starts : ℕ

-- `getNetThreadByfd`: a modulus of 0, or an index past the vector, is the fault.
unfoldable pub net_thread_index : ℕ → EpollServer → Option ℕ
net_thread_index fd s = if length s.net_threads == 0 then none else some (fd % length s.net_threads)

-- A call on the thread of a descriptor.
unfoldable pub on_thread : ℕ → (NetThread → Option NetThread) → EpollServer → Option EpollServer
on_thread fd call s = do
  i ← net_thread_index fd s
  t ← get_elem? s.net_threads i
  t' ← call t
  some (record s { net_threads = set s.net_threads i t' })

unfoldable pub send : ℕ → List Byte → ℕ → EpollServer → Option EpollServer
send uid msg fd s = on_thread fd (λ t. some (recv_need_to_send_from_server uid msg t)) s

unfoldable pub add_connection : Connection → ℕ → EpollServer → Option EpollServer
add_connection c fd s = on_thread fd (add_t_connection c) s

unfoldable pub close : ℕ → ℕ → EpollServer → Option EpollServer
close uid fd s = on_thread fd (λ t. some (Net.close uid t)) s

-- `createEpoll`.
unfoldable pub create_epolls : List NetThread → List NetThread
create_epolls [] = []
create_epolls (t ∷ ts) = create_epoll t ∷ create_epolls ts

-- `startHandle` over so many handles.
unfoldable pub start_handle : ℕ → EpollServer → EpollServer
start_handle handles s =
    if s.handle_started then s else record s { handle_started = true; starts = handles }

unfoldable pub terminate : EpollServer → EpollServer
terminate s = if s.terminate_ then s else record s { terminate_ = true }
