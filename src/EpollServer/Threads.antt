-- ===== src/EpollServer/Threads.antt =====
-- Which network thread an answer reaches.
use tarsx.Prelude.{
  ℕ, ◌<◌, ◌≡◌, ◌≢◌, some, List, length, get_elem?, get_elem?-in, get_elem?-set_ne, set,
}
use tarsx.Buffer.{Byte}
use tarsx.NetThread.{NetThread}
use tarsx.NetThread.Serve.{recv_need_to_send_from_server}
use tarsx.EpollServer.{EpollServer, net_thread_index, on_thread, send}

-- An answer goes to the thread of the number `fd % n`, and every other one is left as it is. The
-- thread that accepts connections, and keeps them, is the first.
pub send-elsewhere :
    (uid fd : ℕ) (msg : List Byte) (s : EpollServer) (i : ℕ)
    → net_thread_index fd s ≡ some i
    → i < length s.net_threads
    → (s' : EpollServer) × (send uid msg fd s ≡ some s')
      × ((j : ℕ) → i ≢ j → get_elem? s'.net_threads j ≡ get_elem? s.net_threads j)
unfolding send on_thread
send-elsewhere uid fd msg s i e h =
    let (t, f) = get_elem?-in s.net_threads i h in
    let t' : NetThread = recv_need_to_send_from_server uid msg t in
    (
      record s { net_threads = set s.net_threads i t' },
      rw (e, f),
      λ j d. get_elem?-set_ne s.net_threads t' d,
    )
