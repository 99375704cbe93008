-- ===== src/NetThread.antt =====
-- tarsx/NetThread.cc: a network thread of a server: the connections by their ids, the ids that are free,
-- and what handles give it to send. What `::accept`, `::read`, `::send` and `::writev` answer are
-- arguments. A connection is one of its members' state; `none` is a fault.
pub mod Serve
pub mod Kept
pub mod Free
pub mod Ids
pub mod Closed
pub mod Lookups
pub mod Distinct
mod Tests
use tarsx.Prelude.{
  ℕ, zero, suc, ◌+◌, Bool, true, false, Option, none, some, List, [], ◌∷◌, ◌==◌, if◌then◌else◌,
  ◌++◌, length, ◌>>=◌, not, map,
}
use tarsx.Buffer.{Byte, Buffer, init}
use tarsx.Connection.{Slice, Read, recv}
use tarsx.Connection.Send.{SendResult, no_slices, send, send_buffer}
use tarsx.ThreadDeque.{ThreadDeque, push_back, swap}
use tarsx.BindAdapter.{
  CloseType, client_close, server_close, RecvData, BindAdapter, insert_recv_deque,
}

-- A `Connection`, less its peer's address: `listening` is `listenfd_ != -1`.
pub record Connection : Type 0 where
  pub uid : ℕ
  pub fd : ℕ
  pub listening : Bool
  pub adapter : ℕ
  pub close_ : Bool
  pub recv_buffer : Buffer
  pub send_slices : List Slice

-- `tagSendData` by its `cmd`: 's' with its id and bytes, 'c' with its id, or another one.
pub data SendData : Type 0 where
  cmd_s : ℕ → List Byte → SendData
  cmd_c : ℕ → SendData
  cmd_other : SendData

-- `connectionUids_` with its null pointers as `none`, the descriptors that epoll watches with the ids
-- that they carry, and the adapters by the descriptors that they listen on (`listeners_`).
pub record NetThread : Type 0 where
  pub connection_uids : List (ℕ × Option Connection)
  pub free_ : List ℕ
  pub send_deque : ThreadDeque SendData
  pub terminate_ : Bool
  pub watched : List (ℕ × ℕ)
  pub adapters : ℕ → BindAdapter

-- `connectionUids_[uid]`, which puts a null pointer where there is nothing.
unfoldable pub lookup : ℕ → List (ℕ × Option Connection) → Option Connection
lookup uid [] = none
lookup uid ((j, c) ∷ m) = if uid == j then c else lookup uid m

unfoldable pub touch : ℕ → List (ℕ × Option Connection) → List (ℕ × Option Connection)
touch uid [] = (uid, none) ∷ []
touch uid ((j, c) ∷ m) = if uid == j then (j, c) ∷ m else (j, c) ∷ touch uid m

-- `connectionUids_[uid] = connection`.
unfoldable pub assign :
    ℕ → Option Connection → List (ℕ × Option Connection) → List (ℕ × Option Connection)
assign uid c [] = (uid, c) ∷ []
assign uid c ((j, d) ∷ m) = if uid == j then (j, c) ∷ m else (j, d) ∷ assign uid c m

-- `connectionUids_.erase(uid)`.
unfoldable pub erase_uid : ℕ → List (ℕ × Option Connection) → List (ℕ × Option Connection)
erase_uid uid [] = []
erase_uid uid ((j, c) ∷ m) = if uid == j then m else (j, c) ∷ erase_uid uid m

unfoldable pub unwatch : ℕ → List (ℕ × ℕ) → List (ℕ × ℕ)
unwatch fd [] = []
unwatch fd ((f, u) ∷ ws) = if fd == f then ws else (f, u) ∷ unwatch fd ws

unfoldable pub update_adapter :
    ℕ → (BindAdapter → BindAdapter) → (ℕ → BindAdapter) → ℕ → BindAdapter
update_adapter i f adapters j = if j == i then f (adapters j) else adapters j

-- `createEpoll`: the ids from `i` on, so many of them.
unfoldable pub ids_from : ℕ → ℕ → List ℕ
ids_from i zero = []
ids_from i (suc n) = i ∷ ids_from (suc i) n

unfoldable pub create_epoll : NetThread → NetThread
create_epoll t = record t { free_ = t.free_ ++ ids_from 1 2000 }

-- `addTConnection`: `free_.front()` of an empty list is the fault.
unfoldable pub add_t_connection : Connection → NetThread → Option NetThread
add_t_connection c t = elim t.free_ [
  | [] ↦ none
  | uid ∷ rest ↦ some (record t {
    free_ = rest;
    connection_uids = assign uid (some (record c { uid = uid })) t.connection_uids;
    watched = (c.fd, uid) ∷ t.watched;
  })
]

-- `delConnection`. The descriptor is closed, and the connection is no longer reached from here.
unfoldable pub del_connection : Connection → CloseType → NetThread → NetThread
del_connection c close_type t =
    let msg : RecvData = record {
      uid = c.uid;
      buffer = [];
      closed = true;
      fd = c.fd;
      close_type = close_type;
    } in
    if c.listening
    then record t {
      adapters = update_adapter c.adapter (insert_recv_deque (msg ∷ []) true) t.adapters;
      watched = unwatch c.fd t.watched;
      connection_uids = erase_uid c.uid t.connection_uids;
    }
    else t

-- What `::accept` answers: a descriptor above 0, `EAGAIN`, or another error.
pub data Accepted : Type 0 where
  got_fd : ℕ → Accepted
  again failed : Accepted

-- `accept`: whether to call it once more.
unfoldable pub accept : ℕ → Accepted → NetThread → Option (Bool × NetThread)
accept listenfd (got_fd fd) t = do
  t' ←
      add_t_connection
        (record {
          uid = 0;
          fd = fd;
          listening = true;
          adapter = listenfd;
          close_ = false;
          recv_buffer = init;
          send_slices = [];
        })
        t
  some (true, t')
accept listenfd again t = some (false, t)
accept listenfd failed t = some (true, t)

-- The loop of `run` over `accept`. Past the answers' end `::accept` answers `EAGAIN`.
unfoldable pub accept_loop : ℕ → List Accepted → NetThread → Option NetThread
accept_loop listenfd [] t = some t
accept_loop listenfd (a ∷ answers) t = do
  (more, t') ← accept listenfd a t
  let onward = accept_loop listenfd answers t'
  (if more then onward else some t')

abbrev pub is_some : Option Connection → Bool
is_some none = false
is_some (some _) = true

-- A connection that is in the map, changed by what was called on it.
unfoldable pub store : Connection → NetThread → NetThread
store c t =
    if is_some (lookup c.uid t.connection_uids)
    then record t { connection_uids = assign c.uid (some c) t.connection_uids }
    else t
