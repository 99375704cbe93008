-- ===== src/NetThread/Closed.antt =====
-- What becomes of messages to a connection that is gone.
use tarsx.Prelude.{
  ℕ, suc, ◌≤◌, ◌≡◌, refl, Bool, true, false, Option, none, some, List, [], ◌∷◌, arith, ◌==◌,
  if◌then◌else◌,
}
use tarsx.Buffer.{Byte}
use tarsx.Connection.{Slice, Read}
use tarsx.Connection.Send.{Written}
use tarsx.ThreadDeque.{push_back, swap}
use tarsx.BindAdapter.{server_close}
use tarsx.NetThread.{Connection, SendData, NetThread, lookup, touch, erase_uid, del_connection}
use tarsx.NetThread.Serve.{
  process_net, process_message, process_messages, process_pipe, recv_need_to_send_from_server,
  et_notify, et_net, dispatch, dispatched, needs_to_send, step, steps,
}

-- How often an id is a key.
abbrev pub keys : ℕ → List (ℕ × Option Connection) → ℕ
keys uid [] = 0
keys uid ((j, c) ∷ m) = if uid == j then suc (keys uid m) else keys uid m

pub lookup_absent :
    (uid : ℕ) (m : List (ℕ × Option Connection)) → keys uid m ≡ 0 → lookup uid m ≡ none
unfolding lookup
lookup_absent uid [] h = refl
lookup_absent uid ((j, c) ∷ m) h = ground (arith, lookup_absent uid m)

pub keys-touch :
    (uid : ℕ) (m : List (ℕ × Option Connection)) → keys uid m ≤ 1 → keys uid (touch uid m) ≡ 1
unfolding touch
keys-touch uid [] h = ground arith
keys-touch uid ((j, c) ∷ m) h = ground (arith, keys-touch uid m)

keys-erase_uid :
    (uid : ℕ) (m : List (ℕ × Option Connection)) → keys uid m ≤ 1 → keys uid (erase_uid uid m) ≡ 0
unfolding erase_uid
keys-erase_uid uid [] h = refl
keys-erase_uid uid ((j, c) ∷ m) h = ground (arith, keys-erase_uid uid m)

-- An id that no connection has.
gone :
    (uid : ℕ) (m : List (ℕ × Option Connection))
    → keys uid m ≤ 1
    → lookup uid (erase_uid uid (touch uid m)) ≡ none
gone uid m h =
    lookup_absent uid _ (keys-erase_uid uid (touch uid m) (omega (arith, keys-touch uid m h)))

-- An answer under an id that has no connection.
answer_lost :
    (uid : ℕ) (msg : List Byte) (sent : SendData → Option ℕ) (t : NetThread)
    → lookup uid t.connection_uids ≡ none
    → t.terminate_ ≡ false
    → t.send_deque.deque_ ≡ []
    → process_pipe sent (recv_need_to_send_from_server uid msg t) ≡ none
unfolding process_pipe recv_need_to_send_from_server push_back swap process_messages process_message
answer_lost uid msg sent t absent runs idle = simp (runs, idle, absent)

module _ (writev : List Slice → Written) (max_iov uid : ℕ) (t : NetThread) (c : Connection)
    (one : keys uid t.connection_uids ≤ 1) (there : lookup uid t.connection_uids ≡ some c)
    (own : c.uid ≡ uid) (accepted : c.listening ≡ true) (runs : t.terminate_ ≡ false)
    (idle : t.send_deque.deque_ ≡ []) where
  shut : NetThread
  shut = del_connection c server_close (record t { connection_uids = touch uid t.connection_uids })

  process_net_lem :
      (is_in is_out : Bool) (reads : List Read)
      → process_net writev max_iov uid true is_in is_out reads t ≡ some shut
  unfolding process_net shut
  process_net_lem is_in is_out reads = rw (there, process_net)

  lookup-shut : lookup uid shut.connection_uids ≡ none
  unfolding shut del_connection
  lookup-shut = rw (accepted, own) (gone uid t.connection_uids one)

  runs_on : shut.terminate_ ≡ false
  unfolding shut del_connection
  runs_on = rw accepted runs

  nothing_waits : shut.send_deque.deque_ ≡ []
  unfolding shut del_connection
  nothing_waits = rw accepted idle

  -- A handle's answer to a connection that an error closed ends the server: the thread follows the null
  -- pointer that it finds under the id. The connection was accepted, its id stands at most once in
  -- the map, and no other message waits.
  pub steps-answer_closed :
      (is_in is_out : Bool) (reads : List Read) (msg : List Byte) (sent : SendData → Option ℕ)
      → steps writev max_iov
          (dispatched (et_net uid true is_in is_out reads)
            ∷ needs_to_send uid msg
            ∷ dispatched (et_notify sent)
            ∷ [])
          t
        ≡ none
  unfolding steps step dispatch
  steps-answer_closed is_in is_out reads msg sent = rw (
    process_net_lem is_in is_out reads,
    answer_lost uid msg sent shut lookup-shut runs_on nothing_waits,
  )
