-- ===== src/NetThread/Tests.antt =====
-- A network thread whose connection 1 is over the descriptor 9.
use tarsx.Prelude.{ℕ, zero, suc, ◌≡◌, refl, true, false, none, some, List, [], ◌∷◌, arith}
use tarsx.Buffer.{init}
use tarsx.Connection.{Slice}
use tarsx.Connection.Send.{Written, failed_write}
use tarsx.ThreadDeque.{construct}
use tarsx.BindAdapter.{BindAdapter}
use tarsx.NetThread.{
  Connection, NetThread, lookup, assign, ids_from, create_epoll, Accepted, got_fd, accept,
  accept_loop, add_t_connection,
}
use tarsx.NetThread.Serve.{
  et_listen, et_net, et_notify, dispatched, needs_to_send, dispatch, step, steps,
}
use tarsx.NetThread.Ids.{made, steps-exhausted}
use tarsx.NetThread.Closed.{steps-answer_closed}
use tarsx.NetThread.Distinct.{Distinct, steps-Distinct}

abbrev adapter : BindAdapter
unfolding construct
adapter = record { receive_buffer = construct }

abbrev nine : Connection
nine = record {
  uid = 1;
  fd = 9;
  listening = true;
  adapter = 5;
  close_ = false;
  recv_buffer = init;
  send_slices = [];
}

abbrev thread : NetThread
thread = record {
  connection_uids = (1, some nine) ∷ [];
  free_ = [];
  send_deque = record { deque_ = []; size_ = 0 };
  terminate_ = false;
  watched = (9, 1) ∷ [];
  adapters = λ i. adapter;
}

abbrev no_slots : List Slice → Written
no_slots group = failed_write

steps-answer_closed_example :
    steps no_slots 16
      (dispatched (et_net 1 true false false [])
        ∷ needs_to_send 1 (some 97 ∷ [])
        ∷ dispatched (et_notify (λ m. some 1))
        ∷ [])
      thread
    ≡ none
steps-answer_closed_example =
    steps-answer_closed no_slots 16 1 thread nine (omega arith) (unfold lookup in refl) refl refl
      refl refl false false [] (some 97 ∷ []) (λ m. some 1)

-- So many connections in one round.
abbrev crowd : ℕ → List Accepted
crowd zero = []
crowd (suc n) = got_fd 9 ∷ crowd n

made-crowd : (n : ℕ) → made (crowd n) ≡ n
made-crowd zero = refl
made-crowd (suc n) = omega (arith, made-crowd n)

steps-exhausted_example :
    steps no_slots 16 (dispatched (et_listen 5 (crowd 2001)) ∷ []) (create_epoll thread) ≡ none
steps-exhausted_example =
    steps-exhausted no_slots 16 (dispatched (et_listen 5 (crowd 2001)) ∷ []) thread
      (omega (arith, made-crowd 2001))

-- A thread before its first connection, and with its second one.
abbrev idle : NetThread
idle = record thread { connection_uids = []; watched = [] }

abbrev accepted : ℕ → ℕ → Connection
accepted u d = record nine { uid = u; fd = d }

abbrev two_made : NetThread
two_made = record idle {
  connection_uids = (1, some (accepted 1 9)) ∷ (2, some (accepted 2 8)) ∷ [];
  free_ = ids_from 3 1998;
  watched = (8, 2) ∷ (9, 1) ∷ [];
}

two_made_by_steps :
    steps no_slots 16 (dispatched (et_listen 5 (got_fd 9 ∷ got_fd 8 ∷ [])) ∷ []) (create_epoll idle)
    ≡ some two_made
unfolding steps step dispatch accept_loop accept add_t_connection create_epoll ids_from assign
two_made_by_steps = refl

steps-Distinct_example : Distinct two_made.connection_uids two_made.free_
steps-Distinct_example =
    steps-Distinct no_slots 16 (dispatched (et_listen 5 (got_fd 9 ∷ got_fd 8 ∷ [])) ∷ []) idle
      two_made refl refl two_made_by_steps
