-- ===== src/Calls/Tests.antt =====
-- A call to a server whose function gives the request back, as the hello server's do.
use tarsx.Prelude.{ℕ, ◌≡◌, refl, true, false, Option, some, List, [], ◌∷◌, ◌++◌, arith, ◌>>=◌}
use tarsx.Buffer.{Byte, Buffer, readable_size, empty, init}
use tarsx.Connection.{Read, received, htonl, req_data}
use tarsx.Connection.Stream.{taken}
use tarsx.ThreadDeque.{construct}
use tarsx.TimeoutQueueNew.{find}
use tarsx.TimeoutQueueNew as TimeoutQueueNew
use tarsx.Transceiver.{Transceiver, do_response}
use tarsx.Transceiver.Received.{in_pieces}
use tarsx.NetThread.{Connection, NetThread}
use tarsx.NetThread.Serve.{recv_need_to_send_from_server}
use tarsx.EpollServer.{EpollServer, net_thread_index}
use tarsx.ObjectProxy.{Client, generate_id, send_list_empty}
use tarsx.ObjectProxy.Valid.{Event, sends, events, Valid}
use tarsx.ObjectProxy.Answer.{Woken}
use tarsx.ObjectProxy.Book.{ptr_of, Agrees, book_events, book_send}
use tarsx.ObjectProxy.Book.Refines.{events-refines}
use tarsx.ObjectProxy.Tests.{
  digits, value, digits-NoColon, value-digits, buffer, client, client-Valid, client-Agrees, book,
}
use tarsx.CommunicatorEpoll.{handle_input_imp}
use tarsx.Calls.{on_wire, call}
use tarsx.Calls.Answered.{call_lem}
use tarsx.Calls.Merged.{handle_input_imp-do_response}

abbrev conn : Connection
conn = record {
  uid = 3;
  fd = 9;
  listening = true;
  adapter = 5;
  close_ = false;
  recv_buffer = init;
  send_slices = [];
}

abbrev thread : NetThread
unfolding construct
thread = record {
  connection_uids = (3, some conn) ∷ [];
  free_ = [];
  send_deque = construct;
  terminate_ = false;
  watched = (9, 3) ∷ [];
  adapters = λ i. record { receive_buffer = construct };
}

abbrev server : EpollServer
server = record { net_threads = thread ∷ []; terminate_ = false; handle_started = true; starts = 1 }

abbrev servants : ℕ → Option (List Byte → List Byte)
servants name = some (λ x. x)

abbrev trans : Transceiver
trans = record { valid = true; send_buffer = buffer; receive_buffer = buffer }

-- The request "!" with the id 5, in eight letters.
abbrev named : ℕ → List Byte
named x =
    some 65
    ∷ some 65
    ∷ some 65
    ∷ some 65
    ∷ some 65
    ∷ some 65
    ∷ some 65
    ∷ some x
    ∷ some 58
    ∷ some 33
    ∷ []

abbrev calls : List (List Read)
calls =
    (received (some 0 ∷ some 0 ∷ []) ∷ [])
    ∷ (received (some 0 ∷ some 10 ∷ some 58 ∷ named 70) ∷ [])
    ∷ []

abbrev pieces : List (Byte × List Byte)
pieces =
    (some 65, some 65 ∷ some 65 ∷ some 65 ∷ some 65 ∷ [])
    ∷ (some 65, some 65 ∷ some 70 ∷ some 58 ∷ some 33 ∷ [])
    ∷ []

call_lem_example :
    (c' : Client) × (b : Buffer) × (call digits value servants 5 conn
        (some 15)
        calls
        (in_pieces pieces)
        1
        client
        server
        trans
      ≡ some (
        c',
        record server {
          net_threads =
              recv_need_to_send_from_server 3
                (digits (generate_id 4) ++ some 58 ∷ some 33 ∷ [])
                thread
              ∷ [];
        },
        record trans { receive_buffer = b },
      ))
    × Woken 1 (digits (generate_id 4) ++ some 58 ∷ some 33 ∷ []) client (some c')
unfolding on_wire send_list_empty empty readable_size generate_id req_data htonl taken
    net_thread_index find TimeoutQueueNew.construct
call_lem_example =
    call_lem digits value digits-NoColon value-digits servants 5 0 (λ x. x) (λ x. x) conn 15 calls
      pieces 1 client server thread trans refl (λ n body. refl) refl refl client-Valid refl refl
      (tt, (tt, tt)) refl refl (omega arith) refl (omega arith) refl refl (omega arith)

-- Two calls that wait, with the ids 5 and 6.
abbrev two_calls : List Event
two_calls = sends 3 1 ∷ sends 0 2 ∷ []

waiting :
    (c' : Client) × (events digits value two_calls client ≡ some c')
    × Valid digits value c'
    × Agrees c' (book_events value two_calls book)
waiting = events-refines digits value two_calls client book client-Valid client-Agrees

-- "…F:" and "…G:!", in one piece.
abbrev both_answers : List (Byte × List Byte)
both_answers =
    (
      some 65,
      some 65 ∷ some 65 ∷ some 65 ∷ some 65 ∷ some 65 ∷ some 65 ∷ some 70 ∷ some 58 ∷ named 71,
    )
    ∷ []

handle_input_imp-do_response_example :
    (c' : Client) × ((do
      (done, t') ← do_response (in_pieces both_answers) trans
      handle_input_imp value done waiting.0)
      ≡ some c')
    × (c'.notified ≡ 1 ∷ waiting.0.notified)
    × ((c'.msgs 1).response ≡ (digits 5 ++ some 58 ∷ []) ++ (digits 6 ++ some 58 ∷ some 33 ∷ []))
    × (ptr_of (find 6 c'.proxy.queue.data_) ≡ some 2)
unfolding book_events book_send generate_id
handle_input_imp-do_response_example =
    handle_input_imp-do_response digits value digits-NoColon value-digits 5 6 1 2 [] (some 33 ∷ [])
      both_answers waiting.0 (book_events value two_calls book) trans waiting.2 waiting.3
      (omega arith) (omega arith) refl refl (omega arith) refl refl (omega arith)
