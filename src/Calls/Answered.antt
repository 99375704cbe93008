-- ===== src/Calls/Answered.antt =====
-- A call whose function answers under the id of the request.
use tarsx.Prelude.{
  ℕ, ◌+◌, ◌^◌, ◌≤◌, ◌<◌, ◌≡◌, refl, sym, ap, ◌∙◌, true, Option, none, some, List, [], ◌∷◌, ◌++◌,
  append-nil, length, length-append, take_all, arith, ◌>>=◌, >>=-eq-some, get_elem?, set,
}
use tarsx.Buffer
use tarsx.Buffer.{Byte, Buffer, init, max_buffer_size}
use tarsx.Buffer.Inv.{IsValid, contents}
use tarsx.Connection.{Read, htonl, req_data}
use tarsx.Connection.Stream.{AllOpen, recv_all}
use tarsx.Connection.Stream as Stream
use tarsx.Connection.Wire.{recv_all-sent}
use tarsx.TimeoutQueueNew.{find}
use tarsx.Transceiver.{Transceiver}
use tarsx.Transceiver.Received.{in_pieces, arrived, unless_empty, do_response_lem}
use tarsx.Message.{sync_call}
use tarsx.NetThread.{Connection, NetThread}
use tarsx.NetThread.Serve.{request_of, recv_need_to_send_from_server}
use tarsx.EpollServer.{EpollServer, net_thread_index, on_thread, send}
use tarsx.ServantHandle.{handle}
use tarsx.ObjectProxy.{Client, generate_id, send_list_empty, send_req_message, finish_invoke}
use tarsx.ObjectProxy.Valid.{Valid}
use tarsx.ObjectProxy.Answer.{NoColon, Woken, finish_invoke-send_req_message}
use tarsx.CommunicatorEpoll.{handle_input_imp}
use tarsx.Calls.{handle_all, on_wire, call}

-- The server's side: the answer is with the network thread of the connection's descriptor.
handle_found :
    (servants : ℕ → Option (List Byte → List Byte)) (name i : ℕ) (func : List Byte → List Byte)
    (conn : Connection) (req : List Byte) (e : EpollServer) (t : NetThread)
    → servants name ≡ some func
    → net_thread_index conn.fd e ≡ some i
    → get_elem? e.net_threads i ≡ some t
    → handle_all servants name conn (req ∷ []) e
      ≡ some (record e {
        net_threads = set e.net_threads i (recv_need_to_send_from_server conn.uid (func req) t);
      })
unfolding handle_all handle send on_thread request_of
handle_found servants name i func conn req e t f g h = rw (f, g, h)

pub input_one :
    (atoi : List Byte → ℕ) (response : List Byte) (c : Client)
    → handle_input_imp atoi (response ∷ []) c ≡ finish_invoke atoi response c
unfolding handle_input_imp
input_one atoi response c = bound (finish_invoke atoi response c)
  where
    bound : (o : Option Client) → (do c' ← o; some c') ≡ o
    bound none = refl
    bound (some c') = refl

pub some_answer :
    (id : List Byte) (body : List Byte)
    → unless_empty (id ++ some 58 ∷ body) ≡ (id ++ some 58 ∷ body) ∷ []
unfolding unless_empty
some_answer [] body = refl
some_answer (x ∷ xs) body = refl

-- A client in order, with nothing that waits to be sent, makes a call under an id that is not in use;
-- the function that the server has under the adapter's name answers a request with its id and a colon
-- in front. Where `::send` takes the whole request, what it took arrives, and what the function
-- answers comes back, in whatever pieces, nothing faults: the server hands the answer to the network
-- thread of the connection's descriptor, as a message to that connection, the caller is woken with
-- just that answer, and no other message changes. The request and the answer stay below
-- `MaxBufferSize`, and nothing else is being read.
pub call_lem :
    (to_string : ℕ → List Byte) (atoi : List Byte → ℕ)
    → ((n : ℕ) → n < 2 ^ 32 → NoColon (to_string n))
    → ((n : ℕ) → n < 2 ^ 32 → atoi (to_string n) ≡ n)
    → (servants : ℕ → Option (List Byte → List Byte)) (name i : ℕ)
      (func answer : List Byte → List Byte) (conn : Connection) (accepted : ℕ)
      (calls : List (List Read)) (pieces : List (Byte × List Byte)) (m : ℕ) (c : Client)
      (e : EpollServer) (t : NetThread) (trans : Transceiver)
    → servants name ≡ some func
    → ((n : ℕ) (body : List Byte)
        → func (to_string n ++ some 58 ∷ body) ≡ to_string n ++ some 58 ∷ answer body)
    → net_thread_index conn.fd e ≡ some i
    → get_elem? e.net_threads i ≡ some t
    → Valid to_string atoi c
    → (c.msgs m).type_ ≡ sync_call
    → find (generate_id c.proxy.id) c.proxy.queue.data_ ≡ none
    → AllOpen calls
    → send_list_empty c.proxy.queue ≡ true
    → Buffer.empty c.proxy.send_buffer ≡ true
    → length (req_data to_string (generate_id c.proxy.id) (c.msgs m).request) ≤ accepted
    → Stream.arrived calls ≡ on_wire to_string accepted m c
    → IsValid trans.receive_buffer
    → contents trans.receive_buffer ≡ []
    → arrived pieces ≡ func (to_string (generate_id c.proxy.id) ++ some 58 ∷ (c.msgs m).request)
    → length (arrived pieces) + 8192 < max_buffer_size
    → let id = to_string (generate_id c.proxy.id) in
      let response = id ++ some 58 ∷ answer (c.msgs m).request in
      (c' : Client) × (b : Buffer) × (call to_string atoi servants name conn
          (some accepted)
          calls
          (in_pieces pieces)
          m
          c
          e
          trans
        ≡ some (
          c',
          record e {
            net_threads = set e.net_threads i (recv_need_to_send_from_server conn.uid response t);
          },
          record trans { receive_buffer = b },
        ))
      × Woken m response c (some c')
unfolding call
call_lem to_string atoi clean inverse servants name i func answer conn accepted calls pieces m c e t
      trans found numbered index there v sync new open' unsent unheld all_taken came valid empty
      back small =
    let w =
      finish_invoke-send_req_message to_string atoi clean inverse accepted m (answer request) c v
        sync new in
    let (c₁, sent, woken) =
      >>=-eq-some (send_req_message to_string (some accepted) m c) (finish_invoke atoi response)
        w.returned in
    let a = do_response_lem pieces trans valid (omega (arith, ap length empty, small)) in
    (
      w.after,
      a.after,
      rw
          (
            sent,
            served,
            handle_found servants name i func conn (text ++ some 58 ∷ request) e t found index
                there,
            a.returned,
            read_back,
            input_one atoi response c₁,
            woken,
            numbered id request,
          )
          refl,
      record {
        after = w.after;
        returned = refl;
        told = w.told;
        fin = w.fin;
        answer = w.answer;
        waiting = w.waiting;
        others = w.others;
      },
    )
  where
    id : ℕ
    id = generate_id c.proxy.id

    text : List Byte
    text = to_string id

    request : List Byte
    request = (c.msgs m).request

    response : List Byte
    response = text ++ some 58 ∷ answer request

    wire : on_wire to_string accepted m c ≡ req_data to_string id request
    wire =
        unfold on_wire in
        rw (unsent, unheld) (take_all accepted (req_data to_string id request) all_taken)

    served : recv_all calls init ≡ some ((text ++ some 58 ∷ request) ∷ [])
    served =
        recv_all-sent to_string ((id, request) ∷ []) calls
          (unfold req_data htonl in omega (arith, v.short id m), tt)
          (omega (arith, v.short id m, length-append (req_data to_string id request) [])) open'
          (came ∙ wire ∙ sym (append-nil (req_data to_string id request)))

    read_back : unless_empty (contents trans.receive_buffer ++ arrived pieces) ≡ response ∷ []
    read_back =
        ap (λ xs. unless_empty (xs ++ arrived pieces)) empty
        ∙ ap unless_empty (back ∙ numbered id request)
        ∙ some_answer text (answer request)
