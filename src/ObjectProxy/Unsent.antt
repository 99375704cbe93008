-- ===== src/ObjectProxy/Unsent.antt =====
-- A request that is left in the send list, and the `doInvoke` that is to send it.
use tarsx.Prelude.{
  ℕ, ◌+◌, ◌≡◌, ◌≢◌, refl, ap, ◌∙◌, true, false, Option, none, some, List, [], ◌∷◌, arith, ◌==◌,
}
use tarsx.Buffer.{Byte, empty}
use tarsx.Connection.{req_data}
use tarsx.TimeoutQueueNew.{TimeoutQueueNew, find, push, get_send}
use tarsx.TimeoutQueueNew.Laws.{push_new, get_send-push, find_head}
use tarsx.Transceiver.Sent.{send_request-waiting}
use tarsx.Message.{update}
use tarsx.ObjectProxy.{
  Client, generate_id, set_queue, was_sent, send_list_empty, send_req_message, do_invoke,
}
use tarsx.ObjectProxy.Answer.{keep_new}

-- What stays to be sent of a request that is pushed as not sent.
left_to_send :
    (m id deadline : ℕ) (c : Client)
    → c.proxy.queue.send_ ≡ []
    → find id c.proxy.queue.data_ ≡ none
    → (push m id deadline false c.proxy.queue).1.send_ ≡ id ∷ []
left_to_send m id deadline c none_waits new =
    rw (push_new m id deadline false c.proxy.queue new) (ap (λ ids. id ∷ ids) none_waits)

not_empty : (q : TimeoutQueueNew ℕ) (id : ℕ) → q.send_ ≡ id ∷ [] → send_list_empty q ≡ false
unfolding send_list_empty
not_empty q id e = rw (e, send_list_empty)

-- A `doInvoke` that has a request to send and whose `getSend` fails its assertion.
do_invoke-fails :
    (answers : List (Option ℕ)) (c : Client)
    → send_list_empty c.proxy.queue ≡ false
    → get_send (λ p. p == 0) c.proxy.queue ≡ none
    → do_invoke answers c ≡ none
unfolding do_invoke
do_invoke-fails [] c e f = rw e
do_invoke-fails (a ∷ answers) c e f = rw (e, f)

-- While bytes of an earlier request wait in the send buffer, and no request waits to be sent, the
-- request of a message, whose address is not null, is not given to `::send`: it is left in the send
-- list, alone, with its entry under its id and the buffer as it was. The next `doInvoke`, which is to
-- send it, faults, whatever `::send` would answer.
pub do_invoke-send_req_message :
    (to_string : ℕ → List Byte) (accepted : Option ℕ) (m : ℕ) (c : Client)
    → c.proxy.queue.send_ ≡ []
    → empty c.proxy.send_buffer ≡ false
    → find (generate_id c.proxy.id) c.proxy.queue.data_ ≡ none
    → m ≢ 0
    → (c₁ : Client) × (send_req_message to_string accepted m c ≡ some c₁)
      × (c₁.proxy.queue.send_ ≡ generate_id c.proxy.id ∷ [])
      × (find (generate_id c.proxy.id) c₁.proxy.queue.data_
          ≡ some (record { ptr = m; has_send = false }))
      × (c₁.proxy.send_buffer ≡ c.proxy.send_buffer)
      × ((answers : List (Option ℕ)) → do_invoke answers c₁ ≡ none)
unfolding send_req_message was_sent
do_invoke-send_req_message to_string accepted m c none_waits partly new real = (
  set_queue q after,
  rw
      (
        empty_lem,
        send_request-waiting bytes accepted c.proxy.send_buffer partly,
        keep_new m id deadline false after new,
      )
      refl,
  alone,
  ap (λ r. find id r.1.data_) (push_new m id deadline false c.proxy.queue new)
      ∙ find_head id (record { ptr = m; has_send = false }) c.proxy.queue.data_,
  refl,
  λ answers.
      do_invoke-fails answers (set_queue q after) (not_empty q id alone)
        (get_send-push (λ p. p == 0) m id deadline c.proxy.queue none_waits new (not_null m real)),
)
  where
    id : ℕ
    id = generate_id c.proxy.id

    bytes : List Byte
    bytes = req_data to_string id (c.msgs m).request

    deadline : ℕ
    deadline = 1000 + (c.msgs m).begin_time

    after : Client
    after = record c {
      proxy = record c.proxy { id = id; connected = true };
      msgs = update m (λ r. record r { request_id = id; req_data = bytes }) c.msgs;
    }

    q : TimeoutQueueNew ℕ
    q = (push m id deadline false c.proxy.queue).1

    alone : q.send_ ≡ id ∷ []
    alone = left_to_send m id deadline c none_waits new

    empty_lem : send_list_empty c.proxy.queue ≡ true
    empty_lem = unfold send_list_empty in rw none_waits

    not_null : (m : ℕ) → m ≢ 0 → (m == 0) ≡ false
    not_null m h = ground arith
