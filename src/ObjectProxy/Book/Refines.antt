-- ===== src/ObjectProxy/Book/Refines.antt =====
-- The client against its book.
use tarsx.Prelude.{
  ℕ, ◌+◌, ◌≡◌, refl, sym, ap, subst, ◌∙◌, inl, inr, Bool, true, false, none, some, List, [], ◌∷◌,
  ◌==◌, if◌then◌else◌, Bool-cases,
}
use tarsx.Buffer.{Byte, Buffer}
use tarsx.Connection.{req_data}
use tarsx.TimeoutQueueNew.{find, push, unlink}
use tarsx.TimeoutQueueNew.Inv.{Linked, cases}
use tarsx.TimeoutQueueNew.Laws.{push_new, erase_found, erase_unknown}
use tarsx.Transceiver.Sent.{send_request_lem}
use tarsx.Message.{req_exc, update}
use tarsx.ObjectProxy.{
  Client, generate_id, set_queue, finish_message, before_colon, finish_erased, finish_invoke,
  was_sent, send_list_empty, keep, send_req_message,
}
use tarsx.ObjectProxy.Types.{type-update}
use tarsx.ObjectProxy.Answer.{keep_new}
use tarsx.ObjectProxy.Valid.{Event, sends, answered, event, events, Valid, Stays-event}
use tarsx.ObjectProxy.Book.{Book, strike, book_send, book_answer, book_events, Agrees, Follows}
use tarsx.ObjectProxy.Book.Laws.{
  same_strike, same_new, response-update, response_written, finish_sync, holder_of_find, keep_used,
  book_unknown, book_known, book_new, book_taken,
}

-- A caller that is woken.
Follows-finish :
    (m : ℕ) (c : Client) (b : Book)
    → Agrees c b
    → Follows (record b { woken = m ∷ b.woken }) (finish_message m c)
Follows-finish m c b a = (
  record c {
    notified = m ∷ c.notified;
    msgs = update m (λ r. record r { monitor_fin = true }) c.msgs;
  },
  finish_sync m c (a.sync m),
  record {
    last = a.last;
    same = a.same;
    told = ap (λ xs. m ∷ xs) a.told;
    answers = λ n.
        response-update m n (λ r. record r { monitor_fin = true }) c.msgs (λ r. refl) ∙ a.answers n;
    sync =
        λ n. type-update m n (λ r. record r { monitor_fin = true }) c.msgs (λ r. refl) ∙ a.sync n;
  },
)

-- The `push` of a message whose id was drawn.
Follows-keep :
    (m deadline : ℕ) (has_send : Bool) (c : Client) (b : Book)
    → Agrees c (record b { last = generate_id b.last })
    → Follows (book_send m b) (keep m (generate_id b.last) deadline has_send c)
Follows-keep m deadline has_send c b a =
    let id : ℕ = generate_id b.last in
    elim (cases (find id c.proxy.queue.data_)) [
      | inl new ↦
          subst (λ x. Follows x (keep m id deadline has_send c))
            (sym (book_new m b (holder_of_find id c _ none a new)))
            (
              set_queue (push m id deadline has_send c.proxy.queue).1 c,
              keep_new m id deadline has_send c new,
              record {
                last = a.last;
                same = λ i.
                    rw (push_new m id deadline has_send c.proxy.queue new)
                      (same_new id m has_send c.proxy.queue.data_ b.pending a.same i);
                told = a.told;
                answers = a.answers;
                sync = a.sync;
              },
            )
      | inr (p, used) ↦
          let marked : Client = record c {
            msgs = update m (λ r. record r { status = req_exc }) c.msgs;
          } in
          let agrees : Agrees marked (record b { last = id }) = record {
            last = a.last;
            same = a.same;
            told = a.told;
            answers = λ n.
                response-update m n (λ r. record r { status = req_exc }) c.msgs (λ r. refl)
                ∙ a.answers n;
            sync = λ n.
                type-update m n (λ r. record r { status = req_exc }) c.msgs (λ r. refl) ∙ a.sync n;
          } in
          let (c', e, w) = Follows-finish m marked (record b { last = id }) agrees in
          subst (λ x. Follows x (keep m id deadline has_send c))
            (sym (book_taken m p.ptr b (holder_of_find id c _ (some p) a used)))
            (c', keep_used m id deadline has_send c p used ∙ e, w)
    ]

module _ (to_string : ℕ → List Byte) (atoi : List Byte → ℕ) where
  Follows-send :
      (accepted m : ℕ) (c : Client) (b : Book)
      → Valid to_string atoi c
      → Agrees c b
      → Follows (book_send m b) (send_req_message to_string (some accepted) m c)
  unfolding send_req_message
  Follows-send accepted m c b v a = elim (Bool-cases (send_list_empty c.proxy.queue)) [
    | inl nothing ↦
        let s = send_request_lem bytes accepted c.proxy.send_buffer v.buffer (v.short id m) in
        rw (nothing, s.returned) (kept s.after (was_sent s.status))
    | inr waiting ↦ rw waiting (kept c.proxy.send_buffer false)
  ]
    where
      id : ℕ
      id = generate_id c.proxy.id

      bytes : List Byte
      bytes = req_data to_string id (c.msgs m).request

      after : Buffer → Client
      after buffer = record c {
        proxy = record c.proxy { id = id; connected = true; send_buffer = buffer };
        msgs = update m (λ r. record r { request_id = id; req_data = bytes }) c.msgs;
      }

      agrees : (buffer : Buffer) → Agrees (after buffer) (record b { last = generate_id b.last })
      agrees buffer = record {
        last = ap generate_id a.last;
        same = a.same;
        told = a.told;
        answers = λ n.
            response-update m n (λ r. record r { request_id = id; req_data = bytes }) c.msgs
              (λ r. refl)
            ∙ a.answers n;
        sync = λ n.
            type-update m n (λ r. record r { request_id = id; req_data = bytes }) c.msgs (λ r. refl)
            ∙ a.sync n;
      }

      kept :
          (buffer : Buffer) (has_send : Bool)
          → Follows
              (book_send m b)
              (keep m id (1000 + (c.msgs m).begin_time) has_send (after buffer))
      kept buffer has_send =
          subst
            (λ i.
              Follows (book_send m b)
                (keep m i (1000 + (c.msgs m).begin_time) has_send (after buffer)))
            (sym (ap generate_id a.last))
            (Follows-keep m (1000 + (c.msgs m).begin_time) has_send (after buffer) b
              (agrees buffer))

  pub Follows-answer :
      (response : List Byte) (c : Client) (b : Book)
      → Linked c.proxy.queue
      → Agrees c b
      → Follows
          (book_answer (atoi (before_colon response)) response b)
          (finish_invoke atoi response c)
  unfolding finish_invoke finish_erased
  Follows-answer response c b v a =
      let id : ℕ = atoi (before_colon response) in
      elim (cases (find id c.proxy.queue.data_)) [
        | inl unknown ↦
            rw
              (
                erase_unknown id c.proxy.queue unknown,
                book_unknown id response b (holder_of_find id c b none a unknown),
              )
              (c, refl, a)
        | inr (p, known) ↦
            let struck : Book = record b {
              pending = strike id b.pending;
              answers = λ n. if n == p.ptr then response else b.answers n;
            } in
            let erased : Client = record (set_queue (unlink id p c.proxy.queue) c) {
              msgs = update p.ptr (λ r. record r { response = response }) c.msgs;
            } in
            let agrees : Agrees erased struck = record {
              last = a.last;
              same = same_strike id c.proxy.queue p b.pending v a.same;
              told = a.told;
              answers = λ n. response_written p.ptr n response c.msgs b.answers (a.answers n);
              sync = λ n.
                  type-update p.ptr n (λ r. record r { response = response }) c.msgs (λ r. refl)
                  ∙ a.sync n;
            } in
            rw
              (
                erase_found id p c.proxy.queue known,
                book_known id p.ptr response b (holder_of_find id c b (some p) a known),
              )
              (Follows-finish p.ptr erased struck agrees)
      ]

  -- Whatever calls are made and whatever bytes come as answers, in any order, while `::send` does not
  -- fail, a client in order, all of whose messages are of callers that wait, does as its book does: a call waits under the next id
  -- of 32 bits, or is woken at once where that id is taken; an answer wakes the one call that waits
  -- under the id before its colon, with that answer, and no other; an answer to no call does nothing.
  pub events-refines :
      (es : List Event) (c : Client) (b : Book)
      → Valid to_string atoi c
      → Agrees c b
      → (c' : Client) × (events to_string atoi es c ≡ some c')
        × Valid to_string atoi c'
        × Agrees c' (book_events atoi es b)
  unfolding events book_events event
  events-refines [] c b v a = (c, refl, v, a)
  events-refines (sends accepted m ∷ es) c b v a =
      let (c₁, e₁, v₁) = Stays-event to_string atoi (sends accepted m) c v in
      let (c₂, e₂, a₂) = Follows-send accepted m c b v a in
      let same : c₂ ≡ c₁ = cc in
      let (c', e, v', a') =
        events-refines es c₁ (book_send m b) v₁ (subst (λ x. Agrees x (book_send m b)) same a₂) in
      (c', rw e₁ e, v', a')
  events-refines (answered response ∷ es) c b v a =
      let (c₁, e₁, v₁) = Stays-event to_string atoi (answered response) c v in
      let (c₂, e₂, a₂) = Follows-answer response c b v.linked a in
      let same : c₂ ≡ c₁ = cc in
      let next : Book = book_answer (atoi (before_colon response)) response b in
      let (c', e, v', a') = events-refines es c₁ next v₁ (subst (λ x. Agrees x next) same a₂) in
      (c', rw e₁ e, v', a')
