-- ===== src/ObjectProxy/Valid.antt =====
-- The order that a client is in.
use tarsx.Prelude.{
  ℕ, ◌^◌, ◌<◌, ◌≡◌, refl, sym, subst, inl, inr, Bool, true, false, Option, some, List, [], ◌∷◌,
  length, ◌==◌, Bool-cases, ◌>>=◌,
}
use tarsx.Buffer.{Byte, Buffer}
use tarsx.Buffer.Inv.{IsValid}
use tarsx.Connection.{req_data}
use tarsx.TimeoutQueueNew.{TimeoutQueueNew, find, push, unlink}
use tarsx.TimeoutQueueNew.Inv.{Linked, push-Linked, unlink-Linked, cases}
use tarsx.TimeoutQueueNew.Laws.{erase_found, erase_unknown}
use tarsx.Transceiver.Sent.{send_request_lem}
use tarsx.Message.{
  ReqMessage, CallType, sync_call, async_call, one_way, thread_exit, req_exc, update,
}
use tarsx.AsyncProcThread.Turn.{InTurn, push_async_thread_queue_lem}
use tarsx.ObjectProxy.{
  Client, generate_id, set_queue, finish_message, before_colon, finish_erased, finish_invoke,
  was_sent, send_list_empty, keep, send_req_message,
}

-- What may happen to a client: a message is sent, of which `::send` accepts so many bytes, or bytes
-- come.
pub data Event : Type 0 where
  sends : ℕ → ℕ → Event
  answered : List Byte → Event

module _ (to_string : ℕ → List Byte) (atoi : List Byte → ℕ) where
  unfoldable pub event : Event → Client → Option Client
  event (sends accepted m) c = send_req_message to_string (some accepted) m c
  event (answered response) c = finish_invoke atoi response c

  unfoldable pub events : List Event → Client → Option Client
  events [] c = some c
  events (e ∷ es) c = do c' ← event e c; events es c'

  -- No message's frame is too long for the length in front of it.
  pub record Valid (c : Client) : Type 0 where
    pub linked : Linked c.proxy.queue
    pub buffer : IsValid c.proxy.send_buffer
    pub async : InTurn c.async
    pub short : (id m : ℕ) → length (req_data to_string id (c.msgs m).request) < 2 ^ 31

  abbrev pub Stays : Option Client → Type 0
  Stays o = (c : Client) × (o ≡ some c) × Valid c

  -- To change a message, but not its request, keeps the client in order.
  update-request :
      (m n : ℕ) (f : ReqMessage → ReqMessage) (msgs : ℕ → ReqMessage)
      → ((r : ReqMessage) → (f r).request ≡ r.request)
      → (update m f msgs n).request ≡ (msgs n).request
  unfolding update
  update-request m n f msgs h = elim (Bool-cases (n == m)) [
    | inl same ↦ rw same (h (msgs n))
    | inr other ↦ rw other
  ]

  update-short :
      (m : ℕ) (f : ReqMessage → ReqMessage) (msgs : ℕ → ReqMessage)
      → ((r : ReqMessage) → (f r).request ≡ r.request)
      → ((id n : ℕ) → length (req_data to_string id (msgs n).request) < 2 ^ 31)
      → (id n : ℕ) → length (req_data to_string id (update m f msgs n).request) < 2 ^ 31
  update-short m f msgs h s id n =
      subst (λ x. length (req_data to_string id x) < 2 ^ 31) (sym (update-request m n f msgs h))
        (s id n)

  Stays-finish : (m : ℕ) (c : Client) → Valid c → Stays (finish_message m c)
  unfolding finish_message
  Stays-finish m c v = finished (c.msgs m).type_ refl
    where
      finished : (y : CallType) → (c.msgs m).type_ ≡ y → Stays (finish_message m c)
      finished sync_call e = (
        record c {
          notified = m ∷ c.notified;
          msgs = update m (λ r. record r { monitor_fin = true }) c.msgs;
        },
        rw (e, finish_message),
        record {
          linked = v.linked;
          buffer = v.buffer;
          async = v.async;
          short = update-short m (λ r. record r { monitor_fin = true }) c.msgs (λ r. refl) v.short;
        },
      )
      finished async_call e =
          let (a, f, w) = push_async_thread_queue_lem m c.async v.async in
          (
            record c { async = a },
            rw (e, finish_message, f),
            record { linked = v.linked; buffer = v.buffer; async = w; short = v.short },
          )
      finished one_way e = (c, rw (e, finish_message), v)
      finished thread_exit e = (c, rw (e, finish_message), v)

  Stays-keep :
      (m id deadline : ℕ) (has_send : Bool) (c : Client)
      → Valid c
      → Stays (keep m id deadline has_send c)
  unfolding keep
  Stays-keep m id deadline has_send c v =
      let w = push-Linked m id deadline has_send c.proxy.queue v.linked in
      let q : TimeoutQueueNew ℕ = (push m id deadline has_send c.proxy.queue).1 in
      elim (Bool-cases (push m id deadline has_send c.proxy.queue).0) [
        | inl pushed ↦ (
          set_queue q c,
          rw pushed,
          record { linked = w; buffer = v.buffer; async = v.async; short = v.short },
        )
        | inr refused ↦ rw refused (
            Stays-finish m
              (record (set_queue q c) {
                msgs = update m (λ r. record r { status = req_exc }) c.msgs;
              })
              (record {
                linked = w;
                buffer = v.buffer;
                async = v.async;
                short =
                    update-short m (λ r. record r { status = req_exc }) c.msgs (λ r. refl) v.short;
              }))
      ]

  Stays-send :
      (accepted m : ℕ) (c : Client)
      → Valid c
      → Stays (send_req_message to_string (some accepted) m c)
  unfolding send_req_message
  Stays-send accepted m c v =
      let id : ℕ = generate_id c.proxy.id in
      let bytes : List Byte = req_data to_string id (c.msgs m).request in
      let after : Buffer → Client = λ b. record c {
        proxy = record c.proxy { id = id; connected = true; send_buffer = b };
        msgs = update m (λ r. record r { request_id = id; req_data = bytes }) c.msgs;
      } in
      let valid : (b : Buffer) → IsValid b → Valid (after b) = λ b w. record {
        linked = v.linked;
        buffer = w;
        async = v.async;
        short =
            update-short m (λ r. record r { request_id = id; req_data = bytes }) c.msgs (λ r. refl)
              v.short;
      } in
      elim (Bool-cases (send_list_empty c.proxy.queue)) [
        | inl nothing ↦
            let s = send_request_lem bytes accepted c.proxy.send_buffer v.buffer (v.short id m) in
            rw (nothing, s.returned)
              (Stays-keep m id _ (was_sent s.status) (after s.after) (valid s.after s.valid))
        | inr waiting ↦ rw waiting (
            Stays-keep m id _ false (after c.proxy.send_buffer)
              (valid c.proxy.send_buffer v.buffer))
      ]

  pub Stays-answer :
      (response : List Byte) (c : Client) → Valid c → Stays (finish_invoke atoi response c)
  unfolding finish_invoke finish_erased
  Stays-answer response c v =
      let id : ℕ = atoi (before_colon response) in
      elim (cases (find id c.proxy.queue.data_)) [
        | inl unknown ↦ (c, rw (erase_unknown id c.proxy.queue unknown) refl, v)
        | inr (p, known) ↦ rw (erase_found id p c.proxy.queue known) (
            Stays-finish p.ptr
              (record (set_queue (unlink id p c.proxy.queue) c) {
                msgs = update p.ptr (λ r. record r { response = response }) c.msgs;
              })
              (record {
                linked = unlink-Linked id p c.proxy.queue v.linked known;
                buffer = v.buffer;
                async = v.async;
                short =
                    update-short p.ptr (λ r. record r { response = response }) c.msgs (λ r. refl)
                      v.short;
              }))
      ]

  pub Stays-event : (e : Event) (c : Client) → Valid c → Stays (event e c)
  unfolding event
  Stays-event (sends accepted m) c v = Stays-send accepted m c v
  Stays-event (answered response) c v = Stays-answer response c v

  -- Whatever messages are sent, however much of each `::send` accepts, as long as it does not fail,
  -- and whatever bytes come as answers, known or unknown, nothing faults, and the client stays in
  -- order: its timeout queue is linked, its send buffer valid, and the round robin stands at one of
  -- its threads. No request is so long that its frame has 2 ^ 31 bytes.
  pub events-Stays : (es : List Event) (c : Client) → Valid c → Stays (events es c)
  unfolding events
  events-Stays [] c v = (c, refl, v)
  events-Stays (e ∷ es) c v =
      let (c', f, w) = Stays-event e c v in
      let (c'', f', w') = events-Stays es c' w in (c'', rw f f', w')
