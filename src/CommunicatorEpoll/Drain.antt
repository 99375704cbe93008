-- ===== src/CommunicatorEpoll/Drain.antt =====
-- The loop of `handle` against the sending of what the queue holds.
use tarsx.Prelude.{
  ℕ, zero, suc, ◌+◌, ◌≤◌, ◌≡◌, ◌≢◌, refl, sym, ap, ◌∙◌, true, Option, none, some, List, [], ◌∷◌,
  arith, if◌then◌else◌, length, get_elem?, set, get_elem?-set_self, get_elem?-in, length-set, ◌<◌,
  ◌>>=◌, >>=-eq-some,
}
use tarsx.Buffer.{Byte}
use tarsx.LoopQueue.{LoopQueue, size}
use tarsx.LoopQueue.Fifo.{fifo_pop}
use tarsx.LoopQueue.Uses.{Ring, pop_front-Ring}
use tarsx.Message.{ReqMessage, CallType, sync_call, async_call, one_way, thread_exit}
use tarsx.ObjectProxy.{Client, send_req_message}
use tarsx.ObjectProxy.Valid.{Event, sends, event, events, Valid, events-Stays}
use tarsx.ObjectProxy.Types.{Typed-send}
use tarsx.CommunicatorEpoll.{
  NotifyInfo, CommunicatorEpoll, put_queue, notify, take_message, Drained, drain, handle_notify,
}

-- None of the messages ends the thread.
abbrev pub NoExit : (ℕ → ReqMessage) → List ℕ → Type 0
NoExit msgs [] = Unit
NoExit msgs (m ∷ ms) = ((msgs m).type_ ≢ thread_exit) × NoExit msgs ms

NoExit-typed :
    (msgs msgs' : ℕ → ReqMessage) (ms : List ℕ)
    → ((n : ℕ) → (msgs' n).type_ ≡ (msgs n).type_)
    → NoExit msgs ms
    → NoExit msgs' ms
NoExit-typed msgs msgs' [] h x = tt
NoExit-typed msgs msgs' (m ∷ ms) h (x, xs) =
    (λ e. x (sym (h m) ∙ e), NoExit-typed msgs msgs' ms h xs)

module _ (to_string : ℕ → List Byte) (atoi : List Byte → ℕ) (accepted : ℕ → ℕ) where
  take_message_lem :
      (m : ℕ) (q : LoopQueue ℕ) (c c' : Client)
      → (c.msgs m).type_ ≢ thread_exit
      → send_req_message to_string (some (accepted m)) m c ≡ some c'
      → take_message to_string (λ k. some (accepted k)) m q c ≡ some (some c')
  unfolding take_message
  take_message_lem m q c c' x e = taken (c.msgs m).type_ refl
    where
      taken :
          (y : CallType)
          → (c.msgs m).type_ ≡ y
          → take_message to_string (λ k. some (accepted k)) m q c ≡ some (some c')
      taken sync_call f = rw (f, take_message, e)
      taken async_call f = rw (f, take_message, e)
      taken one_way f = rw (f, take_message, e)
      taken thread_exit f = absurd (x f)

  -- The messages sent one by one, as `events`.
  abbrev pub sent_in_order : List ℕ → List Event
  sent_in_order [] = []
  sent_in_order (m ∷ ms) = sends (accepted m) m ∷ sent_in_order ms

  -- A ring emptied, with the client `c`.
  pub record Emptied (n : ℕ) (o : Option Drained) (c : Client) : Type 0 where
    pub queue : LoopQueue ℕ
    pub returned : o ≡ some (record { queue = queue; client = c; exited = none })
    pub ring : Ring n queue []

  drain_sends :
      (fuel n : ℕ) (q : LoopQueue ℕ) (ms : List ℕ) (c c' : Client)
      → length ms + 1 ≤ fuel
      → Ring n q ms
      → NoExit c.msgs ms
      → events to_string atoi (sent_in_order ms) c ≡ some c'
      → Emptied n (drain to_string (λ k. some (accepted k)) fuel q c) c'
  unfolding drain fifo_pop events event
  drain_sends zero n q ms c c' h r x e = absurd (omega arith)
  drain_sends (suc fuel) n q [] c c' h r x e =
      let (q', f, r') = pop_front-Ring n q [] r in
      let same : c ≡ c' = cc in
      record {
        queue = q';
        returned = rw f (ap (λ k. some (record { queue = q'; client = k; exited = none })) same);
        ring = r';
      }
  drain_sends (suc fuel) n q (m ∷ ms) c c' h r x e =
      let (q', f, r') = pop_front-Ring n q (m ∷ ms) r in
      let (c₁, g, e') = >>=-eq-some (send_req_message to_string (some (accepted m)) m c) _ e in
      let rest =
        drain_sends fuel n q' ms c₁ c' (omega arith) r'
          (NoExit-typed c.msgs c₁.msgs ms (Typed-send to_string (some (accepted m)) m c c₁ g) x.1)
          e' in
      record {
        queue = rest.queue;
        returned = rw (f, take_message_lem m q' c c₁ x.0 g) rest.returned;
        ring = rest.ring;
      }

  -- Over a valid ring of messages of which none ends the thread, and a client in order, while `::send`
  -- does not fail, the loop of `handle` ends without a fault, leaves the ring empty, and has done what sending the messages one
  -- by one, the oldest first, does; the client is in order again.
  pub drain_lem :
      (n : ℕ) (q : LoopQueue ℕ) (ms : List ℕ) (c : Client)
      → Ring n q ms
      → NoExit c.msgs ms
      → Valid to_string atoi c
      → (c' : Client) × (events to_string atoi (sent_in_order ms) c ≡ some c')
        × Emptied n (drain to_string (λ k. some (accepted k)) (suc (size q)) q c) c'
        × Valid to_string atoi c'
  drain_lem n q ms c r x v =
      let (c', e, w) = events-Stays to_string atoi (sent_in_order ms) c v in
      (c', e, drain_sends (suc (size q)) n q ms c c' (omega (arith, r.holds.count)) r x e, w)

pub handled :
    (to_string : ℕ → List Byte) (accepted : ℕ → Option ℕ) (info : NotifyInfo)
    (e : CommunicatorEpoll) (queue : ℕ) (q : LoopQueue ℕ) (d : Drained)
    → info.p ≡ some queue
    → e.queues queue ≡ some q
    → drain to_string accepted (suc (size q)) q e.client ≡ some d
    → d.exited ≡ none
    → handle_notify to_string accepted info e
      ≡ some (record e { client = d.client; queues = put_queue queue (some d.queue) e.queues })
unfolding handle_notify
handled to_string accepted info e queue q d p f g x = rw (p, f, g, x, handle_notify)

pub put_queue_other :
    (a b : ℕ) (q : Option (LoopQueue ℕ)) (queues : ℕ → Option (LoopQueue ℕ))
    → b ≢ a
    → put_queue a q queues b ≡ queues b
unfolding put_queue
put_queue_other a b q queues h = ground arith

notified :
    (seq queue : ℕ) (e : CommunicatorEpoll) (info : NotifyInfo)
    → get_elem? e.notify_ seq ≡ some info
    → (info' : NotifyInfo) × (notify seq queue e
        ≡ some (record e { notify_ = set e.notify_ seq info' }))
      × (info'.p ≡ some queue)
unfolding notify
notified seq queue e info h = (
  (if info.valid
      then record info { p = some queue }
      else record { valid = true; opened = true; seq = seq; p = some queue }),
  rw h,
  ground arith,
)

-- Two threads announce their queues under the same number before the network thread comes to it.
-- Where a message that ends a thread is not among those of the second queue, the first queue is
-- then not looked at, while `::send` does not fail: its messages wait as before.
pub handle_notify-notify_lost :
    (to_string : ℕ → List Byte) (atoi : List Byte → ℕ) (accepted : ℕ → ℕ) (n seq a b : ℕ)
    (qa qb : LoopQueue ℕ) (ms : List ℕ) (e : CommunicatorEpoll)
    → seq < length e.notify_
    → a ≢ b
    → e.queues a ≡ some qa
    → e.queues b ≡ some qb
    → Ring n qb ms
    → NoExit e.client.msgs ms
    → Valid to_string atoi e.client
    → (e' : CommunicatorEpoll) × ((do
      e₁ ← notify seq a e
      e₂ ← notify seq b e₁
      info ← get_elem? e₂.notify_ seq
      handle_notify to_string (λ m. some (accepted m)) info e₂)
        ≡ some e')
      × (e'.queues a ≡ some qa)
handle_notify-notify_lost to_string atoi accepted n seq a b qa qb ms e h other fa fb r x v =
    let (i₀, f₀) = get_elem?-in e.notify_ seq h in
    let (i₁, f₁, _) = notified seq a e i₀ f₀ in
    let e₁ : CommunicatorEpoll = record e { notify_ = set e.notify_ seq i₁ } in
    let (i₂, f₂, p₂) = notified seq b e₁ i₁ (get_elem?-set_self e.notify_ seq i₁ h) in
    let l : seq < length e₁.notify_ = omega (arith, h, length-set e.notify_ seq i₁) in
    let e₂ : CommunicatorEpoll = record e { notify_ = set e₁.notify_ seq i₂ } in
    let (c', _, d, _) = drain_lem to_string atoi accepted n qb ms e.client r x v in
    (
      record e₂ { client = c'; queues = put_queue b (some d.queue) e.queues },
      rw (f₁, f₂, get_elem?-set_self e₁.notify_ seq i₂ l)
          (handled to_string (λ m. some (accepted m)) i₂ e₂ b qb _ p₂ fb d.returned refl),
      put_queue_other b a (some d.queue) e.queues other ∙ fa,
    )
