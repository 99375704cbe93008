-- ===== src/CommunicatorEpoll/Inputs.antt =====
-- The loop of `run` over announced queues and the input of a server.
use tarsx.Prelude.{
  ℕ, ◌+◌, ◌<◌, ◌≡◌, ◌≢◌, refl, sym, ap, ◌∙◌, inl, inr, Bool, true, false, Option, none, some, List,
  [], ◌∷◌, ◌++◌, ◌==◌, length, arith, map, Bool-cases, >>=-eq-some,
}
use tarsx.Buffer.{Byte, max_buffer_size}
use tarsx.Buffer.Inv.{IsValid, contents}
use tarsx.Transceiver.{Transceiver}
use tarsx.Transceiver.Received.{in_pieces, arrived, unless_empty, do_response_lem}
use tarsx.LoopQueue.{LoopQueue}
use tarsx.LoopQueue.Uses.{Ring}
use tarsx.Message.{ReqMessage, thread_exit}
use tarsx.ObjectProxy.{Client, send_req_message}
use tarsx.ObjectProxy.Types.{Typed-send, Typed-answer}
use tarsx.ObjectProxy.Valid.{event, events, Valid, Stays-answer}
use tarsx.CommunicatorEpoll.{NotifyInfo, put_queue, handle_input_imp}
use tarsx.CommunicatorEpoll.Drain.{NoExit, sent_in_order, drain_lem, handled}
use tarsx.CommunicatorEpoll.Run.{
  NetLoop, Reported, of_notify, of_transceiver, set_client, set_buffer, input, handle, handle_each,
  run,
}

-- What epoll reports: an announced queue, or the pieces of an input, with no output.
pub data Report : Type 0 where
  announced : NotifyInfo → Report
  arrives : List (Byte × List Byte) → Report

abbrev pub reported : Report → Reported
reported (announced info) = of_notify info
reported (arrives pieces) = of_transceiver true false (in_pieces pieces) none []

abbrev pub rounds_of : List (List Report) → List (Bool × List Reported)
rounds_of [] = []
rounds_of (reports ∷ rounds) = (false, map reported reports) ∷ rounds_of rounds

-- An announced queue is one of `queues`, and an input has room.
abbrev pub Fits : (ℕ → Option (LoopQueue ℕ)) → List Report → Type 0
Fits queues [] = Unit
Fits queues (announced info ∷ reports) =
    ((a : ℕ) × (q : LoopQueue ℕ) × (info.p ≡ some a) × (queues a ≡ some q)) × Fits queues reports
Fits queues (arrives pieces ∷ reports) =
    (length (arrived pieces) + 8192 < max_buffer_size) × Fits queues reports

abbrev pub AllFit : (ℕ → Option (LoopQueue ℕ)) → List (List Report) → Type 0
AllFit queues [] = Unit
AllFit queues (reports ∷ rounds) = Fits queues reports × AllFit queues rounds

-- A loop that runs, with its client in order, nothing half read, and the rings of the announced queues
-- in order; no message ends a thread.
pub record Ready (to_string : ℕ → List Byte) (atoi : List Byte → ℕ)
    (queues : ℕ → Option (LoopQueue ℕ)) (l : NetLoop) : Type 0 where
  pub client : Valid to_string atoi l.epoll.client
  pub talks : (m : ℕ) → (l.epoll.client.msgs m).type_ ≢ thread_exit
  pub rings :
      (a : ℕ) (q : LoopQueue ℕ)
      → queues a ≡ some q
      → (q' : LoopQueue ℕ) × (n : ℕ) × (ms : List ℕ) × (l.epoll.queues a ≡ some q') × Ring n q' ms
  pub buffer : IsValid l.trans.receive_buffer
  pub drained : contents l.trans.receive_buffer ≡ []
  pub runs : l.epoll.terminate_ ≡ false

all_talk :
    (msgs : ℕ → ReqMessage) (ms : List ℕ)
    → ((m : ℕ) → (msgs m).type_ ≢ thread_exit)
    → NoExit msgs ms
all_talk msgs [] h = tt
all_talk msgs (m ∷ ms) h = (h m, all_talk msgs ms h)

module _ (to_string : ℕ → List Byte) (atoi : List Byte → ℕ)
    (queues : ℕ → Option (LoopQueue ℕ)) where
  abbrev pub Goes : Option NetLoop → Type 0
  Goes o = (l : NetLoop) × (o ≡ some l) × Ready to_string atoi queues l

  -- A client in order after some answers, whose messages have the types of before.
  Stays-handle_input_imp :
      (done : List (List Byte)) (c : Client)
      → Valid to_string atoi c
      → (c' : Client) × (handle_input_imp atoi done c ≡ some c')
        × Valid to_string atoi c'
        × ((m : ℕ) → (c'.msgs m).type_ ≡ (c.msgs m).type_)
  unfolding handle_input_imp
  Stays-handle_input_imp [] c v = (c, refl, v, λ m. refl)
  Stays-handle_input_imp (response ∷ done) c v =
      let (c₁, e, w) = Stays-answer to_string atoi response c v in
      let (c₂, f, u, same) = Stays-handle_input_imp done c₁ w in
      (c₂, rw e f, u, λ m. same m ∙ Typed-answer atoi response c c₁ e m)

  module _ (accepted : ℕ → ℕ) where
    events-types :
        (ms : List ℕ) (c c' : Client)
        → events to_string atoi (sent_in_order to_string atoi accepted ms) c ≡ some c'
        → (m : ℕ) → (c'.msgs m).type_ ≡ (c.msgs m).type_
    unfolding events event
    events-types [] c c' e m = let same : c ≡ c' = cc in ap (λ x. (x.msgs m).type_) (sym same)
    events-types (n ∷ ms) c c' e m =
        let (c₁, f, g) = >>=-eq-some (send_req_message to_string (some (accepted n)) n c) _ e in
        events-types ms c₁ c' g m ∙ Typed-send to_string (some (accepted n)) n c c₁ f m

    Goes-arrives :
        (pieces : List (Byte × List Byte)) (l : NetLoop)
        → length (arrived pieces) + 8192 < max_buffer_size
        → Ready to_string atoi queues l
        → Goes (handle to_string atoi (λ m. some (accepted m)) (reported (arrives pieces)) l)
    unfolding handle input set_client set_buffer
    Goes-arrives pieces l h v =
        let before : Transceiver = record l.trans {
          send_buffer = l.epoll.client.proxy.send_buffer;
        } in
        let r = do_response_lem pieces before v.buffer (omega (arith, h, ap length v.drained)) in
        let (c, e, w, same) =
          Stays-handle_input_imp (unless_empty (contents l.trans.receive_buffer ++ arrived pieces))
            l.epoll.client v.client in
        (
          set_client c (record l { trans = record before { receive_buffer = r.after } }),
          rw (r.returned, e) refl,
          record {
            client = w;
            talks = λ m ends. v.talks m (sym (same m) ∙ ends);
            rings = v.rings;
            buffer = r.valid;
            drained = r.drained;
            runs = v.runs;
          },
        )

    Goes-announced :
        (info : NotifyInfo) (a : ℕ) (q : LoopQueue ℕ) (l : NetLoop)
        → info.p ≡ some a
        → queues a ≡ some q
        → Ready to_string atoi queues l
        → Goes (handle to_string atoi (λ m. some (accepted m)) (of_notify info) l)
    unfolding handle put_queue
    Goes-announced info a q l p f v =
        let (q₁, n, ms, g, r) = v.rings a q f in
        let (c, e, d, w) =
          drain_lem to_string atoi accepted n q₁ ms l.epoll.client r
            (all_talk l.epoll.client.msgs ms v.talks) v.client in
        (
          record l {
            epoll = record l.epoll {
              client = c;
              queues = put_queue a (some d.queue) l.epoll.queues;
            };
          },
          rw (handled to_string (λ m. some (accepted m)) info l.epoll a q₁ _ p g d.returned refl)
              refl,
          record {
            client = w;
            talks = λ m ends. v.talks m (sym (events-types ms l.epoll.client c e m) ∙ ends);
            rings = λ b k there. elim (Bool-cases (b == a)) [
              | inl same ↦ (d.queue, n, [], rw same refl, d.ring)
              | inr other ↦
                  let (k', n', ms', h, s) = v.rings b k there in (k', n', ms', rw other h, s)
            ];
            buffer = v.buffer;
            drained = v.drained;
            runs = v.runs;
          },
        )

    Goes-handle_each :
        (reports : List Report) (l : NetLoop)
        → Fits queues reports
        → Ready to_string atoi queues l
        → Goes (handle_each to_string atoi (λ m. some (accepted m)) (map reported reports) l)
    unfolding handle_each
    Goes-handle_each [] l h v = (l, refl, v)
    Goes-handle_each (announced info ∷ reports) l ((a, q, p, f), h) v =
        let (l₁, e, w) = Goes-announced info a q l p f v in
        let (l₂, g, u) = Goes-handle_each reports l₁ h w in (l₂, rw e g, u)
    Goes-handle_each (arrives pieces ∷ reports) l (room, h) v =
        let (l₁, e, w) = Goes-arrives pieces l room v in
        let (l₂, g, u) = Goes-handle_each reports l₁ h w in (l₂, rw e g, u)

    -- Whatever callers announce and whatever a server sends, in whatever pieces, in whatever order and
    -- over however many waits, known answers or not, and however much of each request `::send` accepts,
    -- as long as it does not fail, a client's loop that is not terminated goes on: nothing faults, the
    -- client and the rings of the queues stay in order, and everything that came is read. What comes
    -- between two waits stays below `MaxBufferSize`, the queues are there, no message ends a thread, the
    -- server does not close the connection, and the transceiver is not reported for output.
    pub run_lem :
        (rounds : List (List Report)) (l : NetLoop)
        → AllFit queues rounds
        → Ready to_string atoi queues l
        → Goes (run to_string atoi (λ m. some (accepted m)) (rounds_of rounds) l)
    unfolding run
    run_lem [] l h v = (l, refl, v)
    run_lem (reports ∷ rounds) l h v =
        let (l₁, e, w) = Goes-handle_each reports l h.0 v in
        let (l₂, f, u) = run_lem rounds l₁ h.1 w in (l₂, simp (v.runs, e, f), u)
