-- ===== src/ServantProxy/Invoke.antt =====
-- What a call leaves behind.
use tarsx.Prelude.{
  ℕ, ◌<◌, ◌≤◌, ◌≡◌, refl, ap, subst, ◌∙◌, Bool, true, false, Option, none, some, List, [], ◌∷◌,
  ◌++◌, arith, ltb, if◌then◌else◌, length, get_elem?, get_elem?-set_self, length-set, set, ==_iff,
}
use tarsx.LoopQueue.{LoopQueue}
use tarsx.LoopQueue.Uses.{Ring, push_back-Ring}
use tarsx.Message.{ReqMessage, update}
use tarsx.ServantProxy.{ThreadData, ServantProxy, Invoked, is_sync, begin, wait_for, pushed, invoke}
use tarsx.ServantProxy.Choose.{Ready, reach}

type-begin :
    (m sec usec : ℕ) (msgs : ℕ → ReqMessage)
    → (update m (begin sec usec) msgs m).type_ ≡ (msgs m).type_
unfolding update begin
type-begin m sec usec msgs = rw ((==_iff m m).1 refl)

-- A call that was refused: nothing is added to the queue that was chosen, the message was deleted, the
-- queue was announced twice, and the caller does not wait.
pub record Refused (s : ServantProxy) (d : ThreadData) (n m : ℕ) (o : Option Invoked) : Type 0 where
  pub result : Invoked
  pub returned : o ≡ some result
  pub at_ : ℕ
  pub queue : LoopQueue ℕ
  pub before : List ℕ
  pub held : (q : LoopQueue ℕ) × (get_elem? d.req_queue at_ ≡ some q) × Ring n q before
  pub holds : get_elem? result.data_.req_queue at_ ≡ some queue
  pub ring : Ring n queue before
  pub gone : result.deleted ≡ m ∷ []
  pub told : result.notified ≡ (result.data_.net_seq, at_) ∷ (result.data_.net_seq, at_) ∷ []
  pub waits : result.waits ≡ false

-- What comes of a refused call: a synchronous one faults.
abbrev pub Unplaced : ServantProxy → ThreadData → ℕ → ℕ → Bool → Option Invoked → Type 0
Unplaced s d n m true o = o ≡ none
Unplaced s d n m false o = Refused s d n m o

Unplaced-by :
    (s : ServantProxy) (malloc : ℕ → List ℕ) (n sec usec m : ℕ) (msgs : ℕ → ReqMessage)
    (d : ThreadData)
    → Ready s d
    → ((i : ℕ) (q : LoopQueue ℕ)
        → get_elem? d.req_queue i ≡ some q
        → (ws : List ℕ) × Ring n q ws × (n ≤ length ws))
    → (sync : Bool) → is_sync (msgs m).type_ ≡ sync
    → Unplaced s d n m sync (invoke s malloc sec usec m msgs d)
unfolding pushed wait_for
Unplaced-by s malloc n sec usec m msgs d v full true e =
    let g = reach s malloc sec usec m msgs d v in
    let (ws, r, h) = full g.at_ g.queue g.found in
    let (q, w, f, _) = push_back-Ring n g.queue ws m r in
    let refused : ltb (length ws) n ≡ false = ground (arith, h) in
    g.comes_to ∙ rw (f, refused, type-begin m sec usec msgs, e) refl
Unplaced-by s malloc n sec usec m msgs d v full false e =
    let g = reach s malloc sec usec m msgs d v in
    let (ws, r, h) = full g.at_ g.queue g.found in
    let (q, w, f, r') = push_back-Ring n g.queue ws m r in
    let refused : ltb (length ws) n ≡ false = ground (arith, h) in
    let d' : ThreadData = record g.chosen { req_queue = set g.chosen.req_queue g.at_ q } in
    record {
      result = record {
        data_ = d';
        msgs = update m (begin sec usec) msgs;
        notified = (d'.net_seq, g.at_) ∷ (d'.net_seq, g.at_) ∷ [];
        deleted = m ∷ [];
        waits = false;
      };
      returned = g.comes_to ∙ rw (f, refused, type-begin m sec usec msgs, e) refl;
      at_ = g.at_;
      queue = q;
      before = ws;
      held = (g.queue, g.found, r);
      holds =
          get_elem?-set_self g.chosen.req_queue g.at_ q (omega (arith, g.inside, ap length g.same));
      ring = subst (λ b. Ring n q (if b then ws ++ m ∷ [] else ws)) refused r';
      gone = refl;
      told = refl;
      waits = refl;
    }

-- Where every queue of the thread is full, and its queues were made before: a call that is not
-- synchronous adds nothing to the queue that it chose, deletes its message, announces the queue twice
-- and does not wait; a synchronous one follows the null pointer to its message.
pub invoke-full :
    (s : ServantProxy) (malloc : ℕ → List ℕ) (n sec usec m : ℕ) (msgs : ℕ → ReqMessage)
    (d : ThreadData)
    → Ready s d
    → ((i : ℕ) (q : LoopQueue ℕ)
        → get_elem? d.req_queue i ≡ some q
        → (ws : List ℕ) × Ring n q ws × (n ≤ length ws))
    → Unplaced s d n m (is_sync (msgs m).type_) (invoke s malloc sec usec m msgs d)
invoke-full s malloc n sec usec m msgs d v full =
    Unplaced-by s malloc n sec usec m msgs d v full (is_sync (msgs m).type_) refl

-- A call that found room: the message stands behind those that its queue held, nothing was deleted,
-- one announcement was made, and the caller waits just where the call is synchronous.
pub record Handed (s : ServantProxy) (d : ThreadData) (n m : ℕ) (sync : Bool) (o : Option Invoked)
    : Type 0 where
  pub result : Invoked
  pub returned : o ≡ some result
  pub at_ : ℕ
  pub queue : LoopQueue ℕ
  pub before : List ℕ
  pub held : (q : LoopQueue ℕ) × (get_elem? d.req_queue at_ ≡ some q) × Ring n q before
  pub holds : get_elem? result.data_.req_queue at_ ≡ some queue
  pub ring : Ring n queue (before ++ m ∷ [])
  pub kept : result.deleted ≡ []
  pub waits : result.waits ≡ sync
  pub told : result.notified ≡ (result.data_.net_seq, at_) ∷ []
  pub ready : Ready s result.data_

fin-begin :
    (m sec usec : ℕ) (msgs : ℕ → ReqMessage)
    → is_sync (msgs m).type_ ≡ true
    → (update m (begin sec usec) msgs m).monitor_fin ≡ false
unfolding update begin
fin-begin m sec usec msgs e = rw ((==_iff m m).1 refl, e)

-- A call through a thread whose queues are made and have room hands its message over.
pub invoke_lem :
    (s : ServantProxy) (malloc : ℕ → List ℕ) (n sec usec m : ℕ) (msgs : ℕ → ReqMessage)
    (d : ThreadData)
    → Ready s d
    → ((i : ℕ) (q : LoopQueue ℕ)
        → get_elem? d.req_queue i ≡ some q
        → (ws : List ℕ) × Ring n q ws × (length ws < n))
    → Handed s d n m (is_sync (msgs m).type_) (invoke s malloc sec usec m msgs d)
unfolding pushed
invoke_lem s malloc n sec usec m msgs d v free =
    let g = reach s malloc sec usec m msgs d v in
    let (ws, r, h) = free g.at_ g.queue g.found in
    let (q, e, f, r') = push_back-Ring n g.queue ws m r in
    let room : ltb (length ws) n ≡ true = ground (arith, h) in
    let d' : ThreadData = record g.chosen { req_queue = set g.chosen.req_queue g.at_ q } in
    let msgs' : ℕ → ReqMessage = update m (begin sec usec) msgs in
    record {
      result = record {
        data_ = d';
        msgs = msgs';
        notified = (d'.net_seq, g.at_) ∷ [];
        deleted = [];
        waits = is_sync (msgs m).type_;
      };
      returned = g.comes_to ∙ rw (f, room, waiting (is_sync (msgs m).type_) refl) refl;
      at_ = g.at_;
      queue = q;
      before = ws;
      held = (g.queue, g.found, r);
      holds =
          get_elem?-set_self g.chosen.req_queue g.at_ q (omega (arith, g.inside, ap length g.same));
      ring = subst (λ b. Ring n q (if b then ws ++ m ∷ [] else ws)) room r';
      kept = refl;
      waits = refl;
      told = refl;
      ready = record {
        made = g.ready.made;
        proxies = g.ready.proxies;
        queues = length-set g.chosen.req_queue g.at_ q ∙ g.ready.queues;
        turn = g.ready.turn;
        own = g.ready.own;
      };
    }
  where
    msgs₁ : ℕ → ReqMessage
    msgs₁ = update m (begin sec usec) msgs

    waiting :
        (b : Bool)
        → is_sync (msgs m).type_ ≡ b
        → wait_for (is_sync (msgs₁ m).type_) (some m) msgs₁ ≡ some (is_sync (msgs m).type_)
    waiting true e =
        unfold wait_for in rw (type-begin m sec usec msgs, e, fin-begin m sec usec msgs e)
    waiting false e = unfold wait_for in rw (type-begin m sec usec msgs, e)
