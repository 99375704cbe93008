-- ===== src/ServantProxy/Choose.antt =====
-- The queue that a call comes to.
use tarsx.Prelude.{
  ℕ, suc, ◌<◌, ◌≡◌, refl, ap, ◌∙◌, inl, inr, true, false, none, some, List, arith, ◌==◌,
  if◌then◌else◌, length, get_elem?, get_elem?-in, set, Bool-cases, Option-cases, lt→ltb, ==_iff,
  ◌>>=◌,
}
use tarsx.LoopQueue.{LoopQueue, push_back}
use tarsx.Message.{ReqMessage, update}
use tarsx.ServantProxy.{
  ThreadData, ServantProxy, init_queues, choose, select_net_thread_info, begin, pushed, invoke,
}

-- A thread's data once its queues are made, whose turn is one of them.
pub record Ready (s : ServantProxy) (d : ThreadData) : Type 0 where
  pub made : d.queue_init ≡ true
  pub proxies : length s.object_proxy ≡ s.object_proxy_num
  pub queues : length d.req_queue ≡ s.object_proxy_num
  pub turn : d.net_seq < s.object_proxy_num
  pub own : (i : ℕ) → d.net_thread_seq ≡ some i → i < s.object_proxy_num

init_queues_lem :
    (s : ServantProxy) (malloc : ℕ → List ℕ) (d : ThreadData)
    → d.queue_init ≡ true
    → init_queues s malloc d ≡ some d
unfolding init_queues
init_queues_lem s malloc d e = rw e

-- What `choose` answers, and the thread's data behind it.
record Chosen (s : ServantProxy) (d : ThreadData) : Type 0 where
  at_ : ℕ
  after : ThreadData
  returned : choose s d ≡ some (at_, after)
  inside : at_ < s.object_proxy_num
  ready : Ready s after
  same : after.req_queue ≡ d.req_queue

Chosen-own :
    (s : ServantProxy) (d : ThreadData) (i : ℕ)
    → Ready s d
    → d.net_thread_seq ≡ some i
    → (s.object_proxy_num == 1) ≡ false
    → Chosen s d
unfolding choose
Chosen-own s d i v e many = record {
  at_ = i;
  after = d;
  returned = simp (many, e, lt→ltb i s.object_proxy_num (v.own i e));
  inside = v.own i e;
  ready = v;
  same = refl;
}

Chosen-turn :
    (s : ServantProxy) (d : ThreadData)
    → Ready s d
    → d.net_thread_seq ≡ none
    → (s.object_proxy_num == 1) ≡ false
    → Chosen s d
unfolding choose
Chosen-turn s d v e many =
    let next : ℕ = if suc d.net_seq == s.object_proxy_num then 0 else suc d.net_seq in
    record {
      at_ = d.net_seq;
      after = record d { net_seq = next };
      returned = simp (many, e);
      inside = v.turn;
      ready = record {
        made = v.made;
        proxies = v.proxies;
        queues = v.queues;
        turn = ground (arith, v.turn);
        own = v.own;
      };
      same = refl;
    }

Chosen-one :
    (s : ServantProxy) (d : ThreadData) → Ready s d → (s.object_proxy_num == 1) ≡ true → Chosen s d
unfolding choose
Chosen-one s d v one = record {
  at_ = 0;
  after = d;
  returned = rw one;
  inside = omega (arith, (==_iff s.object_proxy_num 1).0 one);
  ready = v;
  same = refl;
}

choose_lem : (s : ServantProxy) (d : ThreadData) → Ready s d → Chosen s d
choose_lem s d v = elim (Bool-cases (s.object_proxy_num == 1)) [
  | inl one ↦ Chosen-one s d v one
  | inr many ↦ elim (Option-cases d.net_thread_seq) [
    | inl none_own ↦ Chosen-turn s d v none_own many
    | inr (i, e) ↦ Chosen-own s d i v e many
  ]
]

-- What a call of `invoke` comes to once its queue is found.
pub record Reaches (s : ServantProxy) (malloc : ℕ → List ℕ) (sec usec m : ℕ) (msgs : ℕ → ReqMessage)
    (d : ThreadData) : Type 0 where
  pub at_ : ℕ
  pub chosen : ThreadData
  pub queue : LoopQueue ℕ
  pub found : get_elem? d.req_queue at_ ≡ some queue
  pub inside : at_ < length d.req_queue
  pub ready : Ready s chosen
  pub same : chosen.req_queue ≡ d.req_queue
  pub comes_to : invoke s malloc sec usec m msgs d ≡ (do
    r ← push_back queue m
    pushed m at_
        (record chosen { req_queue = set chosen.req_queue at_ r.queue })
        (update m (begin sec usec) msgs)
        r.done)

pub reach :
    (s : ServantProxy) (malloc : ℕ → List ℕ) (sec usec m : ℕ) (msgs : ℕ → ReqMessage)
    (d : ThreadData)
    → Ready s d
    → Reaches s malloc sec usec m msgs d
unfolding invoke select_net_thread_info
reach s malloc sec usec m msgs d v =
    let c = choose_lem s d v in
    let (q, e) = get_elem?-in d.req_queue c.at_ (omega (arith, c.inside, v.queues)) in
    let (p, f) = get_elem?-in s.object_proxy c.at_ (omega (arith, c.inside, v.proxies)) in
    record {
      at_ = c.at_;
      chosen = c.after;
      queue = q;
      found = e;
      inside = omega (arith, c.inside, v.queues);
      ready = c.ready;
      same = c.same;
      comes_to =
          rw (init_queues_lem s malloc d v.made, c.returned, f)
            (ap
              (λ o. do
                q ← o
                r ← push_back q m
                pushed m c.at_ (record c.after { req_queue = set c.after.req_queue c.at_ r.queue })
                    (update m (begin sec usec) msgs) r.done)
              (ap (λ qs. get_elem? qs c.at_) c.same ∙ e));
    }
