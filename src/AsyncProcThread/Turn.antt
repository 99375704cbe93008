-- ===== src/AsyncProcThread/Turn.antt =====
-- The round robin over the threads that call back.
use tarsx.Prelude.{
  ℕ, suc, length-set, get_elem?-set_self, get_elem?-in, get_elem?-set_ne, ℕ_discrete, ◌<◌, ◌≡◌, sym,
  ap, subst, ◌∙◌, some, List, [], ◌∷◌, ◌++◌, arith, ltb, ◌==◌, if◌then◌else◌, length, get_elem?,
  set,
}
use tarsx.LoopQueue.Uses.{Ring, push_back_only-Ring}
use tarsx.AsyncProcThread.{
  AsyncProcThread, deleted, push_back, AsyncThreads, push_async_thread_queue,
}

-- A round robin that stands at one of its threads, each of them with a ring that holds something.
pub record InTurn (a : AsyncThreads) : Type 0 where
  pub all : length a.threads ≡ a.async_thread_num
  pub at_one : a.async_seq < a.async_thread_num
  pub rings :
      (i : ℕ) (t : AsyncProcThread)
      → get_elem? a.threads i ≡ some t
      → (n : ℕ) × (ws : List ℕ) × Ring n t.msg_queue ws

push_back-ring :
    (msg n : ℕ) (ws : List ℕ) (t : AsyncProcThread)
    → Ring n t.msg_queue ws
    → (t' : AsyncProcThread) × (push_back msg t ≡ some t')
      × Ring n t'.msg_queue (if ltb (length ws) n then ws ++ msg ∷ [] else ws)
unfolding push_back
push_back-ring msg n ws t r =
    let (q, e, r') = push_back_only-Ring n t.msg_queue ws msg r in
    (
      record t {
        msg_queue = q;
        deeds = if ltb (length ws) n then t.deeds else deleted msg ∷ t.deeds;
      },
      rw e,
      r',
    )

-- The next thread takes a message without a fault, and the turn passes on.
pub push_async_thread_queue_lem :
    (msg : ℕ) (a : AsyncThreads)
    → InTurn a
    → (a' : AsyncThreads) × (push_async_thread_queue msg a ≡ some a') × InTurn a'
unfolding push_async_thread_queue
push_async_thread_queue_lem msg a v =
    let (t, e) = get_elem?-in a.threads a.async_seq (omega (arith, v.all, v.at_one)) in
    let (n, ws, r) = v.rings a.async_seq t e in
    let (t', e', r') = push_back-ring msg n ws t r in
    let ws' : List ℕ = if ltb (length ws) n then ws ++ msg ∷ [] else ws in
    (
      record a {
        threads = set a.threads a.async_seq t';
        async_seq = if suc a.async_seq == a.async_thread_num then 0 else suc a.async_seq;
      },
      rw (e, e'),
      record {
        all = length-set a.threads a.async_seq t' ∙ v.all;
        at_one = ground (arith, v.at_one);
        rings = λ i s f. elim (ℕ_discrete a.async_seq i) [
          | yes same ↦
              let g : some t' ≡ some s =
                sym (get_elem?-set_self a.threads a.async_seq t' (omega (arith, v.all, v.at_one)))
                ∙ ap (get_elem? (set a.threads a.async_seq t')) same
                ∙ f in
              let h : t' ≡ s = cc in (n, ws', subst (λ x. Ring n x.msg_queue ws') h r')
          | no other ↦ v.rings i s (sym (get_elem?-set_ne a.threads t' other) ∙ f)
        ];
      },
    )
