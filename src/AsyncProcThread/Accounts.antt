-- ===== src/AsyncProcThread/Accounts.antt =====
-- What becomes of the messages that a thread is given, against the list of those that wait.
use tarsx.Prelude.{
  ℕ, ◌≡◌, ap, subst, inl, inr, Bool, true, Option, some, List, [], ◌∷◌, ◌++◌, ltb, if◌then◌else◌,
  length, Bool-cases, ◌>>=◌,
}
use tarsx.LoopQueue.{LoopQueue}
use tarsx.LoopQueue.Uses.{Ring, push_back_only-Ring}
use tarsx.AsyncProcThread.{
  Deed, called_back, printed, deleted, AsyncProcThread, terminate, push_back, run_round,
}

-- A thread's state without the ring: the messages that wait, the oldest first.
pub record Account : Type 0 where
  pub waiting : List ℕ
  pub ended : Bool
  pub deeds : List Deed

-- What other threads and its own loop do to a thread.
pub data Step : Type 0 where
  pushed : ℕ → Step
  round : Step
  terminated : Step

-- A message is taken while fewer than `n` wait.
unfoldable pub account_step : (ℕ → Bool) → ℕ → Step → Account → Account
account_step callback n (pushed msg) a =
    if ltb (length a.waiting) n
    then record a { waiting = a.waiting ++ msg ∷ [] }
    else record a { deeds = deleted msg ∷ a.deeds }
account_step callback n round a = if a.ended then a else elim a.waiting [
  | [] ↦ a
  | msg ∷ ws ↦ record a {
    waiting = ws;
    deeds = deleted msg ∷ (if callback msg then called_back msg else printed msg) ∷ a.deeds;
  }
]
account_step callback n terminated a = record a { ended = true }

unfoldable pub account_run : (ℕ → Bool) → ℕ → List Step → Account → Account
account_run callback n [] a = a
account_run callback n (s ∷ ss) a = account_run callback n ss (account_step callback n s a)

unfoldable pub thread_step : (ℕ → Bool) → Step → AsyncProcThread → Option AsyncProcThread
thread_step callback (pushed msg) t = push_back msg t
thread_step callback round t = run_round callback t
thread_step callback terminated t = some (terminate t)

unfoldable pub thread_run : (ℕ → Bool) → List Step → AsyncProcThread → Option AsyncProcThread
thread_run callback [] t = some t
thread_run callback (s ∷ ss) t = do t' ← thread_step callback s t; thread_run callback ss t'

-- A thread with room for `n` messages, and its account.
pub record Kept (n : ℕ) (t : AsyncProcThread) (a : Account) : Type 0 where
  pub ring : Ring n t.msg_queue a.waiting
  pub ended : t.terminate_ ≡ a.ended
  pub deeds : t.deeds ≡ a.deeds

abbrev pub Keeps : ℕ → Option AsyncProcThread → Account → Type 0
Keeps n o a = (t : AsyncProcThread) × (o ≡ some t) × Kept n t a

module _ (callback : ℕ → Bool) (n : ℕ) where
  pub Keeps-push :
      (msg : ℕ) (t : AsyncProcThread) (a : Account)
      → Kept n t a
      → Keeps n (push_back msg t) (account_step callback n (pushed msg) a)
  unfolding push_back account_step
  Keeps-push msg t a k =
      let (q, e, r) = push_back_only-Ring n t.msg_queue a.waiting msg k.ring in
      elim (Bool-cases (ltb (length a.waiting) n)) [
        | inl room ↦ (
          record t { msg_queue = q },
          rw (e, room),
          rw room (record {
            ring = subst (λ b. Ring n q (if b then a.waiting ++ msg ∷ [] else a.waiting)) room r;
            ended = k.ended;
            deeds = k.deeds;
          }),
        )
        | inr full ↦ (
          record t { msg_queue = q; deeds = deleted msg ∷ t.deeds },
          rw (e, full),
          rw full (record {
            ring = subst (λ b. Ring n q (if b then a.waiting ++ msg ∷ [] else a.waiting)) full r;
            ended = k.ended;
            deeds = ap (λ ds. deleted msg ∷ ds) k.deeds;
          }),
        )
      ]
