-- ===== src/CoroutineScheduler/RunInv.antt =====
-- `tars_run` and one round of `run`, and the invariant.
use tarsx.Prelude.{
  ℕ, zero, suc, ◌<◌, ◌≡◌, refl, ◌∙◌, Bool, true, false, Option, some, List, [], ◌∷◌, ◌++◌, arith,
  if◌then◌else◌, ◌>>=◌, dec_lt,
}
use tarsx.CoroutineScheduler.State.{Status, free, active, avail, eq_status, Sched}
use tarsx.CoroutineScheduler.Pool.{create_coroutine}
use tarsx.CoroutineScheduler.Wake.{put, terminate, wakeupbyself, wakeupbytimeout}
use tarsx.CoroutineScheduler.Run.{
  Request, creates, puts, terminates, Exit, yields, sleeps, finishes, serve, leave, switch_coro,
  drain, wake_all, tars_run, run_round,
}
use tarsx.CoroutineScheduler.Inv.{
  Inv, Counted-with, count, Goes, stays, Goes->>=, Goes-if, AllCreated-append,
}
use tarsx.CoroutineScheduler.WakeInv.{
  Runs, wakeupbyself-Goes, wakeup-Goes, wakeupbytimeout-Goes, yield-Goes, sleep-Goes, finish-Goes,
}
use tarsx.CoroutineScheduler.Create.{create_coroutine-Took, create_coroutine_full}

-- What a coroutine may ask: `put` of a uid that is there, and new coroutines while stacks can be
-- allocated.
abbrev pub Legal : Sched → List Request → Type 0
Legal s [] = Unit
Legal s (creates allocates ∷ rs) = ((j : ℕ) → allocates j ≡ true) × Legal s rs
Legal s (puts c ∷ rs) = (s.created c ≡ true) × Legal s rs
Legal s (terminates ∷ rs) = Legal s rs

Legal-kept :
    (s r : Sched) (rs : List Request)
    → ((c : ℕ) → s.created c ≡ true → r.created c ≡ true)
    → Legal s rs
    → Legal r rs
Legal-kept s r [] h l = tt
Legal-kept s r (creates a ∷ rs) h l = (l.0, Legal-kept s r rs h l.1)
Legal-kept s r (puts c ∷ rs) h l = (h c l.0, Legal-kept s r rs h l.1)
Legal-kept s r (terminates ∷ rs) h l = Legal-kept s r rs h l

-- After a coroutine's requests it is still the one that runs.
record Serves (s : Sched) (o : Option Sched) : Type 0 where
  after : Sched
  returned : o ≡ some after
  inv : Inv after
  runs : Runs after
  kept : (c : ℕ) → s.created c ≡ true → after.created c ≡ true

serve-then :
    (s r : Sched) (rs : List Request)
    → ((c : ℕ) → s.created c ≡ true → r.created c ≡ true)
    → Serves r (serve rs r)
    → (o : Option Sched) → o ≡ serve rs r
    → Serves s o
serve-then s r rs h g o e = record {
  after = g.after;
  returned = e ∙ g.returned;
  inv = g.inv;
  runs = g.runs;
  kept = λ c k. g.kept c (h c k);
}

Runs-create :
    (allocates : ℕ → Bool) (s : Sched)
    → Inv s
    → Runs s
    → ((j : ℕ) → allocates j ≡ true)
    → (uid : ℕ) × (r : Sched) × (create_coroutine allocates s ≡ some (uid, r))
      × Inv r
      × Runs r
      × ((c : ℕ) → s.created c ≡ true → r.created c ≡ true)
Runs-create allocates s v run ok = elim (dec_lt s.used_size s.pool_size) [
  | yes room ↦
      let t = create_coroutine-Took allocates s v ok room in
      (
        t.uid,
        t.after,
        t.returned,
        t.inv,
        record {
          made = rw t.current (t.kept s.current run.made);
          taken =
              rw t.current (rw (t.others s.current run.made (ground (arith, run.taken))) run.taken);
        },
        t.kept,
      )
  | no full ↦ (
    0,
    s,
    create_coroutine_full allocates s v (omega (arith, v.total, v.current_in, v.within)),
    v,
    run,
    λ c h. h,
  )
]

serve-if :
    (b : Bool) (rs : List Request) (s q r : Sched)
    → Serves s (serve rs q)
    → Serves s (serve rs r)
    → Serves s (serve rs (if b then q else r))
serve-if true rs s q r g h = g
serve-if false rs s q r g h = h

serve-Serves : (rs : List Request) (s : Sched) → Inv s → Runs s → Legal s rs → Serves s (serve rs s)
unfolding serve put terminate
serve-Serves [] s v run l = record {
  after = s;
  returned = refl;
  inv = v;
  runs = run;
  kept = λ c h. h;
}
serve-Serves (creates allocates ∷ rs) s v run l =
    let (uid, r, e, w, run', kept) = Runs-create allocates s v run l.0 in
    serve-then s r rs kept (serve-Serves rs r w run' (Legal-kept s r rs kept l.1)) _ (rw e)
serve-Serves (puts c ∷ rs) s v run l =
    let r = record s { active_queue = s.active_queue ++ c ∷ [] } in
    let w : Inv r =
      Counted-with s.current s.terminal r.active_queue s.need_active s.timeouts v
        (AllCreated-append s s.active_queue c v.queued l.0) v.by_self v.due in
    serve-if s.terminal rs s s r (serve-Serves rs s v run l.1) (
      serve-then s r rs (λ d h. h)
        (serve-Serves rs r w (record { made = run.made; taken = run.taken })
          (Legal-kept s r rs (λ d h. h) l.1))
        _ refl)
serve-Serves (terminates ∷ rs) s v run l =
    let r = record s { terminal = true } in
    let w : Inv r =
      Counted-with s.current true s.active_queue s.need_active s.timeouts v v.queued v.by_self
        v.due in
    serve-then s r rs (λ d h. h)
      (serve-Serves rs r w (record { made = run.made; taken = run.taken })
        (Legal-kept s r rs (λ d h. h) l))
      _ refl

leave-Goes : (exit : Exit) (s : Sched) → Inv s → Runs s → Goes s (some (leave exit s))
unfolding leave
leave-Goes (yields flag) s v run = yield-Goes flag s v run
leave-Goes (sleeps now pause) s v run = sleep-Goes now pause s v run
leave-Goes finishes s v run = finish-Goes s v run

-- The code of the coroutines: what `body` asks for is legal whenever it is switched to.
abbrev pub LegalBody : (ℕ → Sched → List Request × Exit) → Type 0
LegalBody body = (c : ℕ) (s : Sched) → Inv s → Runs s → Legal s (body c s).0

count-head : (c : ℕ) (cs : List ℕ) → 0 < count c (c ∷ cs)
count-head c cs = ground arith

-- What stands at the head of a list of coroutines that are to run can be switched to.
head-Runs :
    (c : ℕ) (t : Status) (s : Sched)
    → Inv s
    → 0 < count c (s.ring t)
    → eq_status t free ≡ false
    → Runs (record s { current = c })
unfolding eq_status
head-Runs c t s v here busy = record {
  made = ground (arith, v.placed c t);
  taken = ground (arith, v.placed c t);
}

module _ (body : ℕ → Sched → List Request × Exit) (legal : LegalBody body) where
  switch_coro-Goes :
      (c : ℕ) (s : Sched) → Inv s → Runs (record s { current = c }) → Goes s (switch_coro body c s)
  unfolding switch_coro
  switch_coro-Goes c s v run =
      let r = record s { current = c } in
      let w : Inv r =
        Counted-with c s.terminal s.active_queue s.need_active s.timeouts v v.queued v.by_self
          v.due in
      let g = serve-Serves (body c r).0 r w run (legal c r w run) in
      let k = leave-Goes (body c r).1 g.after g.inv g.runs in
      record {
        after = k.after;
        returned = rw g.returned k.returned;
        inv = k.inv;
        kept = λ d h. k.kept d (g.kept d h);
      }

  drain-step :
      (loop : ℕ) (t : Status) (s : Sched) (cs : List ℕ)
      → s.ring t ≡ cs
      → Inv s
      → eq_status t free ≡ false
      → ((r : Sched) → Inv r → Goes r (drain body loop t r))
      → Goes s
          (elim cs [ [] ↦ some s | c ∷ _ ↦ switch_coro body c s >>= λ s'. drain body loop t s' ])
  drain-step loop t s [] e v busy more = stays s v
  drain-step loop t s (c ∷ cs) e v busy more =
      Goes->>= s (switch_coro body c s) (λ s'. drain body loop t s')
        (switch_coro-Goes c s v (head-Runs c t s v (rw e (count-head c cs)) busy))
        (λ r w kept. more r w)

  drain-Goes :
      (loop : ℕ) (t : Status) (s : Sched)
      → Inv s
      → eq_status t free ≡ false
      → Goes s (drain body loop t s)
  unfolding drain
  drain-Goes zero t s v busy = stays s v
  drain-Goes (suc loop) t s v busy =
      drain-step loop t s (s.ring t) refl v busy (λ r w. drain-Goes loop t r w busy)

  wake_all-Goes : (now : ℕ) (s : Sched) → Inv s → Goes s (wake_all now s)
  unfolding wake_all
  wake_all-Goes now s v =
      Goes->>= s (wakeupbytimeout now s) _ (wakeupbytimeout-Goes now s v) (λ r w kept.
        Goes->>= r (wakeupbyself r) _ (wakeupbyself-Goes r w) (λ q u kept. wakeup-Goes q u))

  -- Whatever the coroutines do, as long as they `put` only coroutines and stacks can be allocated,
  -- `tars_run` returns, fails no assertion, keeps the invariant and keeps every coroutine.
  pub tars_run-Goes : (now : ℕ) (s : Sched) → Inv s → Goes s (tars_run body now s)
  unfolding tars_run
  tars_run-Goes now s v = Goes-if s.terminal s (some s) _ (stays s v) (
      Goes->>= s (wake_all now s) _ (wake_all-Goes now s v) (λ r w kept.
        Goes->>= r (drain body 100 active r) _
          (drain-Goes 100 active r w (unfold eq_status in refl))
          (λ q u kept. drain-Goes 100 avail q u (unfold eq_status in refl))))

  -- The same holds of a round of `run`: it returns, fails no assertion, keeps the invariant and keeps
  -- every coroutine.
  pub run_round-Goes : (now : ℕ) (s : Sched) → Inv s → Goes s (run_round body now s)
  unfolding run_round
  run_round-Goes now s v = Goes->>= s (wake_all now s) _ (wake_all-Goes now s v) (λ r w kept.
      Goes->>= r (drain body 100 active r) _ (drain-Goes 100 active r w (unfold eq_status in refl))
        (λ q u kept. drain-Goes 1 avail q u (unfold eq_status in refl)))
