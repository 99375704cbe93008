-- ===== src/CoroutineScheduler/WakeInv.antt =====
-- Giving up a run and being woken, and the invariant.
use tarsx.Prelude.{
  ℕ, ◌+◌, ◌-◌, ◌^◌, ◌<◌, ◌≡◌, refl, inl, inr, Bool, true, false, some, List, [], ◌∷◌, ◌++◌, ◌==◌,
  ltb, arith, if◌then◌else◌, Bool-cases,
}
use tarsx.Prelude.Multimap.{insert}
use tarsx.CoroutineScheduler.State.{
  free, eq_status, Sched, move_to, move_to_active, move_to_avail, move_to_inactive, move_to_timeout,
  move_to_free_list,
}
use tarsx.CoroutineScheduler.Wake.{
  putbyself, yield, sleep, finish, put, terminate, move_each, wakeupbyself, wakeup, expire,
  wakeupbytimeout,
}
use tarsx.CoroutineScheduler.Inv.{
  Counted, Inv, Counted-with, AllCreated, AllDueCreated, AllCreated-append, AllCreated-kept,
  AllDueCreated-kept, AllDueCreated-insert, Goes, stays, Goes->>=, Goes-if, Goes-some_if, Goes-from,
  used_pos,
}
use tarsx.CoroutineScheduler.Moves.{
  is_free, move_to-Counted, Keeps, move_to_active-Keeps, move_to_avail-Keeps,
  move_to_inactive-Keeps, move_to_timeout-Keeps,
}

-- The queues' bookkeeping of a step that leaves the lists alone.
set_queues :
    (s r : Sched) (k : ℕ) (stop : Bool) (queue own : List ℕ) (later : List (ℕ × ℕ))
    → Inv r
    → AllCreated r queue
    → AllCreated r own
    → AllDueCreated r later
    → ((c : ℕ) → s.created c ≡ true → r.created c ≡ true)
    → Goes s (
        some (record r {
          current = k;
          terminal = stop;
          active_queue = queue;
          need_active = own;
          timeouts = later;
        }))
set_queues s r k stop queue own later v q o d kept = record {
  after = record r {
    current = k;
    terminal = stop;
    active_queue = queue;
    need_active = own;
    timeouts = later;
  };
  returned = refl;
  inv = Counted-with k stop queue own later v q o d;
  kept = kept;
}

module _ (move : ℕ → Sched → Sched) (keeps : Keeps move) where
  kept_by : (c : ℕ) (s : Sched) (d : ℕ) → s.created d ≡ true → (move c s).created d ≡ true
  kept_by c s d h = rw (keeps.made c s) h

  pub move_each-Goes :
      (cs : List ℕ) (s : Sched) → Inv s → AllCreated s cs → Goes s (move_each move cs s)
  unfolding move_each
  move_each-Goes [] s v a = stays s v
  move_each-Goes (c ∷ cs) s v a =
      let g =
        move_each-Goes cs (move c s) (keeps.inv c s v a.0)
          (AllCreated-kept s (move c s) cs (kept_by c s) a.1) in
      record {
        after = g.after;
        returned = rw a.0 g.returned;
        inv = g.inv;
        kept = λ d h. g.kept d (kept_by c s d h);
      }

  -- One move, then other values in the queues.
  move_then :
      (c : ℕ) (s : Sched)
      → Inv s
      → s.created c ≡ true
      → Goes s (some (record (move c s) { current = 0 }))
  move_then c s v h =
      let w = keeps.inv c s v h in
      record {
        after = record (move c s) { current = 0 };
        returned = refl;
        inv = Counted-with 0 _ _ _ _ w w.queued w.by_self w.due;
        kept = kept_by c s;
      }

-- `put` of a coroutine that is there keeps the invariant.
pub put-Goes : (c : ℕ) (s : Sched) → Inv s → s.created c ≡ true → Goes s (some (put c s))
unfolding put
put-Goes c s v h = Goes-some_if s.terminal s s _ (stays s v) (
    set_queues s s s.current s.terminal (s.active_queue ++ c ∷ []) s.need_active s.timeouts v
      (AllCreated-append s s.active_queue c v.queued h) v.by_self v.due (λ d e. e))

pub terminate-Goes : (s : Sched) → Inv s → Goes s (some (terminate s))
unfolding terminate
terminate-Goes s v =
    set_queues s s s.current true s.active_queue s.need_active s.timeouts v v.queued v.by_self v.due
      (λ d e. e)

-- `wakeupbyself` meets no null entry, keeps the invariant and keeps every coroutine.
pub wakeupbyself-Goes : (s : Sched) → Inv s → Goes s (wakeupbyself s)
unfolding wakeupbyself
wakeupbyself-Goes s v = Goes-if s.terminal s (some s) _ (stays s v) (
    Goes->>= s (move_each move_to_avail s.need_active s) (λ r. some (record r { need_active = [] }))
      (move_each-Goes move_to_avail move_to_avail-Keeps s.need_active s v v.by_self)
      (λ r w kept.
        set_queues r r r.current r.terminal r.active_queue [] r.timeouts w w.queued tt w.due
          (λ d e. e)))

-- `wakeup` meets no null entry, keeps the invariant and keeps every coroutine.
pub wakeup-Goes : (s : Sched) → Inv s → Goes s (wakeup s)
unfolding wakeup
wakeup-Goes s v =
    let swapped = record s { active_queue = [] } in
    let w : Inv swapped =
      Counted-with s.current s.terminal [] s.need_active s.timeouts v tt v.by_self v.due in
    let g = move_each-Goes move_to_active move_to_active-Keeps s.active_queue swapped w v.queued in
    Goes-if s.terminal s (some s) _ (stays s v)
      (record { after = g.after; returned = g.returned; inv = g.inv; kept = g.kept })

expire-Goes :
    (now : ℕ) (xs : List (ℕ × ℕ)) (s : Sched)
    → Inv s
    → AllDueCreated s xs
    → Goes s (expire now xs s)
unfolding expire
expire-Goes now [] s v a =
    set_queues s s s.current s.terminal s.active_queue s.need_active [] v v.queued v.by_self tt
      (λ d e. e)
expire-Goes now ((t, c) ∷ xs) s v a = elim (Bool-cases (ltb now t)) [
  | inl later ↦ rw later (
      set_queues s s s.current s.terminal s.active_queue s.need_active ((t, c) ∷ xs) v v.queued
        v.by_self a (λ d e. e))
  | inr due ↦
      let k = kept_by move_to_active move_to_active-Keeps c s in
      let g =
        expire-Goes now xs (move_to_active c s) (move_to_active-Keeps.inv c s v a.0)
          (AllDueCreated-kept s (move_to_active c s) xs k a.1) in
      record {
        after = g.after;
        returned = rw (due, a.0) g.returned;
        inv = g.inv;
        kept = λ d h. g.kept d (k d h);
      }
]

-- `wakeupbytimeout` meets no null entry, keeps the invariant and keeps every coroutine, whatever the
-- time of day.
pub wakeupbytimeout-Goes : (now : ℕ) (s : Sched) → Inv s → Goes s (wakeupbytimeout now s)
unfolding wakeupbytimeout
wakeupbytimeout-Goes now s v =
    Goes-if s.terminal s (some s) _ (stays s v) (expire-Goes now s.timeouts s v v.due)

-- What the main coroutine switched to: a coroutine, off the free list.
pub record Runs (s : Sched) : Type 0 where
  pub made : s.created s.current ≡ true
  pub taken : is_free (s.status s.current) ≡ 0

Inv-if : (b : Bool) (q r : Sched) → Inv q → Inv r → Inv (if b then q else r)
Inv-if true q r v w = v
Inv-if false q r v w = w

-- `yield` of the coroutine that runs, with either flag, keeps the invariant and every coroutine.
pub yield-Goes : (flag : Bool) (s : Sched) → Inv s → Runs s → Goes s (some (yield flag s))
unfolding yield
yield-Goes true s v run = Goes-from s (putbyself s.current s) _ (same s s.current) (
    move_then move_to_inactive move_to_inactive-Keeps s.current (putbyself s.current s)
      (own s s.current v run.made) (same s s.current s.current run.made))
  where
    same : (s : Sched) (k c : ℕ) → s.created c ≡ true → (putbyself k s).created c ≡ true
    same s k c h = unfold putbyself in ground arith

    own : (s : Sched) (k : ℕ) → Inv s → s.created k ≡ true → Inv (putbyself k s)
    own s k v h =
        unfold putbyself in
        Inv-if s.terminal s _ v (
          Counted-with s.current s.terminal s.active_queue (s.need_active ++ k ∷ []) s.timeouts v
            v.queued (AllCreated-append s s.need_active k v.by_self h) v.due)
yield-Goes false s v run = move_then move_to_inactive move_to_inactive-Keeps s.current s v run.made

-- `sleep` of the coroutine that runs keeps the invariant and every coroutine.
pub sleep-Goes : (now pause : ℕ) (s : Sched) → Inv s → Runs s → Goes s (some (sleep now pause s))
unfolding sleep
sleep-Goes now pause s v run =
    let later = insert (now + pause) s.current s.timeouts in
    Goes-from s (record s { timeouts = later }) _ (λ c h. h)
      (move_then move_to_timeout move_to_timeout-Keeps s.current (record s { timeouts = later })
        (Counted-with s.current s.terminal s.active_queue s.need_active later v v.queued v.by_self
          (AllDueCreated-insert s (now + pause) s.current s.timeouts v.due run.made))
        run.made)

to_free_list :
    (c : ℕ) (s : Sched) → is_free (s.status c) ≡ 0 → move_to_free_list c s ≡ move_to c free s
unfolding move_to_free_list eq_status
to_free_list c s h = ground arith

-- At the end of the coroutine that runs, `usedSize_` does not fall below 0, and the invariant and
-- every coroutine are kept.
pub finish-Goes : (s : Sched) → Inv s → Runs s → Goes s (some (finish s))
unfolding finish
finish-Goes s v run = record {
  after = record (move_to s.current free r) { current = 0 };
  returned = rw (less, to_free_list s.current r run.taken);
  inv = unfold move_to in Counted-with 0 _ _ _ _ w w.queued w.by_self w.due;
  kept = λ c h. unfold move_to in h;
}
  where
    pos : 0 < s.used_size
    pos = used_pos s.current s v run.made (ground (arith, run.taken))

    less : (if s.used_size == 0 then 2 ^ 32 - 1 else s.used_size - 1) ≡ s.used_size - 1
    less = ground (arith, pos)

    r : Sched
    r = record s { used_size = s.used_size - 1 }

    w : Counted s.current_size (move_to s.current free r)
    w =
        unfold eq_status in
        move_to-Counted s.current free s (s.used_size - 1) v run.made
          (omega (arith, pos, run.taken))
