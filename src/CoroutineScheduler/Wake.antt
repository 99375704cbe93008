-- ===== src/CoroutineScheduler/Wake.antt =====
-- How a coroutine gives up its run and how it is woken: `yield`, `sleep`, `put` and the three wake-up
-- passes. `allCoro_[it]` with a null entry fails the `assert` behind it.
use tarsx.Prelude.{
  ℕ, ◌+◌, ◌-◌, ◌^◌, Bool, true, Option, some, List, [], ◌∷◌, ◌++◌, ltb, ◌==◌, if◌then◌else◌, ◌>>=◌,
  ◌>>◌, guard,
}
use tarsx.Prelude.Multimap.{insert}
use tarsx.CoroutineScheduler.State.{
  Sched, move_to_active, move_to_avail, move_to_inactive, move_to_timeout, move_to_free_list,
}

unfoldable pub putbyself : ℕ → Sched → Sched
putbyself c s = if s.terminal then s else record s { need_active = s.need_active ++ c ∷ [] }

-- `yield`, up to the switch to the main coroutine.
unfoldable pub yield : Bool → Sched → Sched
unfolding putbyself
yield flag s = record (move_to_inactive s.current (if flag then putbyself s.current s else s)) {
  current = 0;
}

-- `sleep`, up to the switch: `now` is the time of day in milliseconds and `pause` the absolute value
-- of `sleeptime`.
unfoldable pub sleep : ℕ → ℕ → Sched → Sched
sleep now pause s =
    record (move_to_timeout s.current
      (record s { timeouts = insert (now + pause) s.current s.timeouts })) { current = 0 }

-- The end of `corotineProc`. `usedSize_` is a `uint32_t`.
unfoldable pub finish : Sched → Sched
finish s =
    record (move_to_free_list s.current
      (record s { used_size = if s.used_size == 0 then 2 ^ 32 - 1 else s.used_size - 1 })) {
        current = 0;
      }

unfoldable pub put : ℕ → Sched → Sched
put c s = if s.terminal then s else record s { active_queue = s.active_queue ++ c ∷ [] }

unfoldable pub terminate : Sched → Sched
terminate s = record s { terminal = true }

-- The loop that a wake-up pass makes over a queue of uids.
unfoldable pub move_each : (ℕ → Sched → Sched) → List ℕ → Sched → Option Sched
move_each move [] s = some s
move_each move (c ∷ cs) s = do guard (s.created c); move_each move cs (move c s)

unfoldable pub wakeupbyself : Sched → Option Sched
wakeupbyself s =
    if s.terminal
    then some s
    else (do s' ← move_each move_to_avail s.need_active s; some (record s' { need_active = [] }))

-- `activeCoroQueue_.swap` empties the queue before the loop.
unfoldable pub wakeup : Sched → Option Sched
wakeup s =
    if s.terminal
    then some s
    else move_each move_to_active s.active_queue (record s { active_queue = [] })

unfoldable pub expire : ℕ → List (ℕ × ℕ) → Sched → Option Sched
expire now [] s = some (record s { timeouts = [] })
expire now ((t, c) ∷ rest) s =
    let more = (do guard (s.created c); expire now rest (move_to_active c s)) in
    if ltb now t then some (record s { timeouts = (t, c) ∷ rest }) else more

unfoldable pub wakeupbytimeout : ℕ → Sched → Option Sched
wakeupbytimeout now s = if s.terminal then some s else expire now s.timeouts s
