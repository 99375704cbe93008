-- ===== src/TimeoutQueueNew/Tests.antt =====
-- The theorems at a queue with a request that was sent and one that was not.
use tarsx.Prelude.{ℕ, true, false, [], ◌∷◌, arith}
use tarsx.TimeoutQueueNew.{TimeoutQueueNew, timeout_loop}
use tarsx.TimeoutQueueNew.Inv.{Linked}
use tarsx.TimeoutQueueNew.Timeout.{Expired, timeout_loop_lem}

-- Requests 70 and 80 under the ids 1 and 2.
abbrev two : TimeoutQueueNew ℕ
two = record {
  unique_id = 2;
  data_ =
      (2, record { ptr = 80; has_send = false }) ∷ (1, record { ptr = 70; has_send = true }) ∷ [];
  time_ = (500, 1) ∷ (900, 2) ∷ [];
  send_ = 2 ∷ [];
}

two-Linked : Linked two
two-Linked = record {
  once = λ id. ground arith;
  timed = λ id. ground arith;
  waiting = λ id. ground arith;
  sorted = omega arith;
}

timeout_loop_lem_example : Expired 600 two (timeout_loop 3 600 two)
timeout_loop_lem_example = timeout_loop_lem 3 600 two two-Linked (omega arith)
