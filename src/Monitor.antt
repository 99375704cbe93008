-- ===== src/Monitor.antt =====
-- tarsx/Monitor.hpp: a mutex and a condition whose notifications wait for the unlocking. `notify_` is
-- an `int32_t`, by its 32 bits; -1 stands for `notifyAll`. What is done to the condition is given out
-- as a list. The mutex and the condition themselves are the system's.
pub mod Notified
mod Tests
use tarsx.Prelude.{
  ℕ, zero, suc, ◌+◌, ◌-◌, ◌^◌, ◌==◌, Bool, true, false, List, [], ◌∷◌, replicate, ltb,
  if◌then◌else◌, add32,
}

-- What reaches the condition.
pub data Wake : Type 0 where
  signal broadcast : Wake

abbrev pub minus_one : ℕ
minus_one = 2 ^ 32 - 1

-- `notifyImpl`.
unfoldable pub notify_impl : ℕ → List Wake
notify_impl n =
    if n == 0
    then []
    else if n == minus_one
    then broadcast ∷ []
    else if ltb n (2 ^ 31)
    then replicate n signal
    else []

pub record Monitor : Type 0 where
  pub notify_ : ℕ

-- `lock`, once the mutex is taken.
unfoldable pub lock : Monitor → Monitor
lock m = record { notify_ = 0 }

-- `tryLock`; `taken` is whether the mutex was free.
unfoldable pub try_lock : Bool → Monitor → Bool × Monitor
try_lock taken m = (taken, if taken then record { notify_ = 0 } else m)

unfoldable pub unlock : Monitor → List Wake × Monitor
unlock m = (notify_impl m.notify_, m)

-- `wait` and `timedWait`, which send the pending notifications before they wait.
unfoldable pub wait : Monitor → List Wake × Monitor
wait m = (notify_impl m.notify_, record { notify_ = 0 })

unfoldable pub timed_wait : Bool → Monitor → Bool × List Wake × Monitor
timed_wait in_time m = (in_time, notify_impl m.notify_, record { notify_ = 0 })

unfoldable pub notify : Monitor → Monitor
notify m = if m.notify_ == minus_one then m else record { notify_ = add32 m.notify_ 1 }

unfoldable pub notify_all : Monitor → Monitor
notify_all m = record { notify_ = minus_one }
