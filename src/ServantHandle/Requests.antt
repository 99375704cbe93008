-- ===== src/ServantHandle/Requests.antt =====
-- What a round of `handleRequest` does with the requests that wait.
use tarsx.Prelude.{
  ℕ, ◌+◌, ◌^◌, ◌≤◌, ◌<◌, ◌≡◌, ◌≢◌, refl, sym, ap, ◌∙◌, false, Option, some, List, [], ◌∷◌, ◌++◌,
  append-nil, append_assoc, arith, ◌==◌, if◌then◌else◌, length, length-append, take, drop,
}
use tarsx.ThreadDeque.Laws.{of_list}
use tarsx.BindAdapter.{RecvData, BindAdapter}
use tarsx.CoroutineScheduler.Inv.{Inv}
use tarsx.ServantHandle.{Work, Served}

-- The requests for which a coroutine was asked for.
abbrev pub requests : List (ℕ × RecvData) → List RecvData
requests [] = []
requests ((uid, r) ∷ jobs) = r ∷ requests jobs

-- Every one of them has a coroutine.
abbrev pub AllPlaced : List (ℕ × RecvData) → Type 0
AllPlaced [] = Unit
AllPlaced ((uid, r) ∷ jobs) = (uid ≢ 0) × AllPlaced jobs

-- What is taken from a queue, less the news of closed connections.
unfoldable pub open_ones : List RecvData → List RecvData
open_ones [] = []
open_ones (r ∷ rs) = if r.closed then open_ones rs else r ∷ open_ones rs

abbrev pub holding : List RecvData → BindAdapter
holding xs = record { receive_buffer = of_list xs }

pub requests-append :
    (js ks : List (ℕ × RecvData)) → requests (js ++ ks) ≡ requests js ++ requests ks
requests-append [] ks = refl
requests-append ((uid, r) ∷ js) ks = ap (λ rs. r ∷ rs) (requests-append js ks)

pub AllPlaced-append :
    (js : List (ℕ × RecvData)) (uid : ℕ) (r : RecvData)
    → AllPlaced js
    → uid ≢ 0
    → AllPlaced (js ++ (uid, r) ∷ [])
AllPlaced-append [] uid r h k = (k, tt)
AllPlaced-append ((i, x) ∷ js) uid r h k = (h.0, AllPlaced-append js uid r h.1 k)

-- The work behind some requests: the scheduler keeps its invariant, each of them was given to
-- `createCoroutine`, and got a coroutine where the pool has one for all of them.
pub record Worked (rs : List RecvData) (w r : Work) : Type 0 where
  pub inv : Inv r.sched
  pub pool : r.sched.pool_size ≡ w.sched.pool_size
  pub used : r.sched.used_size ≤ w.sched.used_size + length rs
  pub asked : requests r.jobs ≡ requests w.jobs ++ rs
  pub placed :
      w.sched.used_size + length rs ≤ w.sched.pool_size → AllPlaced w.jobs → AllPlaced r.jobs

pub Worked-nil : (w : Work) → Inv w.sched → Worked [] w w
Worked-nil w v = record {
  inv = v;
  pool = refl;
  used = omega arith;
  asked = sym (append-nil (requests w.jobs));
  placed = λ h k. k;
}

pub Worked-trans :
    (xs ys : List RecvData) (w r z : Work) → Worked xs w r → Worked ys r z → Worked (xs ++ ys) w z
Worked-trans xs ys w r z f g = record {
  inv = g.inv;
  pool = g.pool ∙ f.pool;
  used = omega (arith, f.used, g.used, length-append xs ys);
  asked = g.asked ∙ ap (λ rs. rs ++ ys) f.asked ∙ append_assoc (requests w.jobs) xs ys;
  placed = λ h k.
      g.placed (omega (arith, h, f.used, f.pool, length-append xs ys))
        (f.placed (omega (arith, h, length-append xs ys)) k);
}

-- The loop over an adapter: it takes so many requests at most, and never leaves `yield` set.
pub record Emptied (n : ℕ) (xs : List RecvData) (w : Work) (o : Option Served) : Type 0 where
  pub after : Served
  pub returned : o ≡ some after
  pub adapter : after.adapter ≡ holding (drop n xs)
  pub worked : Worked (open_ones (take n xs)) w after.work
  pub stops : (if after.loop == 0 then false else after.yields) ≡ false

-- Adapters by name, with what waits at each.
abbrev pub adapters_of : List (ℕ × List RecvData) → List (ℕ × BindAdapter)
adapters_of [] = []
adapters_of ((name, xs) ∷ queues) = (name, holding xs) ∷ adapters_of queues

-- What a round takes of each, and what it leaves.
abbrev pub taken : List (ℕ × List RecvData) → List RecvData
taken [] = []
taken ((name, xs) ∷ queues) = open_ones (take 100 xs) ++ taken queues

abbrev pub left : List (ℕ × List RecvData) → List (ℕ × List RecvData)
left [] = []
left ((name, xs) ∷ queues) = (name, drop 100 xs) ∷ left queues

abbrev pub AllSmall : List (ℕ × List RecvData) → Type 0
AllSmall [] = Unit
AllSmall ((name, xs) ∷ queues) = (length xs < 2 ^ 64) × AllSmall queues
