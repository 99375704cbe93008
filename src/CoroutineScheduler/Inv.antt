-- ===== src/CoroutineScheduler/Inv.antt =====
-- The scheduler's invariant, and a move between two lists.
use tarsx.Prelude.{
  ℕ, suc, ◌+◌, ◌-◌, ◌^◌, ◌≤◌, ◌<◌, ◌≡◌, refl, ◌≢◌, Bool, true, false, ◌&&◌, Option, some, List, [],
  ◌∷◌, ◌++◌, ◌==◌, arith, if◌then◌else◌, length, ◌>>=◌,
}
use tarsx.Prelude.Multimap.{insert}
use tarsx.CoroutineScheduler.State.{
  Status, free, active, avail, inactive, timeout, eq_status, Sched, remove,
}

abbrev pub count : ℕ → List ℕ → ℕ
count c [] = 0
count c (d ∷ ds) = if c == d then suc (count c ds) else count c ds

pub count-append : (c : ℕ) (xs ys : List ℕ) → count c (xs ++ ys) ≡ count c xs + count c ys
count-append c [] ys = omega arith
count-append c (x ∷ xs) ys = ground (arith, count-append c xs ys)

pub count-remove_self : (c : ℕ) (xs : List ℕ) → count c (remove c xs) ≡ count c xs - 1
unfolding remove
count-remove_self c [] = refl
count-remove_self c (x ∷ xs) = ground (arith, count-remove_self c xs)

pub count-remove_ne : (c d : ℕ) (xs : List ℕ) → d ≢ c → count d (remove c xs) ≡ count d xs
unfolding remove
count-remove_ne c d [] h = refl
count-remove_ne c d (x ∷ xs) h = ground (arith, count-remove_ne c d xs h)

pub length-remove :
    (c : ℕ) (xs : List ℕ) → count c xs ≤ 1 → length (remove c xs) + count c xs ≡ length xs
unfolding remove
length-remove c [] h = omega arith
length-remove c (x ∷ xs) h = ground (arith, length-remove c xs)

-- 1 where the coroutine is there and has the status, and 0 elsewhere.
abbrev pub seat : Sched → ℕ → Status → ℕ
seat s c t = if s.created c && eq_status (s.status c) t then 1 else 0

-- The coroutines in the lists of a status other than `CORO_FREE`.
abbrev pub busy : Sched → ℕ
busy s =
    length (s.ring active)
    + length (s.ring avail)
    + length (s.ring inactive)
    + length (s.ring timeout)

abbrev pub AllCreated : Sched → List ℕ → Type 0
AllCreated s [] = Unit
AllCreated s (c ∷ cs) = (s.created c ≡ true) × AllCreated s cs

abbrev pub AllDueCreated : Sched → List (ℕ × ℕ) → Type 0
AllDueCreated s [] = Unit
AllDueCreated s ((t, c) ∷ cs) = (s.created c ≡ true) × AllDueCreated s cs

-- The invariant of a scheduler with `n` coroutines made.
pub record Counted (n : ℕ) (s : Sched) : Type 0 where
  -- Every coroutine stands exactly once in the list of its status, and in no other.
  pub placed : (c : ℕ) (t : Status) → count c (s.ring t) ≡ seat s c t
  pub main_absent : s.created 0 ≡ false
  pub main_free : s.status 0 ≡ free
  pub numbered : (c : ℕ) → s.uniq_id < c → s.created c ≡ false
  pub within : s.uniq_id ≤ s.pool_size
  pub small : s.pool_size + 1 < 2 ^ 32
  pub vector : s.all_size ≡ s.pool_size + 1
  -- `usedSize_` is the number of coroutines that are not free.
  pub used : s.used_size ≡ busy s
  pub total : n ≡ s.used_size + length (s.ring free)
  -- No id was taken in vain.
  pub current_in : n ≡ s.uniq_id
  -- Every uid that waits in a queue is that of a coroutine.
  pub queued : AllCreated s s.active_queue
  pub by_self : AllCreated s s.need_active
  pub due : AllDueCreated s s.timeouts

-- Between calls `currentSize_` is the number of coroutines made.
abbrev pub Inv : Sched → Type 0
Inv s = Counted s.current_size s

-- The invariant does not depend on the running coroutine, nor on what the queues hold beyond that
-- it names coroutines.
pub Counted-with :
    {n : ℕ} {s : Sched} (k : ℕ) (stop : Bool) (queue own : List ℕ) (later : List (ℕ × ℕ))
    → Counted n s
    → AllCreated s queue
    → AllCreated s own
    → AllDueCreated s later
    → Counted n (record s {
      current = k;
      terminal = stop;
      active_queue = queue;
      need_active = own;
      timeouts = later;
    })
Counted-with k stop queue own later v q o d = record {
  placed = v.placed;
  main_absent = v.main_absent;
  main_free = v.main_free;
  numbered = v.numbered;
  within = v.within;
  small = v.small;
  vector = v.vector;
  used = v.used;
  total = v.total;
  current_in = v.current_in;
  queued = q;
  by_self = o;
  due = d;
}

pub AllCreated-append :
    (s : Sched) (xs : List ℕ) (c : ℕ)
    → AllCreated s xs
    → s.created c ≡ true
    → AllCreated s (xs ++ c ∷ [])
AllCreated-append s [] c a e = (e, tt)
AllCreated-append s (x ∷ xs) c a e = (a.0, AllCreated-append s xs c a.1 e)

-- What a step that does not fault leaves: the invariant holds, and no coroutine is lost.
pub record Goes (s : Sched) (o : Option Sched) : Type 0 where
  pub after : Sched
  pub returned : o ≡ some after
  pub inv : Inv after
  pub kept : (c : ℕ) → s.created c ≡ true → after.created c ≡ true

pub stays : (s : Sched) → Inv s → Goes s (some s)
stays s v = record { after = s; returned = refl; inv = v; kept = λ c h. h }

pub Goes->>= :
    (s : Sched) (o : Option Sched) (f : Sched → Option Sched)
    → Goes s o
    → ((r : Sched) → Inv r → ((c : ℕ) → s.created c ≡ true → r.created c ≡ true) → Goes r (f r))
    → Goes s (o >>= f)
Goes->>= s o f g h =
    let k = h g.after g.inv g.kept in
    record {
      after = k.after;
      returned = rw g.returned k.returned;
      inv = k.inv;
      kept = λ c e. k.kept c (g.kept c e);
    }

pub AllCreated-kept :
    (s r : Sched) (xs : List ℕ)
    → ((c : ℕ) → s.created c ≡ true → r.created c ≡ true)
    → AllCreated s xs
    → AllCreated r xs
AllCreated-kept s r [] h a = tt
AllCreated-kept s r (x ∷ xs) h a = (h x a.0, AllCreated-kept s r xs h a.1)

pub AllDueCreated-kept :
    (s r : Sched) (xs : List (ℕ × ℕ))
    → ((c : ℕ) → s.created c ≡ true → r.created c ≡ true)
    → AllDueCreated s xs
    → AllDueCreated r xs
AllDueCreated-kept s r [] h a = tt
AllDueCreated-kept s r ((t, x) ∷ xs) h a = (h x a.0, AllDueCreated-kept s r xs h a.1)

pub AllDueCreated-insert :
    (s : Sched) (t c : ℕ) (xs : List (ℕ × ℕ))
    → AllDueCreated s xs
    → s.created c ≡ true
    → AllDueCreated s (insert t c xs)
unfolding insert
AllDueCreated-insert s t c [] a e = (e, tt)
AllDueCreated-insert s t c ((u, d) ∷ xs) a e = ground (arith, AllDueCreated-insert s t c xs)

pub Goes-if :
    (b : Bool) (s : Sched) (o p : Option Sched) → Goes s o → Goes s p → Goes s (if b then o else p)
Goes-if true s o p g h = g
Goes-if false s o p g h = h

pub Goes-some_if :
    (b : Bool) (s q r : Sched)
    → Goes s (some q)
    → Goes s (some r)
    → Goes s (some (if b then q else r))
Goes-some_if true s q r g h = g
Goes-some_if false s q r g h = h

pub Goes-from :
    (s r : Sched) (o : Option Sched)
    → ((c : ℕ) → s.created c ≡ true → r.created c ≡ true)
    → Goes r o
    → Goes s o
Goes-from s r o h g = record {
  after = g.after;
  returned = g.returned;
  inv = g.inv;
  kept = λ c e. g.kept c (h c e);
}

count-le-length : (c : ℕ) (xs : List ℕ) → count c xs ≤ length xs
count-le-length c [] = omega arith
count-le-length c (x ∷ xs) = ground (arith, count-le-length c xs)

-- A coroutine that is not free is counted by `usedSize_`.
pub used_pos :
    {n : ℕ} (c : ℕ) (s : Sched)
    → Counted n s
    → s.created c ≡ true
    → eq_status (s.status c) free ≡ false
    → 0 < s.used_size
unfolding eq_status
used_pos c s v here taken = ground (
  arith,
  v.used,
  v.placed c active,
  v.placed c avail,
  v.placed c inactive,
  v.placed c timeout,
  count-le-length c (s.ring active),
  count-le-length c (s.ring avail),
  count-le-length c (s.ring inactive),
  count-le-length c (s.ring timeout),
)
