-- ===== src/TimeoutQueueNew.antt =====
-- tarsx/TimeoutQueueNew.hpp: the requests that wait for an answer, by id, by deadline and by the order
-- in which they are still to be sent. An iterator into one of the three containers is the id of the
-- entry that it stands at: to erase through it takes that id's node out, and to read through it
-- where the id has no entry is a fault (`none`). The order of `data_` is never read.
pub mod Inv
pub mod Laws
pub mod Timeout
pub mod Tests
use tarsx.Prelude.{
  ℕ, zero, suc, ◌+◌, Bool, true, false, Option, none, some, List, [], ◌∷◌, ◌==◌, ltb, not,
  if◌then◌else◌, ◌>>=◌, ◌>>◌, guard, add32,
}
use tarsx.Prelude.Multimap.{insert}

-- The containers' `erase` of the first node with a key.
unfoldable pub erase_by : {A : Type 0} → (A → ℕ) → ℕ → List A → List A
erase_by key id [] = []
erase_by key id (x ∷ xs) = if id == key x then xs else x ∷ erase_by key id xs

-- `PtrInfo`, less its iterators.
pub record PtrInfo (T : Type 0) : Type 0 where
  pub ptr : T
  pub has_send : Bool

pub record TimeoutQueueNew (T : Type 0) : Type 0 where
  pub unique_id : ℕ
  pub data_ : List (ℕ × PtrInfo T)
  -- Deadlines with ids, in the order of the multimap.
  pub time_ : List (ℕ × ℕ)
  pub send_ : List ℕ

abbrev pub time_key : ℕ × ℕ → ℕ
time_key x = x.1

abbrev pub send_key : ℕ → ℕ
send_key x = x

-- The last of a list that is not empty, and the others.
abbrev pub back : ℕ → List ℕ → ℕ
back x [] = x
back x (y ∷ ys) = back y ys

abbrev pub pop_back : ℕ → List ℕ → List ℕ
pop_back x [] = []
pop_back x (y ∷ ys) = x ∷ pop_back y ys

module _ {T : Type 0} where
  abbrev pub data_key : ℕ × PtrInfo T → ℕ
  data_key x = x.0

  -- `data_.find`.
  unfoldable pub find : ℕ → List (ℕ × PtrInfo T) → Option (PtrInfo T)
  find id [] = none
  find id ((j, p) ∷ xs) = if id == j then some p else find id xs

  -- `has_send` set through an iterator.
  unfoldable pub mark_sent : ℕ → List (ℕ × PtrInfo T) → List (ℕ × PtrInfo T)
  mark_sent id [] = []
  mark_sent id ((j, p) ∷ xs) =
      if id == j then (j, record p { has_send = true }) ∷ xs else (j, p) ∷ mark_sent id xs

  -- `TimeoutQueueNew()`, with whatever `uniqueId_` held.
  unfoldable pub construct : ℕ → TimeoutQueueNew T
  construct id = record { unique_id = id; data_ = []; time_ = []; send_ = [] }

  -- `while (++uniqueId_ == 0);`
  unfoldable pub generate_id : TimeoutQueueNew T → ℕ × TimeoutQueueNew T
  generate_id q =
      let once = add32 q.unique_id 1 in
      let id = if once == 0 then add32 once 1 else once in (id, record q { unique_id = id })

  unfoldable pub push : T → ℕ → ℕ → Bool → TimeoutQueueNew T → Bool × TimeoutQueueNew T
  push t id timeout has_send q = elim (find id q.data_) [
    | some _ ↦ (false, q)
    | none ↦ (
      true,
      record q {
        data_ = (id, record { ptr = t; has_send = has_send }) ∷ q.data_;
        time_ = insert timeout id q.time_;
        send_ = if has_send then q.send_ else id ∷ q.send_;
      },
    )
  ]

  -- The erasures of an entry from the three containers that `get`, `erase` and the forms of `timeout`
  -- make.
  unfoldable pub unlink : ℕ → PtrInfo T → TimeoutQueueNew T → TimeoutQueueNew T
  unlink id p q = record q {
    data_ = erase_by data_key id q.data_;
    time_ = erase_by time_key id q.time_;
    send_ = if p.has_send then q.send_ else erase_by send_key id q.send_;
  }

  -- What is written to `t`, where the answer is true.
  unfoldable pub get : ℕ → Bool → TimeoutQueueNew T → Option T × TimeoutQueueNew T
  get id erase q = elim (find id q.data_) [
    | none ↦ (none, q)
    | some p ↦ (some p.ptr, if erase then unlink id p q else q)
  ]

  unfoldable pub erase : ℕ → TimeoutQueueNew T → Option T × TimeoutQueueNew T
  erase id q = elim (find id q.data_) [ none ↦ (none, q) | some p ↦ (some p.ptr, unlink id p q) ]

  -- `getSend`: the answer. `t` is not written, and the entry's pointer has to be null.
  unfoldable pub get_send : (T → Bool) → TimeoutQueueNew T → Option Bool
  get_send is_null q = elim q.send_ [
    | [] ↦ some false
    | x ∷ xs ↦ do p ← find (back x xs) q.data_; guard (is_null p.ptr); some true
  ]

  unfoldable pub pop_send : Bool → TimeoutQueueNew T → Option (TimeoutQueueNew T)
  pop_send del q = elim q.send_ [
    | [] ↦ none
    | x ∷ xs ↦ do
      let id = back x xs
      _ ← find id q.data_
      some (record q {
        data_ = if del then erase_by data_key id q.data_ else mark_sent id q.data_;
        time_ = if del then erase_by time_key id q.time_ else q.time_;
        send_ = pop_back x xs;
      })
  ]

  -- A round of a `timeout` at a time of day: the first entry, if its deadline is not later.
  unfoldable pub expire_one : ℕ → TimeoutQueueNew T → Option (Option T × TimeoutQueueNew T)
  expire_one now q = elim q.time_ [
    | [] ↦ some (none, q)
    | x ∷ _ ↦
        let due = (do p ← find x.1 q.data_; some (some p.ptr, unlink x.1 p q)) in
        if ltb now x.0 then some (none, q) else due
  ]

  -- `timeout()` reads the clock once. `time_` shrinks in every round, so that its length bounds them.
  unfoldable pub timeout_loop : ℕ → ℕ → TimeoutQueueNew T → Option (TimeoutQueueNew T)
  timeout_loop zero now q = none
  timeout_loop (suc fuel) now q = do
    (t, q') ← expire_one now q
    elim t [ none ↦ some q' | some _ ↦ timeout_loop fuel now q' ]

  -- `timeout(func)` reads the clock in every round. The callback may change the queue. `none` inside is
  -- that it has not ended after these readings.
  unfoldable pub timeout_func :
      (T → TimeoutQueueNew T → TimeoutQueueNew T)
      → List ℕ
      → TimeoutQueueNew T
      → Option (Option (TimeoutQueueNew T))
  timeout_func func [] q = some none
  timeout_func func (now ∷ later) q = do
    (t, q') ← expire_one now q
    elim t [ none ↦ some (some q') | some ptr ↦ timeout_func func later (func ptr q') ]
