-- ===== src/LoopQueue/Uses.antt =====
-- What `push_back` and `pop_front` do to a ring that holds a list, for the code that uses a ring.
use tarsx.Prelude.{
  ℕ, ◌≡◌, subst, ap, ◌∙◌, Bool, Option, none, some, List, [], ◌∷◌, ◌++◌, arith, ltb, if◌then◌else◌,
  length,
}
use tarsx.LoopQueue.{LoopQueue, Pushed, push_back, push_back_only, pop_front}
use tarsx.LoopQueue.Inv.{IsValid, Holds}
use tarsx.LoopQueue.Fifo.{
  pushes, pushes_only, pops, pushed, step, fifo_step, fifo_push, fifo_pop, answer, item, Reply,
}
use tarsx.LoopQueue.Refine.{step_refines}

module _ {A : Type 0} where
  -- A valid ring of `n` places that holds a list.
  pub record Ring (n : ℕ) (q : LoopQueue A) (xs : List A) : Type 0 where
    pub valid : IsValid q
    pub holds : Holds q xs
    pub room : q.capacity_sub ≡ n

  abbrev as_answer : Option (Bool × LoopQueue A) → Option (Reply A × LoopQueue A)
  as_answer none = none
  as_answer (some (d, r)) = some (answer d, r)

  abbrev as_item : Option (Option A × LoopQueue A) → Option (Reply A × LoopQueue A)
  as_item none = none
  as_item (some (o, r)) = some (item o, r)

  answered :
      (o : Option (Bool × LoopQueue A)) (b : Bool) (r : LoopQueue A)
      → as_answer o ≡ some (answer b, r)
      → o ≡ some (b, r)
  answered none b r e = cc
  answered (some (d, s)) b r e = cc

  given :
      (o : Option (Option A × LoopQueue A)) (x : Option A) (r : LoopQueue A)
      → as_item o ≡ some (item x, r)
      → o ≡ some (x, r)
  given none x r e = cc
  given (some (y, s)) x r e = cc

  pushed_first : (n : ℕ) (xs : List A) (t : A) → (fifo_push n xs t).0 ≡ ltb (length xs) n
  unfolding fifo_push
  pushed_first n xs t = ground arith

  pushed_list :
      (n : ℕ) (xs : List A) (t : A)
      → (fifo_push n xs t).2 ≡ (if ltb (length xs) n then xs ++ t ∷ [] else xs)
  unfolding fifo_push
  pushed_list n xs t = ground arith

  pub push_back_only-Ring :
      (n : ℕ) (q : LoopQueue A) (xs : List A) (t : A)
      → Ring n q xs
      → (r : LoopQueue A) × (push_back_only q t ≡ some (ltb (length xs) n, r))
        × Ring n r (if ltb (length xs) n then xs ++ t ∷ [] else xs)
  unfolding step fifo_step
  push_back_only-Ring n q xs t v =
      let f = step_refines q xs (pushes_only t) v.valid v.holds in
      (
        f.after,
        answered (push_back_only q t) (ltb (length xs) n) f.after (
            f.replied
            ∙ ap (λ b. some (answer b, f.after))
                (pushed_first _ xs t ∙ ap (ltb (length xs)) v.room)),
        record {
          valid = f.valid;
          holds =
              subst (Holds f.after)
                (pushed_list _ xs t
                  ∙ ap (λ k. if ltb (length xs) k then xs ++ t ∷ [] else xs) v.room)
                f.holds;
          room = f.same ∙ v.room;
        },
      )

  abbrev as_pushed : Option (Pushed A) → Option (Reply A × LoopQueue A)
  as_pushed none = none
  as_pushed (some r) = some (pushed r.done r.was_empty, r.queue)

  taken_in :
      (o : Option (Pushed A)) (d e : Bool) (q : LoopQueue A)
      → as_pushed o ≡ some (pushed d e, q)
      → o ≡ some (record { queue = q; done = d; was_empty = e })
  taken_in none d e q f = cc
  taken_in (some r) d e q f = cc

  pub push_back-Ring :
      (n : ℕ) (q : LoopQueue A) (xs : List A) (t : A)
      → Ring n q xs
      → (r : LoopQueue A) × (e : Bool) × (push_back q t
          ≡ some (record { queue = r; done = ltb (length xs) n; was_empty = e }))
        × Ring n r (if ltb (length xs) n then xs ++ t ∷ [] else xs)
  unfolding step fifo_step
  push_back-Ring n q xs t v =
      let f = step_refines q xs (pushes t) v.valid v.holds in
      let first = pushed_first q.capacity_sub xs t ∙ ap (ltb (length xs)) v.room in
      let e : Bool = (fifo_push q.capacity_sub xs t).1 in
      (
        f.after,
        e,
        taken_in (push_back q t) (ltb (length xs) n) e f.after
            (f.replied ∙ ap (λ b. some (pushed b e, f.after)) first),
        record {
          valid = f.valid;
          holds =
              subst (Holds f.after)
                (pushed_list _ xs t
                  ∙ ap (λ k. if ltb (length xs) k then xs ++ t ∷ [] else xs) v.room)
                f.holds;
          room = f.same ∙ v.room;
        },
      )

  pub pop_front-Ring :
      (n : ℕ) (q : LoopQueue A) (xs : List A)
      → Ring n q xs
      → (r : LoopQueue A) × (pop_front q ≡ some ((fifo_pop xs).0, r)) × Ring n r (fifo_pop xs).1
  unfolding step fifo_step
  pop_front-Ring n q xs v =
      let f = step_refines q xs pops v.valid v.holds in
      (
        f.after,
        given (pop_front q) (fifo_pop xs).0 f.after f.replied,
        record { valid = f.valid; holds = f.holds; room = f.same ∙ v.room },
      )
