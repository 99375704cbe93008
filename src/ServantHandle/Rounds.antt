-- ===== src/ServantHandle/Rounds.antt =====
-- A round of `handleRequest`.
use tarsx.Prelude.{
  ℕ, zero, suc, ◌^◌, ◌<◌, ◌≡◌, refl, sym, subst, ◌∙◌, inl, inr, Bool, true, false, none, some, List,
  [], ◌∷◌, ◌++◌, arith, ltb, sub64, length, take, Bool-cases, dec_lt,
}
use tarsx.ThreadDeque.{pop_front, wait}
use tarsx.ThreadDeque.Laws.{of_list}
use tarsx.BindAdapter.{RecvData, wait_for_recv_queue}
use tarsx.CoroutineScheduler.Inv.{Inv}
use tarsx.CoroutineScheduler.Create.{create_coroutine-Took, create_coroutine_full}
use tarsx.CoroutineScheduler.Wake.{yield}
use tarsx.ServantHandle.{Work, spawn, serve, adapter_loop, adapters_loop, handle_request}
use tarsx.ServantHandle.Requests.{
  open_ones, holding, Worked, Emptied, adapters_of, taken, left, AllSmall, requests-append,
  AllPlaced-append, Worked-nil, Worked-trans,
}

module _ (allocates : ℕ → Bool) (ok : (j : ℕ) → allocates j ≡ true) where
  spawn_lem :
      (x : RecvData) (w : Work)
      → Inv w.sched
      → (r : Work) × (spawn allocates x w ≡ some r) × Worked (x ∷ []) w r
  unfolding spawn
  spawn_lem x w v = elim (dec_lt w.sched.used_size w.sched.pool_size) [
    | yes room ↦
        let t = create_coroutine-Took allocates w.sched v ok room in
        (
          record { sched = t.after; jobs = w.jobs ++ (t.uid, x) ∷ [] },
          rw t.returned,
          record {
            inv = t.inv;
            pool = t.pool;
            used = omega (arith, t.one_more);
            asked = requests-append w.jobs ((t.uid, x) ∷ []);
            placed = λ h k. AllPlaced-append w.jobs t.uid x k t.not_main;
          },
        )
    | no full ↦
        let e =
          create_coroutine_full allocates w.sched v (omega (arith, full, v.current_in, v.within)) in
        (
          record { sched = w.sched; jobs = w.jobs ++ (0, x) ∷ [] },
          rw e,
          record {
            inv = v;
            pool = refl;
            used = omega arith;
            asked = requests-append w.jobs ((0, x) ∷ []);
            placed = λ h k. absurd (omega (arith, full, h));
          },
        )
  ]

  serve_closed : (x : RecvData) (w : Work) → x.closed ≡ true → serve allocates x w ≡ some w
  unfolding serve
  serve_closed x w e = simp e

  serve_open :
      (x : RecvData) (w : Work) → x.closed ≡ false → serve allocates x w ≡ spawn allocates x w
  unfolding serve
  serve_open x w e = simp e

  open_closed : (x : RecvData) → x.closed ≡ true → open_ones (x ∷ []) ≡ []
  unfolding open_ones
  open_closed x e = simp e

  open_kept : (x : RecvData) → x.closed ≡ false → open_ones (x ∷ []) ≡ x ∷ []
  unfolding open_ones
  open_kept x e = simp e

  serve_lem :
      (x : RecvData) (w : Work)
      → Inv w.sched
      → (r : Work) × (serve allocates x w ≡ some r) × Worked (open_ones (x ∷ [])) w r
  serve_lem x w v = elim (Bool-cases x.closed) [
    | inl gone ↦ (
      w,
      serve_closed x w gone,
      subst (λ rs. Worked rs w w) (sym (open_closed x gone)) (Worked-nil w v),
    )
    | inr kept ↦
        let (r, e, f) = spawn_lem x w v in
        (r, serve_open x w kept ∙ e, subst (λ rs. Worked rs w r) (sym (open_kept x kept)) f)
  ]

  wait_empty : wait_for_recv_queue 0 (λ q. q) (holding []) ≡ some (none, holding [])
  unfolding wait_for_recv_queue pop_front wait
  wait_empty = refl

  pop_one :
      (x : RecvData) (xs : List RecvData)
      → suc (length xs) < 2 ^ 64
      → pop_front 0 (λ q. q) (of_list (x ∷ xs)) ≡ some (some x, of_list xs)
  unfolding pop_front
  pop_one x xs h = rw (positive, less)
    where
      positive : ltb 0 (suc (length xs)) ≡ true
      positive = ground arith

      less : sub64 (suc (length xs)) 1 ≡ length xs
      less = omega (arith, h)

  wait_one :
      (x : RecvData) (xs : List RecvData)
      → suc (length xs) < 2 ^ 64
      → wait_for_recv_queue 0 (λ q. q) (holding (x ∷ xs)) ≡ some (some x, holding xs)
  unfolding wait_for_recv_queue
  wait_one x xs h = rw (pop_one x xs h, wait_for_recv_queue)

  open_cons :
      (x : RecvData) (xs : List RecvData) → open_ones (x ∷ []) ++ open_ones xs ≡ open_ones (x ∷ xs)
  unfolding open_ones
  open_cons x xs = elim (Bool-cases x.closed) [ inl e ↦ simp e | inr e ↦ simp e ]

  adapter_loop_lem :
      (n : ℕ) (y : Bool) (xs : List RecvData) (w : Work)
      → length xs < 2 ^ 64
      → Inv w.sched
      → Emptied n xs w (adapter_loop allocates n y (holding xs) w)
  unfolding adapter_loop
  adapter_loop_lem zero y xs w h v = record {
    after = record { loop = 0; yields = y; adapter = holding xs; work = w };
    returned = refl;
    adapter = refl;
    worked = unfold open_ones in Worked-nil w v;
    stops = refl;
  }
  adapter_loop_lem (suc n) y [] w h v = record {
    after = record { loop = n; yields = false; adapter = holding []; work = w };
    returned = rw wait_empty;
    adapter = refl;
    worked = unfold open_ones in Worked-nil w v;
    stops = ground arith;
  }
  adapter_loop_lem (suc n) y (x ∷ xs) w h v =
      let (r, e, f) = serve_lem x w v in
      let g = adapter_loop_lem n true xs r (omega (arith, h)) f.inv in
      record {
        after = g.after;
        returned = rw (wait_one x xs (omega (arith, h)), e) g.returned;
        adapter = g.adapter;
        worked =
            subst (λ rs. Worked rs w g.after.work) (open_cons x (take n xs))
              (Worked-trans _ _ w r g.after.work f g.worked);
        stops = g.stops;
      }

  adapters_loop_lem :
      (queues : List (ℕ × List RecvData)) (w : Work)
      → AllSmall queues
      → Inv w.sched
      → (r : Work) × (adapters_loop allocates false (adapters_of queues) w
          ≡ some (false, adapters_of (left queues), r))
        × Worked (taken queues) w r
  unfolding adapters_loop
  adapters_loop_lem [] w h v = (w, refl, Worked-nil w v)
  adapters_loop_lem ((name, xs) ∷ queues) w h v =
      let d = adapter_loop_lem 100 false xs w h.0 v in
      let (r, e, f) = adapters_loop_lem queues d.after.work h.1 d.worked.inv in
      (r, rw (d.returned, d.stops, e, d.adapter), Worked-trans _ _ w d.after.work r d.worked f)

  -- A round of `handleRequest` that is not held up by a coroutine that was woken: it returns, gives
  -- `createCoroutine` the requests at the front of each queue, 100 of each at most and without the
  -- news of closed connections, leaves the others where they are, and always ends in `yield`, so
  -- that the coroutines made have their turn. Every request has a coroutine where the pool has
  -- one for all of them.
  pub handle_request_lem :
      (queues : List (ℕ × List RecvData)) (w : Work)
      → AllSmall queues
      → Inv w.sched
      → w.sched.active_queue ≡ []
      → (r : Work) × (handle_request allocates (adapters_of queues) w
          ≡ some (true, adapters_of (left queues), record r { sched = yield true r.sched }))
        × Worked (taken queues) w r
  unfolding handle_request
  handle_request_lem queues w h v none_woken =
      let (r, e, f) = adapters_loop_lem queues w h v in (r, simp (none_woken, e), f)
