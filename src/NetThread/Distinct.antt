-- ===== src/NetThread/Distinct.antt =====
-- The ids of the connections in the map, and those that are free.
use tarsx.Prelude.{
  ℕ, zero, suc, ◌≤◌, ◌<◌, ◌≡◌, refl, sym, ap, subst, ◌∙◌, inl, inr, true, Option, none, some, List,
  [], ◌∷◌, ◌++◌, arith, ◌==◌, if◌then◌else◌, Bool-cases, Option-cases, ℕ_discrete, >>=-eq-some,
}
use tarsx.Buffer.{Byte}
use tarsx.Connection.{Slice}
use tarsx.Connection.Send.{Written}
use tarsx.BindAdapter.{CloseType}
use tarsx.NetThread.{
  Connection, NetThread, lookup, touch, assign, erase_uid, ids_from, create_epoll, add_t_connection,
  del_connection, Accepted, got_fd, again, failed, accept, accept_loop, store,
}
use tarsx.NetThread.Serve.{
  hand_on, recv_need_to_send_from_server, close, terminate, et_listen, et_close, et_notify, et_net,
  dispatch, Step, dispatched, needs_to_send, closes, terminates, step, steps,
}
use tarsx.NetThread.Closed.{keys, lookup_absent}
use tarsx.NetThread.Lookups.{
  lookup-touch, keys-touch_le, lookup-assign_self, lookup-assign_ne, keys-assign_le, keys-erase_le,
  lookup-erase_ne, lookup-erase_self,
}
use tarsx.NetThread.Ids.{add_empty, add_front}
use tarsx.NetThread.Kept.{
  Closed, Keeps, Keeps-some, Keeps-bind, Keeps-process_pipe, Keeps-process_net,
}

abbrev pub times : ℕ → List ℕ → ℕ
times u [] = 0
times u (v ∷ vs) = if u == v then suc (times u vs) else times u vs

-- A map has an id at most once, a connection stands in it under its own id, no id of a connection is
-- free, and none is free twice.
pub record Distinct (m : List (ℕ × Option Connection)) (xs : List ℕ) : Type 0 where
  pub once : (u : ℕ) → keys u m ≤ 1
  pub named : (u : ℕ) (c : Connection) → lookup u m ≡ some c → c.uid ≡ u
  pub taken : (u : ℕ) (c : Connection) → lookup u m ≡ some c → times u xs ≡ 0
  pub spare : (u : ℕ) → times u xs ≤ 1

-- A map that has no connection where the other has none.
Distinct-at :
    (m n : List (ℕ × Option Connection)) (xs : List ℕ)
    → Distinct m xs
    → ((u : ℕ) → keys u n ≤ 1)
    → ((u : ℕ) (c : Connection)
        → lookup u n ≡ some c
        → (c.uid ≡ u) × ((d : Connection) × (lookup u m ≡ some d)))
    → Distinct n xs
Distinct-at m n xs v k h = record {
  once = k;
  named = λ u c e. (h u c e).0;
  taken = λ u c e. let (_, (d, f)) = h u c e in v.taken u d f;
  spare = v.spare;
}

module _ (m : List (ℕ × Option Connection)) (xs : List ℕ) (v : Distinct m xs) where
  Distinct-touch : (u : ℕ) → Distinct (touch u m) xs
  Distinct-touch u =
      Distinct-at m (touch u m) xs v (λ w. keys-touch_le w u m (v.once w))
        (λ w x e. let f = sym (lookup-touch w u m) ∙ e in (v.named w x f, (x, f)))

  Distinct-assign :
      (c d : Connection) → lookup c.uid m ≡ some d → Distinct (assign c.uid (some c) m) xs
  Distinct-assign c d there =
      Distinct-at m _ xs v (λ u. keys-assign_le u c.uid (some c) m (v.once u))
        (λ u x e. elim (ℕ_discrete u c.uid) [
          | yes same ↦
              let self : some c ≡ some x =
                sym (lookup-assign_self c.uid (some c) m)
                ∙ sym (ap (λ w. lookup w (assign c.uid (some c) m)) same)
                ∙ e in
              let eq : c ≡ x = cc in
              (sym (ap (λ y. y.uid) eq) ∙ sym same, (d, ap (λ w. lookup w m) same ∙ there))
          | no other ↦
              let f = sym (lookup-assign_ne u c.uid (some c) m other) ∙ e in (v.named u x f, (x, f))
        ])

  Distinct-erase : (i : ℕ) → Distinct (erase_uid i m) xs
  Distinct-erase i =
      Distinct-at m _ xs v (λ u. omega (arith, keys-erase_le u i m, v.once u))
        (λ u x e. elim (ℕ_discrete u i) [
          | yes same ↦
              let gone = lookup-erase_self i m (v.once i) in
              let here = sym (ap (λ w. lookup w (erase_uid i m)) same) ∙ e in cc
          | no other ↦ let f = sym (lookup-erase_ne u i m other) ∙ e in (v.named u x f, (x, f))
        ])

-- The invariant of a thread.
abbrev pub Apart : NetThread → Type 0
Apart t = Distinct t.connection_uids t.free_

store_known :
    (c d : Connection) (t : NetThread)
    → lookup c.uid t.connection_uids ≡ some d
    → store c t ≡ record t { connection_uids = assign c.uid (some c) t.connection_uids }
unfolding store
store_known c d t e = rw (e, store)

store_missing :
    (c : Connection) (t : NetThread) → lookup c.uid t.connection_uids ≡ none → store c t ≡ t
unfolding store
store_missing c t e = rw (e, store)

Apart-store : (c : Connection) (t : NetThread) → Apart t → Apart (store c t)
Apart-store c t v = elim (Option-cases (lookup c.uid t.connection_uids)) [
  | inl missing ↦ subst Apart (sym (store_missing c t missing)) v
  | inr (d, known) ↦
      subst Apart (sym (store_known c d t known))
        (Distinct-assign t.connection_uids t.free_ v c d known)
]

Apart-del_connection :
    (c : Connection) (k : CloseType) (t : NetThread) → Apart t → Apart (del_connection c k t)
unfolding del_connection
Apart-del_connection c k t v = elim (Bool-cases c.listening) [
  | inl accepted ↦ rw accepted (Distinct-erase t.connection_uids t.free_ v c.uid)
  | inr other ↦ rw other v
]

Apart-hand_on :
    (c : Connection) (reqs : List (List Byte)) (t : NetThread) → Apart t → Apart (hand_on c reqs t)
unfolding hand_on
Apart-hand_on c [] t v = v
Apart-hand_on c (r ∷ reqs) t v = v

Closed-Apart : Closed Apart
Closed-Apart = record {
  on_store = Apart-store;
  on_del = Apart-del_connection;
  on_hand = Apart-hand_on;
  on_touch = λ uid t v. Distinct-touch t.connection_uids t.free_ v uid;
  on_queue = λ q t v. v;
}

times-tail : (u i : ℕ) (xs : List ℕ) → times u xs ≤ times u (i ∷ xs)
times-tail u i xs = ground arith

times-front : (u : ℕ) (xs : List ℕ) → times u (u ∷ xs) ≡ suc (times u xs)
times-front u xs = ground arith

-- A connection that gets the first of the free ids.
Distinct-front :
    (m : List (ℕ × Option Connection)) (i : ℕ) (xs : List ℕ) (c : Connection)
    → Distinct m (i ∷ xs)
    → c.uid ≡ i
    → Distinct (assign i (some c) m) xs
Distinct-front m i xs c v own = record {
  once = λ u. keys-assign_le u i (some c) m (v.once u);
  named = λ u x e. (at_id u x e).0;
  taken = λ u x e. (at_id u x e).1;
  spare = λ u. omega (arith, times-tail u i xs, v.spare u);
}
  where
    at_id :
        (u : ℕ) (x : Connection)
        → lookup u (assign i (some c) m) ≡ some x
        → (x.uid ≡ u) × (times u xs ≡ 0)
    at_id u x e = elim (ℕ_discrete u i) [
      | yes same ↦
          let self : some c ≡ some x =
            sym (lookup-assign_self i (some c) m)
            ∙ sym (ap (λ w. lookup w (assign i (some c) m)) same)
            ∙ e in
          let eq : c ≡ x = cc in
          let none_left : times i xs ≡ 0 = omega (arith, times-front i xs, v.spare i) in
          (sym (ap (λ y. y.uid) eq) ∙ own ∙ sym same, ap (λ w. times w xs) same ∙ none_left)
      | no other ↦
          let f = sym (lookup-assign_ne u i (some c) m other) ∙ e in
          (v.named u x f, omega (arith, times-tail u i xs, v.taken u x f))
    ]

Apart-add : (c : Connection) (t : NetThread) → Apart t → Keeps Apart (add_t_connection c t)
Apart-add c t v = front t.free_ refl
  where
    front : (xs : List ℕ) → t.free_ ≡ xs → Keeps Apart (add_t_connection c t)
    front [] f = λ t' e. let faulted = add_empty c t f in cc
    front (uid ∷ rest) f =
        let w : Distinct t.connection_uids (uid ∷ rest) =
          subst (λ xs. Distinct t.connection_uids xs) f v in
        subst (Keeps Apart) (sym (add_front c t uid rest f))
          (Keeps-some Apart _ (Distinct-front t.connection_uids uid rest _ w refl))

Apart-accept_loop :
    (listenfd : ℕ) (answers : List Accepted) (t : NetThread)
    → Apart t
    → Keeps Apart (accept_loop listenfd answers t)
unfolding accept_loop accept
Apart-accept_loop listenfd [] t v t' e = Keeps-some Apart t v t' e
Apart-accept_loop listenfd (got_fd fd ∷ answers) t v t' e =
    let (r, f, g) = >>=-eq-some (accept listenfd (got_fd fd) t) _ e in
    let (t₁, f₁, g₁) = >>=-eq-some (add_t_connection _ t) _ f in
    let same : (true, t₁) ≡ r = cc in
    let onward =
      subst (λ x. (if x.0 then accept_loop listenfd answers x.1 else some x.1) ≡ some t') (sym same)
        g in
    Apart-accept_loop listenfd answers t₁ (Apart-add _ t v t₁ f₁) t' onward
Apart-accept_loop listenfd (again ∷ answers) t v t' e = Keeps-some Apart t v t' e
Apart-accept_loop listenfd (failed ∷ answers) t v t' e = Apart-accept_loop listenfd answers t v t' e

times_below : (u i n : ℕ) → u < i → times u (ids_from i n) ≡ 0
unfolding ids_from
times_below u i zero h = refl
times_below u i (suc n) h = ground (arith, times_below u (suc i) n)

times-ids_from : (u i n : ℕ) → times u (ids_from i n) ≤ 1
unfolding ids_from
times-ids_from u i zero = omega arith
times-ids_from u i (suc n) = ground (arith, times_below u (suc i) n, times-ids_from u (suc i) n)

module _ (writev : List Slice → Written) (max_iov : ℕ) where
  Apart-needs :
      (uid : ℕ) (msg : List Byte) (t : NetThread)
      → Apart t
      → Apart (recv_need_to_send_from_server uid msg t)
  unfolding recv_need_to_send_from_server
  Apart-needs uid msg t v = elim (Bool-cases t.terminate_) [
    | inl ends ↦ rw ends v
    | inr runs ↦ rw runs v
  ]

  Apart-step : (s : Step) (t : NetThread) → Apart t → Keeps Apart (step writev max_iov s t)
  unfolding step dispatch close terminate
  Apart-step (dispatched (et_listen listenfd answers)) t v = Apart-accept_loop listenfd answers t v
  Apart-step (dispatched et_close) t v = Keeps-some Apart t v
  Apart-step (dispatched (et_notify accepted)) t v =
      Keeps-process_pipe Apart Closed-Apart accepted t v
  Apart-step (dispatched (et_net uid err is_in is_out reads)) t v =
      Keeps-process_net Apart Closed-Apart writev max_iov uid err is_in is_out reads t v
  Apart-step (needs_to_send uid msg) t v = Keeps-some Apart _ (Apart-needs uid msg t v)
  Apart-step (closes uid) t v = Keeps-some Apart _ v
  Apart-step terminates t v = Keeps-some Apart _ v

  Apart-steps : (ss : List Step) (t : NetThread) → Apart t → Keeps Apart (steps writev max_iov ss t)
  unfolding steps
  Apart-steps [] t v = Keeps-some Apart t v
  Apart-steps (s ∷ ss) t v =
      Keeps-bind Apart (step writev max_iov s t) _
        (λ t₁ e. Apart-steps ss t₁ (Apart-step s t v t₁ e))

  -- On a network thread that started without connections and without ids, before `createEpoll`, after
  -- whatever events and calls that did not fault, the map has an id at most once, every connection
  -- stands in it under its own id, no id of a connection is free, and no id is free twice.
  pub steps-Distinct :
      (ss : List Step) (t t' : NetThread)
      → t.connection_uids ≡ []
      → t.free_ ≡ []
      → steps writev max_iov ss (create_epoll t) ≡ some t'
      → Distinct t'.connection_uids t'.free_
  unfolding create_epoll
  steps-Distinct ss t t' empty unmade e =
      Apart-steps ss (create_epoll t)
        (subst (λ m. Distinct m (t.free_ ++ ids_from 1 2000)) (sym empty)
          (subst (λ xs. Distinct [] (xs ++ ids_from 1 2000)) (sym unmade) start))
        t' e
    where
      start : Distinct [] (ids_from 1 2000)
      start = record {
        once = λ u. omega arith;
        named = λ u c f. let absent = lookup_absent u [] refl in cc;
        taken = λ u c f. let absent = lookup_absent u [] refl in cc;
        spare = λ u. times-ids_from u 1 2000;
      }
