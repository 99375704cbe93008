-- ===== src/NetThread/Ids.antt =====
-- The free ids and the connections that are accepted.
use tarsx.Prelude.{
  ℕ, zero, suc, ◌+◌, ◌<◌, ◌≡◌, refl, sym, ap, subst, ◌∙◌, inl, inr, true, Option, none, some, List,
  [], ◌∷◌, arith, length, length-append, if◌then◌else◌, Option-cases, >>=-eq-some,
}
use tarsx.Buffer.{Byte}
use tarsx.Connection.{Slice}
use tarsx.Connection.Send.{Written}
use tarsx.NetThread.{
  Connection, NetThread, assign, ids_from, create_epoll, add_t_connection, Accepted, got_fd, again,
  failed, accept, accept_loop,
}
use tarsx.NetThread.Serve.{
  recv_need_to_send_from_server, close, terminate, et_listen, et_close, et_notify, et_net, dispatch,
  Step, dispatched, needs_to_send, closes, terminates, step, steps,
}
use tarsx.NetThread.Free.{Free, Free-some, Free-process_pipe, Free-process_net}

-- The connections that the loop over `accept` makes.
abbrev pub made : List Accepted → ℕ
made [] = 0
made (got_fd fd ∷ answers) = suc (made answers)
made (again ∷ answers) = 0
made (failed ∷ answers) = made answers

abbrev pub made_by : Step → ℕ
made_by (dispatched (et_listen listenfd answers)) = made answers
made_by _ = 0

abbrev pub made_in_all : List Step → ℕ
made_in_all [] = 0
made_in_all (s ∷ ss) = made_by s + made_in_all ss

-- A result has `n` free ids fewer.
abbrev Takes : ℕ → NetThread → Option NetThread → Type 0
Takes n t o = (t' : NetThread) → o ≡ some t' → length t'.free_ + n ≡ length t.free_

Takes-Free : (t : NetThread) (o : Option NetThread) → Free t.free_ o → Takes 0 t o
Takes-Free t o f t' e = omega (arith, ap length (f t' e))

pub add_empty : (c : Connection) (t : NetThread) → t.free_ ≡ [] → add_t_connection c t ≡ none
unfolding add_t_connection
add_empty c t f = rw (f, add_t_connection)

pub add_front :
    (c : Connection) (t : NetThread) (uid : ℕ) (rest : List ℕ)
    → t.free_ ≡ uid ∷ rest
    → add_t_connection c t
      ≡ some (record t {
        free_ = rest;
        connection_uids = assign uid (some (record c { uid = uid })) t.connection_uids;
        watched = (c.fd, uid) ∷ t.watched;
      })
unfolding add_t_connection
add_front c t uid rest f = rw (f, add_t_connection)

Takes-add : (c : Connection) (t : NetThread) → Takes 1 t (add_t_connection c t)
Takes-add c t t' e = front t.free_ refl
  where
    front : (xs : List ℕ) → t.free_ ≡ xs → length t'.free_ + 1 ≡ length t.free_
    front [] f = let faulted = add_empty c t f in cc
    front (uid ∷ rest) f =
        let same = sym e ∙ add_front c t uid rest f in
        let g : t' ≡ record t {
          free_ = rest;
          connection_uids = assign uid (some (record c { uid = uid })) t.connection_uids;
          watched = (c.fd, uid) ∷ t.watched;
        } =
          cc in
        omega (arith, ap (λ r. length r.free_) g, ap length f)

Takes-accept_loop :
    (listenfd : ℕ) (answers : List Accepted) (t : NetThread)
    → Takes (made answers) t (accept_loop listenfd answers t)
unfolding accept_loop accept
Takes-accept_loop listenfd [] t t' e = Takes-Free t _ (Free-some t t.free_ refl) t' e
Takes-accept_loop listenfd (got_fd fd ∷ answers) t t' e =
    let (r, f, g) = >>=-eq-some (accept listenfd (got_fd fd) t) _ e in
    let (t₁, f₁, g₁) = >>=-eq-some (add_t_connection _ t) _ f in
    let same : (true, t₁) ≡ r = cc in
    let onward =
      subst (λ x. (if x.0 then accept_loop listenfd answers x.1 else some x.1) ≡ some t') (sym same)
        g in
    omega (arith, Takes-add _ t t₁ f₁, Takes-accept_loop listenfd answers t₁ t' onward)
Takes-accept_loop listenfd (again ∷ answers) t t' e = Takes-Free t _ (Free-some t t.free_ refl) t' e
Takes-accept_loop listenfd (failed ∷ answers) t t' e = Takes-accept_loop listenfd answers t t' e

module _ (writev : List Slice → Written) (max_iov : ℕ) where
  free-needs :
      (uid : ℕ) (msg : List Byte) (t : NetThread)
      → (recv_need_to_send_from_server uid msg t).free_ ≡ t.free_
  unfolding recv_need_to_send_from_server
  free-needs uid msg t = ground arith

  free-close : (uid : ℕ) (t : NetThread) → (close uid t).free_ ≡ t.free_
  unfolding close
  free-close uid t = refl

  free-terminate : (t : NetThread) → (terminate t).free_ ≡ t.free_
  unfolding terminate
  free-terminate t = refl

  Takes-step : (s : Step) (t : NetThread) → Takes (made_by s) t (step writev max_iov s t)
  unfolding step dispatch
  Takes-step (dispatched (et_listen listenfd answers)) t = Takes-accept_loop listenfd answers t
  Takes-step (dispatched et_close) t = Takes-Free t _ (Free-some t t.free_ refl)
  Takes-step (dispatched (et_notify accepted)) t = Takes-Free t _ (Free-process_pipe accepted t)
  Takes-step (dispatched (et_net uid err is_in is_out reads)) t =
      Takes-Free t _ (Free-process_net writev max_iov uid err is_in is_out reads t)
  Takes-step (needs_to_send uid msg) t =
      Takes-Free t _
        (Free-some (recv_need_to_send_from_server uid msg t) t.free_ (free-needs uid msg t))
  Takes-step (closes uid) t = Takes-Free t _ (Free-some (close uid t) t.free_ (free-close uid t))
  Takes-step terminates t = Takes-Free t _ (Free-some (terminate t) t.free_ (free-terminate t))

  Takes-steps :
      (ss : List Step) (t : NetThread) → Takes (made_in_all ss) t (steps writev max_iov ss t)
  unfolding steps
  Takes-steps [] t t' e = Takes-Free t _ (Free-some t t.free_ refl) t' e
  Takes-steps (s ∷ ss) t t' e =
      let (t₁, f, g) = >>=-eq-some (step writev max_iov s t) _ e in
      omega (arith, Takes-step s t t₁ f, Takes-steps ss t₁ t' g)

  length-ids_from : (i n : ℕ) → length (ids_from i n) ≡ n
  unfolding ids_from
  length-ids_from i zero = refl
  length-ids_from i (suc n) = ap suc (length-ids_from (suc i) n)

  -- However many connections are closed in between, a network thread to whose free ids `createEpoll`
  -- added its 2000 faults before it has accepted more connections than that.
  pub steps-exhausted :
      (ss : List Step) (t : NetThread)
      → length t.free_ + 2000 < made_in_all ss
      → steps writev max_iov ss (create_epoll t) ≡ none
  unfolding create_epoll
  steps-exhausted ss t h = elim (Option-cases (steps writev max_iov ss (create_epoll t))) [
    | inl faulted ↦ faulted
    | inr (t', returned) ↦ absurd (
        omega (
          arith,
          Takes-steps ss (create_epoll t) t' returned,
          length-append t.free_ (ids_from 1 2000),
          length-ids_from 1 2000,
        ))
  ]
