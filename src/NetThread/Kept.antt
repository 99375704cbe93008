-- ===== src/NetThread/Kept.antt =====
-- What a network thread's operations keep, once the few changes that they are made of keep it.
use tarsx.Prelude.{
  ℕ, ◌≡◌, subst, inl, inr, Bool, true, false, Option, none, some, List, [], ◌∷◌, if◌then◌else◌,
  length, Bool-cases, ◌>>=◌, >>=-eq-some,
}
use tarsx.Buffer.{Byte, Buffer}
use tarsx.Connection.{Slice, Read, recv}
use tarsx.Connection.Send.{Written, no_slices, send, send_buffer}
use tarsx.ThreadDeque.{ThreadDeque, swap}
use tarsx.BindAdapter.{CloseType, client_close, server_close}
use tarsx.NetThread.{
  Connection, SendData, cmd_s, cmd_c, cmd_other, NetThread, lookup, touch, del_connection, store,
}
use tarsx.NetThread.Serve.{
  hand_on, received, input, output, process_net, con_send, close_connection, process_message,
  process_messages, process_pipe,
}

-- A property of threads that is kept by the changes of the map, of the adapters and of the queue.
pub record Closed (P : NetThread → Type 0) : Type 0 where
  pub on_store : (c : Connection) (t : NetThread) → P t → P (store c t)
  pub on_del : (c : Connection) (k : CloseType) (t : NetThread) → P t → P (del_connection c k t)
  pub on_hand :
      (c : Connection) (reqs : List (List Byte)) (t : NetThread) → P t → P (hand_on c reqs t)
  pub on_touch :
      (uid : ℕ) (t : NetThread)
      → P t
      → P (record t { connection_uids = touch uid t.connection_uids })
  pub on_queue : (q : ThreadDeque SendData) (t : NetThread) → P t → P (record t { send_deque = q })

-- A result, if there is one, has the property.
abbrev pub Keeps : (NetThread → Type 0) → Option NetThread → Type 0
Keeps P o = (t : NetThread) → o ≡ some t → P t

pub Keeps-some : (P : NetThread → Type 0) (t : NetThread) → P t → Keeps P (some t)
Keeps-some P t h t' e = let same : t ≡ t' = cc in subst P same h

pub Keeps-bind :
    {A : Type 0} (P : NetThread → Type 0) (m : Option A) (k : A → Option NetThread)
    → ((a : A) → m ≡ some a → Keeps P (k a))
    → Keeps P (m >>= k)
Keeps-bind P m k h t e = let (a, f, g) = >>=-eq-some m k e in h a f t g

Keeps-if :
    (P : NetThread → Type 0) (b : Bool) (o p : Option NetThread)
    → Keeps P o
    → Keeps P p
    → Keeps P (if b then o else p)
Keeps-if P true o p h k = h
Keeps-if P false o p h k = k

module _ (P : NetThread → Type 0) (closed : Closed P) where
  keeps-close_connection : (c : Connection) (t : NetThread) → P t → P (close_connection c t)
  unfolding close_connection
  keeps-close_connection c t h = elim (Bool-cases (no_slices c.send_slices)) [
    | inl done ↦ rw done (closed.on_del _ server_close _ (closed.on_store _ t h))
    | inr waits ↦ rw waits (closed.on_store _ t h)
  ]

  Keeps-con_send :
      (accepted : Option ℕ) (buffer : List Byte) (c : Connection) (t : NetThread)
      → P t
      → Keeps P (con_send accepted buffer c t)
  unfolding con_send
  Keeps-con_send accepted buffer c t h =
      Keeps-bind P (send_buffer (length buffer) accepted c.close_ c.send_slices) _
        (λ r e. Keeps-some P _ (closed.on_store _ t h))

  Keeps-process_message :
      (accepted : Option ℕ) (m : SendData) (t : NetThread)
      → P t
      → Keeps P (process_message accepted m t)
  unfolding process_message
  Keeps-process_message accepted (cmd_s uid buffer) t h =
      Keeps-bind P (lookup uid t.connection_uids) _
        (λ c e. Keeps-con_send accepted buffer c _ (closed.on_touch uid t h))
  Keeps-process_message accepted (cmd_c uid) t h = ended (lookup uid t.connection_uids)
    where
      ended :
          (o : Option Connection)
          → Keeps P (elim o [
            | none ↦ some (record t { connection_uids = touch uid t.connection_uids })
            | some c ↦
                some
                  (close_connection c (record t { connection_uids = touch uid t.connection_uids }))
          ])
      ended none = Keeps-some P _ (closed.on_touch uid t h)
      ended (some c) = Keeps-some P _ (keeps-close_connection c _ (closed.on_touch uid t h))
  Keeps-process_message accepted cmd_other t h = λ t' e. cc

  Keeps-process_messages :
      (accepted : SendData → Option ℕ) (ms : List SendData) (t : NetThread)
      → P t
      → Keeps P (process_messages accepted ms t)
  unfolding process_messages
  Keeps-process_messages accepted [] t h = Keeps-some P t h
  Keeps-process_messages accepted (m ∷ ms) t h =
      Keeps-bind P (process_message (accepted m) m t) _ (λ t' e.
        Keeps-process_messages accepted ms t' (Keeps-process_message (accepted m) m t h t' e))

  pub Keeps-process_pipe :
      (accepted : SendData → Option ℕ) (t : NetThread) → P t → Keeps P (process_pipe accepted t)
  unfolding process_pipe
  Keeps-process_pipe accepted t h =
      Keeps-process_messages accepted (swap 0 (λ d. d) [] t.send_deque).1 _
        (closed.on_queue (swap 0 (λ d. d) [] t.send_deque).2 t h)

  keeps-received :
      (got : Option (List (List Byte))) (b : Buffer) (c : Connection) (t : NetThread)
      → P t
      → P (received got b c t).1
  unfolding received
  keeps-received none b c t h = closed.on_del _ client_close _ (closed.on_store _ t h)
  keeps-received (some reqs) b c t h = closed.on_hand _ reqs _ (closed.on_store _ t h)

  keeps-input :
      (is_in : Bool) (reads : List Read) (o : Option Connection) (t : NetThread)
      (r : Option Connection × NetThread)
      → P t
      → input is_in reads o t ≡ some r
      → P r.1
  unfolding input
  keeps-input false reads o t r h e = let same : (o, t) ≡ r = cc in subst (λ x. P x.1) same h
  keeps-input true reads none t r h e = cc
  keeps-input true reads (some c) t r h e =
      let ((got, b), f, g) = >>=-eq-some (recv c.listening reads c.recv_buffer) _ e in
      let u = received got b c t in
      let same : (some u.0, u.1) ≡ r = cc in subst (λ x. P x.1) same (keeps-received got b c t h)

  module _ (writev : List Slice → Written) (max_iov : ℕ) where
    Keeps-output :
        (is_out : Bool) (c : Option Connection) (t : NetThread)
        → P t
        → Keeps P (output writev max_iov is_out c t)
    unfolding output
    Keeps-output false c t h = Keeps-some P t h
    Keeps-output true none t h = λ t' e. cc
    Keeps-output true (some c) t h =
        Keeps-bind P (send writev max_iov c.close_ c.send_slices) _
          (λ r e. Keeps-some P _ (closed.on_store _ t h))

    pub Keeps-process_net :
        (uid : ℕ) (err is_in is_out : Bool) (reads : List Read) (t : NetThread)
        → P t
        → Keeps P (process_net writev max_iov uid err is_in is_out reads t)
    unfolding process_net
    Keeps-process_net uid err is_in is_out reads t h =
        let found : Option Connection = lookup uid t.connection_uids in
        let t₀ : NetThread = record t { connection_uids = touch uid t.connection_uids } in
        let h₀ = closed.on_touch uid t h in
        Keeps-if P err _ _
          (Keeps-bind P found _ (λ c e. Keeps-some P _ (closed.on_del c server_close t₀ h₀)))
          (Keeps-bind P (input is_in reads found t₀) _
            (λ r e. Keeps-output is_out r.0 r.1 (keeps-input is_in reads found t₀ r h₀ e)))
