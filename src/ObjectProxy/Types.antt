-- ===== src/ObjectProxy/Types.antt =====
-- The types of the messages under the sending.
use tarsx.Prelude.{
  ℕ, ◌≡◌, refl, sym, ap, ◌∙◌, inl, inr, Bool, true, false, Option, none, some, List, ◌==◌,
  if◌then◌else◌, Bool-cases, ◌>>=◌, >>=-eq-some,
}
use tarsx.Buffer.{Byte}
use tarsx.Connection.{req_data}
use tarsx.TimeoutQueueNew.{TimeoutQueueNew, push, erase}
use tarsx.Transceiver.{send_request}
use tarsx.Message.{
  ReqMessage, CallType, sync_call, async_call, one_way, thread_exit, req_exc, update,
}
use tarsx.AsyncProcThread.{push_async_thread_queue}
use tarsx.ObjectProxy.{
  Client, generate_id, finish_message, was_sent, send_list_empty, keep, send_req_message,
  before_colon, finish_erased, finish_invoke,
}

-- A result, if there is one, has every message with the type that it has in `msgs`.
abbrev pub Typed : (ℕ → ReqMessage) → Option Client → Type 0
Typed msgs o = (c : Client) → o ≡ some c → (n : ℕ) → (c.msgs n).type_ ≡ (msgs n).type_

Typed-some :
    (msgs : ℕ → ReqMessage) (c : Client)
    → ((n : ℕ) → (c.msgs n).type_ ≡ (msgs n).type_)
    → Typed msgs (some c)
Typed-some msgs c h c' e n = let same : c ≡ c' = cc in ap (λ x. (x.msgs n).type_) (sym same) ∙ h n

Typed-bind :
    {A : Type 0} (msgs : ℕ → ReqMessage) (m : Option A) (k : A → Option Client)
    → ((a : A) → Typed msgs (k a))
    → Typed msgs (m >>= k)
Typed-bind msgs m k h c e = let (a, f, g) = >>=-eq-some m k e in h a c g

Typed-if :
    (msgs : ℕ → ReqMessage) (b : Bool) (o p : Option Client)
    → Typed msgs o
    → Typed msgs p
    → Typed msgs (if b then o else p)
Typed-if msgs true o p h k = h
Typed-if msgs false o p h k = k

pub type-update :
    (m n : ℕ) (f : ReqMessage → ReqMessage) (msgs : ℕ → ReqMessage)
    → ((r : ReqMessage) → (f r).type_ ≡ r.type_)
    → (update m f msgs n).type_ ≡ (msgs n).type_
unfolding update
type-update m n f msgs h = elim (Bool-cases (n == m)) [
  | inl same ↦ rw same (h (msgs n))
  | inr other ↦ rw other
]

Typed-finish : (m : ℕ) (c : Client) → Typed c.msgs (finish_message m c)
unfolding finish_message
Typed-finish m c = finished (c.msgs m).type_ refl
  where
    finished : (y : CallType) → (c.msgs m).type_ ≡ y → Typed c.msgs (finish_message m c)
    finished sync_call e =
        rw (e, finish_message)
          (Typed-some c.msgs _
            (λ n. type-update m n (λ r. record r { monitor_fin = true }) c.msgs (λ r. refl)))
    finished async_call e =
        rw (e, finish_message)
          (Typed-bind c.msgs (push_async_thread_queue m c.async) _
            (λ a. Typed-some c.msgs _ (λ n. refl)))
    finished one_way e = rw (e, finish_message) (Typed-some c.msgs c (λ n. refl))
    finished thread_exit e = rw (e, finish_message) (Typed-some c.msgs c (λ n. refl))

Typed-trans :
    (msgs msgs' : ℕ → ReqMessage) (o : Option Client)
    → ((n : ℕ) → (msgs' n).type_ ≡ (msgs n).type_)
    → Typed msgs' o
    → Typed msgs o
Typed-trans msgs msgs' o h k c e n = k c e n ∙ h n

Typed-keep :
    (m id deadline : ℕ) (has_send : Bool) (c : Client)
    → Typed c.msgs (keep m id deadline has_send c)
unfolding keep
Typed-keep m id deadline has_send c =
    Typed-if c.msgs (push m id deadline has_send c.proxy.queue).0 _ _
      (Typed-some c.msgs _ (λ n. refl))
      (Typed-trans c.msgs (update m (λ r. record r { status = req_exc }) c.msgs) _
        (λ n. type-update m n (λ r. record r { status = req_exc }) c.msgs (λ r. refl))
        (Typed-finish m _))

pub Typed-send :
    (to_string : ℕ → List Byte) (accepted : Option ℕ) (m : ℕ) (c : Client)
    → Typed c.msgs (send_req_message to_string accepted m c)
unfolding send_req_message
Typed-send to_string accepted m c =
    Typed-if c.msgs (send_list_empty c.proxy.queue) _ _
      (Typed-bind c.msgs (send_request bytes accepted c.proxy.send_buffer) _
        (λ r. Typed-trans c.msgs msgs' _ same (Typed-keep m id _ (was_sent r.0) _)))
      (Typed-trans c.msgs msgs' _ same (Typed-keep m id _ false _))
  where
    id : ℕ
    id = generate_id c.proxy.id

    bytes : List Byte
    bytes = req_data to_string id (c.msgs m).request

    msgs' : ℕ → ReqMessage
    msgs' = update m (λ r. record r { request_id = id; req_data = bytes }) c.msgs

    same : (n : ℕ) → (msgs' n).type_ ≡ (c.msgs n).type_
    same n =
        type-update m n (λ r. record r { request_id = id; req_data = bytes }) c.msgs (λ r. refl)

Typed-erased :
    (response : List Byte) (found : Option ℕ) (q : TimeoutQueueNew ℕ) (c : Client)
    → Typed c.msgs (finish_erased response found q c)
unfolding finish_erased
Typed-erased response none q c = Typed-some c.msgs _ (λ n. refl)
Typed-erased response (some m) q c =
    Typed-trans c.msgs (update m (λ r. record r { response = response }) c.msgs) _
      (λ n. type-update m n (λ r. record r { response = response }) c.msgs (λ r. refl))
      (Typed-finish m _)

pub Typed-answer :
    (atoi : List Byte → ℕ) (response : List Byte) (c : Client)
    → Typed c.msgs (finish_invoke atoi response c)
unfolding finish_invoke
Typed-answer atoi response c =
    let found = erase (atoi (before_colon response)) c.proxy.queue in
    Typed-erased response found.0 found.1 c
