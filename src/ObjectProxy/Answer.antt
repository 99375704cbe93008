-- ===== src/ObjectProxy/Answer.antt =====
-- The way of an answer to the caller that waits for it.
use tarsx.Prelude.{
  ℕ, ◌+◌, ◌^◌, ◌<◌, ◌≡◌, ◌≢◌, refl, ap, ◌∙◌, inl, inr, Bool, true, false, Option, none, some, List,
  [], ◌∷◌, ◌++◌, arith, ◌==◌, ==_iff, Bool-cases, ◌>>=◌,
}
use tarsx.Buffer.{Byte, Buffer}
use tarsx.Connection.{req_data}
use tarsx.TimeoutQueueNew.{find, push}
use tarsx.TimeoutQueueNew.Inv.{Linked}
use tarsx.TimeoutQueueNew.Laws.{erase-push, push_new}
use tarsx.Transceiver.Sent.{send_request_lem}
use tarsx.Message.{ReqMessage, sync_call, update}
use tarsx.ObjectProxy.{
  Client, generate_id, set_queue, finish_message, before_colon, finish_erased, finish_invoke,
  was_sent, send_list_empty, keep, send_req_message,
}
use tarsx.ObjectProxy.Valid.{Valid}

-- Digits, or anything else that has no colon and no indeterminate byte.
abbrev pub NoColon : List Byte → Type 0
NoColon [] = Unit
NoColon (none ∷ xs) = NoColon xs
NoColon (some x ∷ xs) = (x ≢ 58) × NoColon xs

pub before_colon_lem : (xs body : List Byte) → NoColon xs → before_colon (xs ++ some 58 ∷ body) ≡ xs
unfolding before_colon
before_colon_lem [] body h = refl
before_colon_lem (none ∷ xs) body h = ap (λ ys. none ∷ ys) (before_colon_lem xs body h)
before_colon_lem (some x ∷ xs) body h = ground (arith, before_colon_lem xs body h.1)

update_self :
    (m : ℕ) (f : ReqMessage → ReqMessage) (msgs : ℕ → ReqMessage) → update m f msgs m ≡ f (msgs m)
unfolding update
update_self m f msgs = rw ((==_iff m m).1 refl)

update_other :
    (m n : ℕ) (f : ReqMessage → ReqMessage) (msgs : ℕ → ReqMessage)
    → n ≢ m
    → update m f msgs n ≡ msgs n
unfolding update
update_other m n f msgs h = elim (Bool-cases (n == m)) [
  | inl same ↦ absurd (h ((==_iff n m).0 same))
  | inr other ↦ rw other
]

-- The caller of `m` has its answer: it was notified and its message holds the response; of the
-- messages no other one changed, and the requests that wait are those of `before`.
pub record Woken (m : ℕ) (response : List Byte) (before : Client) (o : Option Client) : Type 0 where
  pub after : Client
  pub returned : o ≡ some after
  pub told : after.notified ≡ m ∷ before.notified
  pub fin : (after.msgs m).monitor_fin ≡ true
  pub answer : (after.msgs m).response ≡ response
  pub waiting : after.proxy.queue ≡ before.proxy.queue
  pub others : (n : ℕ) → n ≢ m → after.msgs n ≡ before.msgs n

pub keep_new :
    (m id deadline : ℕ) (has_send : Bool) (c : Client)
    → find id c.proxy.queue.data_ ≡ none
    → keep m id deadline has_send c
      ≡ some (set_queue (push m id deadline has_send c.proxy.queue).1 c)
unfolding keep
keep_new m id deadline has_send c e = rw (push_new m id deadline has_send c.proxy.queue e) refl

module _ (atoi : List Byte → ℕ) (m id deadline : ℕ) (response : List Byte) (c : Client)
    (linked : Linked c.proxy.queue) (new : find id c.proxy.queue.data_ ≡ none)
    (sync : (c.msgs m).type_ ≡ sync_call) (named : atoi (before_colon response) ≡ id) where
  answered : ℕ → ReqMessage
  answered = update m (λ r. record r { response = response }) c.msgs

  finish_pushed :
      (has_send : Bool)
      → finish_invoke atoi response (set_queue (push m id deadline has_send c.proxy.queue).1 c)
        ≡ finish_message m (record c { msgs = answered })
  unfolding finish_invoke finish_erased answered
  finish_pushed has_send =
      rw (named, erase-push m id deadline has_send c.proxy.queue linked new) refl

  finish_sync :
      finish_message m (record c { msgs = answered })
      ≡ some (record c {
        notified = m ∷ c.notified;
        msgs = update m (λ r. record r { monitor_fin = true }) answered;
      })
  unfolding finish_message answered
  finish_sync = rw (
    ap (λ r. r.type_) (update_self m (λ r. record r { response = response }) c.msgs),
    sync,
    finish_message,
  )

  Woken-keep :
      (has_send : Bool)
      → Woken m response c (do c₁ ← keep m id deadline has_send c; finish_invoke atoi response c₁)
  unfolding answered
  Woken-keep has_send = record {
    after = record c {
      notified = m ∷ c.notified;
      msgs = update m (λ r. record r { monitor_fin = true }) answered;
    };
    returned = rw (keep_new m id deadline has_send c new) (finish_pushed has_send ∙ finish_sync);
    told = refl;
    fin = ap (λ r. r.monitor_fin) (update_self m (λ r. record r { monitor_fin = true }) answered);
    answer =
        ap (λ r. r.response) (update_self m (λ r. record r { monitor_fin = true }) answered)
        ∙ ap (λ r. r.response) (update_self m (λ r. record r { response = response }) c.msgs);
    waiting = refl;
    others = λ n h.
        update_other m n (λ r. record r { monitor_fin = true }) answered h
        ∙ update_other m n (λ r. record r { response = response }) c.msgs h;
  }

pub generate_id_small : (id : ℕ) → generate_id id < 2 ^ 32
unfolding generate_id
generate_id_small id = ground arith

-- A client in order sends the request of a caller that waits, under an id that is not in use. However
-- much of it `::send` accepts, as long as it does not fail, nothing faults, and a response that begins
-- with that id and a colon is then written to the caller's message and wakes the caller; no other
-- message changes, and the requests that wait are those that waited before.
pub finish_invoke-send_req_message :
    (to_string : ℕ → List Byte) (atoi : List Byte → ℕ)
    → ((n : ℕ) → n < 2 ^ 32 → NoColon (to_string n))
    → ((n : ℕ) → n < 2 ^ 32 → atoi (to_string n) ≡ n)
    → (accepted m : ℕ) (body : List Byte) (c : Client) → Valid to_string atoi c
    → (c.msgs m).type_ ≡ sync_call
    → find (generate_id c.proxy.id) c.proxy.queue.data_ ≡ none
    → Woken m (to_string (generate_id c.proxy.id) ++ some 58 ∷ body) c (do
      c₁ ← send_req_message to_string (some accepted) m c
      finish_invoke atoi (to_string (generate_id c.proxy.id) ++ some 58 ∷ body) c₁)
unfolding send_req_message
finish_invoke-send_req_message to_string atoi clean inverse accepted m body c v sync new =
    elim (Bool-cases (send_list_empty c.proxy.queue)) [
      | inl nothing ↦
          let s = send_request_lem bytes accepted c.proxy.send_buffer v.buffer (v.short id m) in
          before s.after (was_sent s.status) (rw (nothing, s.returned) refl)
      | inr waiting ↦ before c.proxy.send_buffer false (rw waiting refl)
    ]
  where
    id : ℕ
    id = generate_id c.proxy.id

    bytes : List Byte
    bytes = req_data to_string id (c.msgs m).request

    after : Buffer → Client
    after b = record c {
      proxy = record c.proxy { id = id; connected = true; send_buffer = b };
      msgs = update m (λ r. record r { request_id = id; req_data = bytes }) c.msgs;
    }

    woken :
        (b : Buffer) (has_send : Bool)
        → Woken m (to_string id ++ some 58 ∷ body) (after b) (do
          c₁ ← keep m id (1000 + (c.msgs m).begin_time) has_send (after b)
          finish_invoke atoi (to_string id ++ some 58 ∷ body) c₁)
    woken b has_send =
        Woken-keep atoi m id _ (to_string id ++ some 58 ∷ body) (after b) v.linked new
          (ap (λ r. r.type_)
              (update_self m (λ r. record r { request_id = id; req_data = bytes }) c.msgs)
            ∙ sync)
          (ap atoi (before_colon_lem (to_string id) body (clean id (generate_id_small c.proxy.id)))
            ∙ inverse id (generate_id_small c.proxy.id))
          has_send

    before :
        (b : Buffer) (has_send : Bool)
        → send_req_message to_string (some accepted) m c
          ≡ keep m id (1000 + (c.msgs m).begin_time) has_send (after b)
        → Woken m (to_string id ++ some 58 ∷ body) c (do
          c₁ ← send_req_message to_string (some accepted) m c
          finish_invoke atoi (to_string id ++ some 58 ∷ body) c₁)
    before b has_send e =
        let w = woken b has_send in
        record {
          after = w.after;
          returned =
              ap (λ o. do c₁ ← o; finish_invoke atoi (to_string id ++ some 58 ∷ body) c₁) e
              ∙ w.returned;
          told = w.told;
          fin = w.fin;
          answer = w.answer;
          waiting = w.waiting;
          others = λ n h.
              w.others n h
              ∙ update_other m n (λ r. record r { request_id = id; req_data = bytes }) c.msgs h;
        }
