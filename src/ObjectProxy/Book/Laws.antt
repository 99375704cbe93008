-- ===== src/ObjectProxy/Book/Laws.antt =====
-- What the book's operations do to it, and the client's messages and queue beside it.
use tarsx.Prelude.{
  ℕ, ◌≡◌, ◌≢◌, refl, sym, ap, subst, ◌∙◌, inl, inr, Bool, true, Option, none, some, List, [], ◌∷◌,
  ◌==◌, if◌then◌else◌, arith, Bool-cases, ℕ_discrete,
}
use tarsx.Buffer.{Byte}
use tarsx.TimeoutQueueNew.{TimeoutQueueNew, PtrInfo, find, push, unlink, data_key, erase_by}
use tarsx.TimeoutQueueNew.Inv.{Linked, find-erase_self, find-erase_ne}
use tarsx.Message.{ReqMessage, sync_call, req_exc, update}
use tarsx.ObjectProxy.{Client, generate_id, finish_message, keep}
use tarsx.ObjectProxy.Book.{Book, holder, strike, book_send, book_answer, ptr_of, Agrees}

holder-strike_self : (id : ℕ) (ps : List (ℕ × ℕ)) → holder id (strike id ps) ≡ none
holder-strike_self id [] = refl
holder-strike_self id ((j, m) ∷ ps) = ground (arith, holder-strike_self id ps)

pub holder-strike_ne :
    (id other : ℕ) (ps : List (ℕ × ℕ)) → other ≢ id → holder other (strike id ps) ≡ holder other ps
holder-strike_ne id other [] h = refl
holder-strike_ne id other ((j, m) ∷ ps) h = ground (arith, holder-strike_ne id other ps h)

pub same_strike :
    (id : ℕ) (q : TimeoutQueueNew ℕ) (p : PtrInfo ℕ) (ps : List (ℕ × ℕ))
    → Linked q
    → ((i : ℕ) → ptr_of (find i q.data_) ≡ holder i ps)
    → (i : ℕ) → ptr_of (find i (unlink id p q).data_) ≡ holder i (strike id ps)
unfolding unlink
same_strike id q p ps v h i = elim (ℕ_discrete i id) [
  | yes same ↦
      subst (λ k. ptr_of (find k (erase_by data_key id q.data_)) ≡ holder k (strike id ps))
        (sym same)
        (ap ptr_of (find-erase_self id q.data_ (v.once id)) ∙ sym (holder-strike_self id ps))
  | no other ↦
      ap ptr_of (find-erase_ne id i q.data_ other) ∙ h i ∙ sym (holder-strike_ne id i ps other)
]

pub same_new :
    (id m : ℕ) (has_send : Bool) (xs : List (ℕ × PtrInfo ℕ)) (ps : List (ℕ × ℕ))
    → ((i : ℕ) → ptr_of (find i xs) ≡ holder i ps)
    → (i : ℕ)
    → ptr_of (find i ((id, record { ptr = m; has_send = has_send }) ∷ xs)) ≡ holder i ((id, m) ∷ ps)
unfolding find
same_new id m has_send xs ps h i = elim (Bool-cases (i == id)) [
  | inl same ↦ rw same refl
  | inr other ↦ rw other (h i)
]

pub response-update :
    (m n : ℕ) (f : ReqMessage → ReqMessage) (msgs : ℕ → ReqMessage)
    → ((r : ReqMessage) → (f r).response ≡ r.response)
    → (update m f msgs n).response ≡ (msgs n).response
unfolding update
response-update m n f msgs h = elim (Bool-cases (n == m)) [
  | inl same ↦ rw same (h (msgs n))
  | inr other ↦ rw other
]

pub response_written :
    (m n : ℕ) (response : List Byte) (msgs : ℕ → ReqMessage) (answers : ℕ → List Byte)
    → (msgs n).response ≡ answers n
    → (update m (λ r. record r { response = response }) msgs n).response
      ≡ (if n == m then response else answers n)
unfolding update
response_written m n response msgs answers h = elim (Bool-cases (n == m)) [
  | inl same ↦ rw same
  | inr other ↦ rw other h
]

pub finish_sync :
    (m : ℕ) (c : Client)
    → (c.msgs m).type_ ≡ sync_call
    → finish_message m c
      ≡ some (record c {
        notified = m ∷ c.notified;
        msgs = update m (λ r. record r { monitor_fin = true }) c.msgs;
      })
unfolding finish_message
finish_sync m c e = rw (e, finish_message)

pub holder_of_find :
    (id : ℕ) (c : Client) (b : Book) (o : Option (PtrInfo ℕ))
    → Agrees c b
    → find id c.proxy.queue.data_ ≡ o
    → holder id b.pending ≡ ptr_of o
holder_of_find id c b o a e = sym (a.same id) ∙ ap ptr_of e

pub keep_used :
    (m id deadline : ℕ) (has_send : Bool) (c : Client) (p : PtrInfo ℕ)
    → find id c.proxy.queue.data_ ≡ some p
    → keep m id deadline has_send c
      ≡ finish_message m (record c { msgs = update m (λ r. record r { status = req_exc }) c.msgs })
unfolding keep push
keep_used m id deadline has_send c p e = rw (e, push)

pub book_unknown :
    (id : ℕ) (response : List Byte) (b : Book)
    → holder id b.pending ≡ none
    → book_answer id response b ≡ b
unfolding book_answer
book_unknown id response b e = rw (e, book_answer)

pub book_known :
    (id m : ℕ) (response : List Byte) (b : Book)
    → holder id b.pending ≡ some m
    → book_answer id response b ≡ record b {
      pending = strike id b.pending;
      woken = m ∷ b.woken;
      answers = λ n. if n == m then response else b.answers n;
    }
unfolding book_answer
book_known id m response b e = rw (e, book_answer)

pub book_new :
    (m : ℕ) (b : Book)
    → holder (generate_id b.last) b.pending ≡ none
    → book_send m b
      ≡ record b { last = generate_id b.last; pending = (generate_id b.last, m) ∷ b.pending }
unfolding book_send
book_new m b e = rw (e, book_send)

pub book_taken :
    (m n : ℕ) (b : Book)
    → holder (generate_id b.last) b.pending ≡ some n
    → book_send m b ≡ record b { last = generate_id b.last; woken = m ∷ b.woken }
unfolding book_send
book_taken m n b e = rw (e, book_send)
