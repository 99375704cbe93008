-- ===== src/TimeoutQueueNew/Laws.antt =====
-- What `push`, `get` and `getSend` give back.
use tarsx.Prelude.{
  ℕ, ◌≡◌, refl, sym, ap, inl, inr, ◌∙◌, Bool, true, false, none, some, List, [], ◌∷◌, arith,
  if◌then◌else◌,
}
use tarsx.Prelude.Multimap.{insert}
use tarsx.TimeoutQueueNew.{
  erase_by, PtrInfo, find, TimeoutQueueNew, data_key, time_key, send_key, push, unlink, get, erase,
  get_send,
}
use tarsx.TimeoutQueueNew.Inv.{count_by, Linked, count-find-none, cases}

erase-insert :
    (t id : ℕ) (xs : List (ℕ × ℕ))
    → count_by time_key id xs ≡ 0
    → erase_by time_key id (insert t id xs) ≡ xs
unfolding erase_by insert
erase-insert t id [] h = ground arith
erase-insert t id ((j, w) ∷ xs) h = ground (arith, erase-insert t id xs)

module _ {T : Type 0} where
  pub push_new :
      (t : T) (id timeout : ℕ) (has_send : Bool) (q : TimeoutQueueNew T)
      → find id q.data_ ≡ none
      → push t id timeout has_send q ≡ (
        true,
        record q {
          data_ = (id, record { ptr = t; has_send = has_send }) ∷ q.data_;
          time_ = insert timeout id q.time_;
          send_ = if has_send then q.send_ else id ∷ q.send_;
        },
      )
  unfolding push
  push_new t id timeout has_send q e = rw (push, e)

  pub find_head :
      (id : ℕ) (p : PtrInfo T) (xs : List (ℕ × PtrInfo T)) → find id ((id, p) ∷ xs) ≡ some p
  unfolding find
  find_head id p xs = ground arith

  get_found :
      (id : ℕ) (p : PtrInfo T) (q : TimeoutQueueNew T)
      → find id q.data_ ≡ some p
      → get id true q ≡ (some p.ptr, unlink id p q)
  unfolding get
  get_found id p q e = rw (get, e)

  get_erases : (id : ℕ) (q : TimeoutQueueNew T) → get id true q ≡ erase id q
  unfolding get erase
  get_erases id q = elim (cases (find id q.data_)) [
    | inl e ↦ rw (e, get, erase)
    | inr (p, e) ↦ rw (e, get, erase)
  ]

  pub erase_found :
      (id : ℕ) (p : PtrInfo T) (q : TimeoutQueueNew T)
      → find id q.data_ ≡ some p
      → erase id q ≡ (some p.ptr, unlink id p q)
  unfolding erase
  erase_found id p q e = rw (erase, e)

  pub erase_unknown :
      (id : ℕ) (q : TimeoutQueueNew T) → find id q.data_ ≡ none → erase id q ≡ (none, q)
  unfolding erase
  erase_unknown id q e = rw (erase, e)

  unlink_new :
      (t : T) (id timeout : ℕ) (has_send : Bool) (q : TimeoutQueueNew T)
      → count_by time_key id q.time_ ≡ 0
      → unlink id
          (record { ptr = t; has_send = has_send })
          (record q {
            data_ = (id, record { ptr = t; has_send = has_send }) ∷ q.data_;
            time_ = insert timeout id q.time_;
            send_ = if has_send then q.send_ else id ∷ q.send_;
          })
        ≡ q
  unfolding unlink
  unlink_new t id timeout has_send q h =
      rw (erase-insert timeout id q.time_ h, taken_back, sent has_send q.send_)
    where
      taken_back :
          erase_by data_key id ((id, record { ptr = t; has_send = has_send }) ∷ q.data_) ≡ q.data_
      taken_back = unfold erase_by in ground arith

      sent :
          (b : Bool) (xs : List ℕ)
          → (if b
              then (if b then xs else id ∷ xs)
              else erase_by send_key id (if b then xs else id ∷ xs))
            ≡ xs
      sent true xs = refl
      sent false xs = unfold erase_by in ground arith

  -- A request pushed under an id that is not in use is what `get` of that id then returns, and with
  -- it the queue is as it was before, in all three containers.
  get-push :
      (t : T) (id timeout : ℕ) (has_send : Bool) (q : TimeoutQueueNew T)
      → Linked q
      → find id q.data_ ≡ none
      → get id true (push t id timeout has_send q).1 ≡ (some t, q)
  get-push t id timeout has_send q v e = rw (push_new t id timeout has_send q e) (
      get_found id (record { ptr = t; has_send = has_send })
        (record q {
          data_ = (id, record { ptr = t; has_send = has_send }) ∷ q.data_;
          time_ = insert timeout id q.time_;
          send_ = if has_send then q.send_ else id ∷ q.send_;
        })
        (find_head id _ q.data_)
      ∙ ap (λ r. (some t, r))
          (unlink_new t id timeout has_send q (v.timed id ∙ count-find-none id q.data_ e)))

  -- `erase` undoes a `push` alike.
  pub erase-push :
      (t : T) (id timeout : ℕ) (has_send : Bool) (q : TimeoutQueueNew T)
      → Linked q
      → find id q.data_ ≡ none
      → erase id (push t id timeout has_send q).1 ≡ (some t, q)
  erase-push t id timeout has_send q v e =
      sym (get_erases id (push t id timeout has_send q).1) ∙ get-push t id timeout has_send q v e

  -- `getSend` fails its `assert` where the only request to be sent has a pointer that is not null.
  pub get_send-push :
      (is_null : T → Bool) (t : T) (id timeout : ℕ) (q : TimeoutQueueNew T)
      → q.send_ ≡ []
      → find id q.data_ ≡ none
      → is_null t ≡ false
      → get_send is_null (push t id timeout false q).1 ≡ none
  unfolding get_send
  get_send-push is_null t id timeout q e f h = rw (
    push_new t id timeout false q f,
    e,
    find_head id (record { ptr = t; has_send = false }) q.data_,
    h,
  )
