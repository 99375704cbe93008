-- ===== src/NetThread/Free.antt =====
-- The free ids under `processPipe` and `processNet`.
use tarsx.Prelude.{ℕ, ◌≡◌, refl, ◌∙◌, Bool, Option, some, List, [], ◌∷◌, arith}
use tarsx.Buffer.{Byte}
use tarsx.Connection.{Slice, Read}
use tarsx.Connection.Send.{Written}
use tarsx.BindAdapter.{CloseType}
use tarsx.NetThread.{Connection, SendData, NetThread, store, del_connection}
use tarsx.NetThread.Serve.{hand_on, process_net, process_pipe}
use tarsx.NetThread.Kept.{Closed, Keeps, Keeps-some, Keeps-process_pipe, Keeps-process_net}

-- A result, if there is one, has the free ids `xs`.
abbrev pub Free : List ℕ → Option NetThread → Type 0
Free xs o = Keeps (λ t. t.free_ ≡ xs) o

pub Free-some : (t : NetThread) (xs : List ℕ) → t.free_ ≡ xs → Free xs (some t)
Free-some t xs h = Keeps-some (λ r. r.free_ ≡ xs) t h

free-store : (c : Connection) (t : NetThread) → (store c t).free_ ≡ t.free_
unfolding store
free-store c t = ground arith

free-del_connection :
    (c : Connection) (k : CloseType) (t : NetThread) → (del_connection c k t).free_ ≡ t.free_
unfolding del_connection
free-del_connection c k t = ground arith

free-hand_on :
    (c : Connection) (reqs : List (List Byte)) (t : NetThread) → (hand_on c reqs t).free_ ≡ t.free_
unfolding hand_on
free-hand_on c [] t = refl
free-hand_on c (r ∷ reqs) t = refl

Closed-free : (xs : List ℕ) → Closed (λ t. t.free_ ≡ xs)
Closed-free xs = record {
  on_store = λ c t h. free-store c t ∙ h;
  on_del = λ c k t h. free-del_connection c k t ∙ h;
  on_hand = λ c reqs t h. free-hand_on c reqs t ∙ h;
  on_touch = λ uid t h. h;
  on_queue = λ q t h. h;
}

pub Free-process_pipe :
    (accepted : SendData → Option ℕ) (t : NetThread) → Free t.free_ (process_pipe accepted t)
Free-process_pipe accepted t =
    Keeps-process_pipe (λ r. r.free_ ≡ t.free_) (Closed-free t.free_) accepted t refl

pub Free-process_net :
    (writev : List Slice → Written) (max_iov uid : ℕ) (err is_in is_out : Bool) (reads : List Read)
    (t : NetThread)
    → Free t.free_ (process_net writev max_iov uid err is_in is_out reads t)
Free-process_net writev max_iov uid err is_in is_out reads t =
    Keeps-process_net (λ r. r.free_ ≡ t.free_) (Closed-free t.free_) writev max_iov uid err is_in
      is_out reads t refl
