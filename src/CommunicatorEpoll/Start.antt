-- ===== src/CommunicatorEpoll/Start.antt =====
-- The threads for callbacks of a network thread that was just constructed.
use tarsx.Prelude.{
  ℕ, zero, suc, ◌≡◌, refl, subst, false, some, List, [], ◌∷◌, arith, length, get_elem?,
}
use tarsx.LoopQueue.{LoopQueue, init}
use tarsx.LoopQueue.Refine.{init-Holds}
use tarsx.LoopQueue.Uses.{Ring}
use tarsx.AsyncProcThread
use tarsx.AsyncProcThread.{AsyncProcThread, AsyncThreads}
use tarsx.AsyncProcThread.Turn.{InTurn}
use tarsx.CommunicatorEpoll.{new_threads, construct, entries}

fresh_ring :
    (block : List ℕ)
    → length block ≡ 101
    → (q : LoopQueue ℕ) × (init 100 block ≡ some q) × Ring 100 q []
fresh_ring block h =
    let q : LoopQueue ℕ = record {
      p = block;
      capacity = 101;
      capacity_sub = 100;
      begin_ = 0;
      end_ = 0;
    } in
    let made : init 100 block ≡ some q = unfold init in refl in
    let (v, holds, room) = init-Holds 100 block q (omega arith) h made in
    (q, made, record { valid = v; holds = holds; room = room })

one_ring :
    (t : AsyncProcThread)
    → Ring 100 t.msg_queue []
    → (i : ℕ) (u : AsyncProcThread) → get_elem? (t ∷ []) i ≡ some u
    → (n : ℕ) × (ws : List ℕ) × Ring n u.msg_queue ws
one_ring t r zero u e =
    let same : t ≡ u = cc in (100, [], subst (λ x. Ring 100 x.msg_queue []) same r)
one_ring t r (suc i) u e = cc

-- Over a block for its ring, the constructor makes one thread for callbacks, whose turn it is.
pub construct-InTurn :
    (block : List ℕ)
    → length block ≡ 101
    → (a : AsyncThreads) × (construct block ≡ some (entries 2048, a))
      × InTurn a
      × (a.async_thread_num ≡ 1)
unfolding construct new_threads AsyncProcThread.construct
construct-InTurn block h =
    let (q, e, r) = fresh_ring block h in
    let t : AsyncProcThread = record { msg_queue = q; terminate_ = false; deeds = [] } in
    (
      record { threads = t ∷ []; async_seq = 0; async_thread_num = 1 },
      rw e refl,
      record { all = refl; at_one = omega arith; rings = one_ring t r },
      refl,
    )
