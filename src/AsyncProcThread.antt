-- ===== src/AsyncProcThread.antt =====
-- tarsx/AsyncProcThread.cc: the thread that calls the callbacks of asynchronous requests, and the
-- round robin over such threads of tarsx/CommunicatorEpoll.cc (`pushAsyncThreadQueue`). The waiting for
-- the monitor changes nothing and is left out; `none` is a fault of the ring or a vector's.
pub mod Accounts
pub mod Turn
mod Tests
use tarsx.Prelude.{
  ℕ, suc, Bool, true, false, Option, none, some, List, [], ◌∷◌, ◌==◌, if◌then◌else◌, get_elem?, set,
  ◌>>=◌,
}
use tarsx.LoopQueue.{LoopQueue, init, push_back_only, pop_front}

-- What was done with a message.
pub data Deed : Type 0 where
  called_back printed deleted : ℕ → Deed

-- `deeds` are what has happened to messages, the newest first.
pub record AsyncProcThread : Type 0 where
  pub msg_queue : LoopQueue ℕ
  pub terminate_ : Bool
  pub deeds : List Deed

-- `AsyncProcThread(queueCap)`, over the block that the ring's constructor allocates.
unfoldable pub construct : ℕ → List ℕ → Option AsyncProcThread
construct queue_cap block = do
  q ← init queue_cap block
  some (record { msg_queue = q; terminate_ = false; deeds = [] })

unfoldable pub terminate : AsyncProcThread → AsyncProcThread
terminate t = record t { terminate_ = true }

-- A message that the ring does not take is deleted.
unfoldable pub push_back : ℕ → AsyncProcThread → Option AsyncProcThread
push_back msg t = do
  (flag, q) ← push_back_only t.msg_queue msg
  some (record t { msg_queue = q; deeds = if flag then t.deeds else deleted msg ∷ t.deeds })

-- A round of `run`, where `callback` tells of a message whether it has one.
unfoldable pub run_round : (ℕ → Bool) → AsyncProcThread → Option AsyncProcThread
run_round callback t =
    let round = (do
      (got, q) ← pop_front t.msg_queue
      elim got [
        | none ↦ some (record t { msg_queue = q })
        | some msg ↦ some (record t {
          msg_queue = q;
          deeds = deleted msg ∷ (if callback msg then called_back msg else printed msg) ∷ t.deeds;
        })
      ]) in
    if t.terminate_ then some t else round

-- `asyncThread_`, `asyncSeq_` and `asyncThreadNum_` of a `CommunicatorEpoll`.
pub record AsyncThreads : Type 0 where
  pub threads : List AsyncProcThread
  pub async_seq : ℕ
  pub async_thread_num : ℕ

unfoldable pub push_async_thread_queue : ℕ → AsyncThreads → Option AsyncThreads
push_async_thread_queue msg a = do
  t ← get_elem? a.threads a.async_seq
  t' ← push_back msg t
  some (record a {
    threads = set a.threads a.async_seq t';
    async_seq = if suc a.async_seq == a.async_thread_num then 0 else suc a.async_seq;
  })
