-- ===== src/CommunicatorEpoll/Tests.antt =====
-- A network thread of a client with one entry, where two threads announce their queues.
use tarsx.Prelude.{
  ℕ, suc, ◌≡◌, refl, inl, inr, Bool-cases, Option, List, none, some, [], ◌∷◌, arith, get_elem?,
  ◌>>=◌, true, false, ◌==◌, if◌then◌else◌,
}
use tarsx.LoopQueue.{LoopQueue, size}
use tarsx.LoopQueue.Uses.{Ring}
use tarsx.LoopQueue.Tests.{wrapped, wrapped-Ring}
use tarsx.ObjectProxy.{Client}
use tarsx.ObjectProxy.Valid.{Valid, events}
use tarsx.ObjectProxy.Tests.{digits, value, client, buffer, ring, client-Valid, ring-Ring}
use tarsx.CommunicatorEpoll.{NotifyInfo, CommunicatorEpoll, notify, drain, handle_notify}
use tarsx.CommunicatorEpoll.Run.{NetLoop, of_transceiver, handle, run}
use tarsx.CommunicatorEpoll.Lost.{handle_lost}
use tarsx.Transceiver.{got, gone}
use tarsx.Buffer.Inv.{contents}
use tarsx.CommunicatorEpoll.Inputs.{Report, announced, arrives, Ready, Goes, rounds_of, run_lem}
use tarsx.CommunicatorEpoll.Drain.{sent_in_order, Emptied, drain_lem, handle_notify-notify_lost}

drain_lem_example :
    (c' : Client) × (events digits value (sent_in_order digits value (λ m. m) (7 ∷ 8 ∷ [])) client
      ≡ some c')
    × Emptied digits value
        (λ m. m)
        2
        (drain digits (λ m. some m) (suc (size wrapped)) wrapped client)
        c'
    × Valid digits value c'
drain_lem_example =
    drain_lem digits value (λ m. m) 2 wrapped (7 ∷ 8 ∷ []) client wrapped-Ring
      (λ e. cc, (λ e. cc, tt)) client-Valid

abbrev thread : CommunicatorEpoll
thread = record {
  notify_ = record { valid = false; opened = false; seq = 0; p = none } ∷ [];
  queues = λ a. if a == 7 then some wrapped else some ring;
  client = client;
  deleted = [];
  terminate_ = false;
}

handle_notify-notify_lost_example :
    (e' : CommunicatorEpoll) × ((do
      e₁ ← notify 0 7 thread
      e₂ ← notify 0 8 e₁
      info ← get_elem? e₂.notify_ 0
      handle_notify digits (λ m. some m) info e₂)
      ≡ some e')
    × (e'.queues 7 ≡ some wrapped)
handle_notify-notify_lost_example =
    handle_notify-notify_lost digits value (λ m. m) 2 0 7 8 wrapped ring [] thread (omega arith)
      (omega arith) refl refl ring-Ring tt client-Valid

abbrev at_seven : NotifyInfo
at_seven = record { valid = true; opened = true; seq = 0; p = some 7 }

abbrev loop : NetLoop
loop = record {
  epoll = thread;
  trans = record { valid = true; send_buffer = buffer; receive_buffer = buffer };
}

-- Two waits: a queue is announced, and an answer comes in two pieces with the letter B in it; then the
-- queue is announced again, and nothing comes.
abbrev two_waits : List (List Report)
two_waits =
    (announced at_seven ∷ arrives ((some 65, some 66 ∷ []) ∷ (some 67, []) ∷ []) ∷ [])
    ∷ (announced at_seven ∷ arrives [] ∷ [])
    ∷ []

abbrev waiting : ℕ → Option (LoopQueue ℕ)
waiting a = if a == 7 then some wrapped else none

loop_rings :
    (a : ℕ) (q : LoopQueue ℕ)
    → waiting a ≡ some q
    → (q' : LoopQueue ℕ) × (n : ℕ) × (ms : List ℕ) × (loop.epoll.queues a ≡ some q') × Ring n q' ms
loop_rings a q e = elim (Bool-cases (a == 7)) [
  | inl same ↦ (wrapped, 2, 7 ∷ 8 ∷ [], rw same refl, wrapped-Ring)
  | inr other ↦ let missing : none ≡ some q = rw other at e in cc
]

loop-Ready : Ready digits value waiting loop
loop-Ready = record {
  client = client-Valid;
  talks = λ m e. cc;
  rings = loop_rings;
  buffer = omega arith;
  drained = refl;
  runs = refl;
}

run_lem_example :
    Goes digits value waiting (run digits value (λ m. some m) (rounds_of two_waits) loop)
run_lem_example =
    run_lem digits value waiting (λ m. m) two_waits loop
      (
        ((7, wrapped, refl, refl), (omega arith, tt)),
        (((7, wrapped, refl, refl), (omega arith, tt)), tt),
      )
      loop-Ready

-- The answer to a call comes whole, and the server closes.
handle_lost_example :
    (l' : NetLoop) × (handle digits value
        (λ m. some m)
        (of_transceiver true false (got (some 65) (some 58 ∷ some 66 ∷ []) ∷ gone ∷ []) none [])
        loop
      ≡ some l')
    × (l'.trans.valid ≡ false)
    × (contents l'.trans.receive_buffer ≡ [])
    × (contents l'.epoll.client.proxy.send_buffer ≡ [])
    × (l'.epoll.client.notified ≡ loop.epoll.client.notified)
    × (l'.epoll.client.msgs ≡ loop.epoll.client.msgs)
    × (l'.epoll.client.proxy.queue ≡ loop.epoll.client.proxy.queue)
handle_lost_example =
    handle_lost digits value (λ m. some m) ((some 65, some 58 ∷ some 66 ∷ []) ∷ []) loop refl
      (omega arith) (omega arith)
