-- ===== src/ObjectProxy/Tests.antt =====
-- A client with one thread for callbacks, whose ids are printed in eight letters.
use tarsx.Prelude.{
  ℕ, zero, suc, ◌+◌, ◌*◌, ◌/◌, ◌%◌, ◌<◌, ◌^◌, ◌≡◌, refl, subst, false, Option, none, some, List, [],
  ◌∷◌, ◌++◌, ◌>>=◌, arith, get_elem?,
}
use tarsx.Buffer.{Byte, Buffer, readable_size, empty}
use tarsx.LoopQueue.{LoopQueue, init}
use tarsx.LoopQueue.Refine.{init-Holds}
use tarsx.LoopQueue.Uses.{Ring}
use tarsx.TimeoutQueueNew.{construct, find}
use tarsx.TimeoutQueueNew.Inv.{construct-Linked}
use tarsx.Message.{fresh}
use tarsx.Connection.{htonl, req_data}
use tarsx.AsyncProcThread.{AsyncProcThread, AsyncThreads}
use tarsx.AsyncProcThread.Turn.{InTurn}
use tarsx.ObjectProxy.{Client, generate_id, send_req_message, finish_invoke, do_invoke}
use tarsx.ObjectProxy.Valid.{Event, sends, answered, events, Valid, Stays, events-Stays}
use tarsx.ObjectProxy.Book.{Book, Agrees, book_events}
use tarsx.ObjectProxy.Book.Refines.{events-refines}
use tarsx.ObjectProxy.Answer.{NoColon, Woken, finish_invoke-send_req_message}
use tarsx.ObjectProxy.Unsent.{do_invoke-send_req_message}

abbrev pub digits : ℕ → List Byte
digits n =
    some (n / 268435456 % 16 + 65)
    ∷ some (n / 16777216 % 16 + 65)
    ∷ some (n / 1048576 % 16 + 65)
    ∷ some (n / 65536 % 16 + 65)
    ∷ some (n / 4096 % 16 + 65)
    ∷ some (n / 256 % 16 + 65)
    ∷ some (n / 16 % 16 + 65)
    ∷ some (n % 16 + 65)
    ∷ []

abbrev value_from : ℕ → List Byte → ℕ
value_from n [] = n
value_from n (none ∷ xs) = value_from n xs
value_from n (some x ∷ xs) = value_from (n * 16 + x % 65) xs

abbrev pub value : List Byte → ℕ
value xs = value_from 0 xs

pub value-digits : (n : ℕ) → n < 2 ^ 32 → value (digits n) ≡ n
value-digits n h = omega arith

pub digits-NoColon : (n : ℕ) → n < 2 ^ 32 → NoColon (digits n)
digits-NoColon n h = ground arith

abbrev pub ring : LoopQueue ℕ
ring = record { p = 0 ∷ 0 ∷ 0 ∷ []; capacity = 3; capacity_sub = 2; begin_ = 0; end_ = 0 }

abbrev caller : AsyncProcThread
caller = record { msg_queue = ring; terminate_ = false; deeds = [] }

abbrev one_thread : AsyncThreads
one_thread = record { threads = caller ∷ []; async_seq = 0; async_thread_num = 1 }

pub ring-Ring : Ring 2 ring []
ring-Ring =
    let (v, h, m) = init-Holds 2 (0 ∷ 0 ∷ 0 ∷ []) ring (omega arith) refl (unfold init in refl) in
    record { valid = v; holds = h; room = m }

one_ring :
    (i : ℕ) (t : AsyncProcThread)
    → get_elem? (caller ∷ []) i ≡ some t
    → (n : ℕ) × (ws : List ℕ) × Ring n t.msg_queue ws
one_ring zero t e =
    let same : caller ≡ t = cc in (2, [], subst (λ x. Ring 2 x.msg_queue []) same ring-Ring)
one_ring (suc i) t e = cc

one_thread-InTurn : InTurn one_thread
one_thread-InTurn = record { all = refl; at_one = omega arith; rings = one_ring }

abbrev pub buffer : Buffer
buffer = record { read_pos = 0; write_pos = 0; capacity = 0; mem = []; high_water_percent = 50 }

abbrev pub client : Client
client = record {
  proxy = record { id = 4; connected = false; send_buffer = buffer; queue = construct 0 };
  msgs = λ m. record fresh { request = some 33 ∷ [] };
  notified = [];
  async = one_thread;
}

pub client-Valid : Valid digits value client
client-Valid = record {
  linked = construct-Linked 0;
  buffer = omega arith;
  async = one_thread-InTurn;
  short = λ id m. unfold req_data htonl in omega arith;
}

abbrev story : List Event
story = sends 3 1 ∷ sends 0 2 ∷ answered (some 66 ∷ []) ∷ answered (digits 5) ∷ []

events-Stays_example : Stays digits value (events digits value story client)
events-Stays_example = events-Stays digits value story client client-Valid

finish_invoke-send_req_message_example :
    Woken 1 (digits (generate_id 4) ++ some 58 ∷ some 7 ∷ []) client (do
      c₁ ← send_req_message digits (some 3) 1 client
      finish_invoke value (digits (generate_id 4) ++ some 58 ∷ some 7 ∷ []) c₁)
finish_invoke-send_req_message_example =
    finish_invoke-send_req_message digits value digits-NoColon value-digits 3 1 (some 7 ∷ []) client
      client-Valid refl (unfold construct find in refl)

-- The client with a byte of an earlier request still to be sent.
abbrev partly_sent : Client
partly_sent = record client {
  proxy = record client.proxy {
    send_buffer = record buffer { write_pos = 1; capacity = 1; mem = some 33 ∷ [] };
  };
}

do_invoke-send_req_message_example :
    (c₁ : Client) × (send_req_message digits (some 3) 1 partly_sent ≡ some c₁)
    × (c₁.proxy.queue.send_ ≡ generate_id 4 ∷ [])
    × (find (generate_id 4) c₁.proxy.queue.data_ ≡ some (record { ptr = 1; has_send = false }))
    × (c₁.proxy.send_buffer ≡ partly_sent.proxy.send_buffer)
    × ((answers : List (Option ℕ)) → do_invoke answers c₁ ≡ none)
do_invoke-send_req_message_example =
    do_invoke-send_req_message digits (some 3) 1 partly_sent (unfold construct in refl)
      (unfold empty readable_size in refl) (unfold construct find in refl) (omega arith)

abbrev pub book : Book
book = record { last = 4; pending = []; woken = []; answers = λ m. [] }

pub client-Agrees : Agrees client book
unfolding find construct
client-Agrees = record {
  last = refl;
  same = λ id. refl;
  told = refl;
  answers = λ m. refl;
  sync = λ m. refl;
}

events-refines_example :
    (c' : Client) × (events digits value story client ≡ some c')
    × Valid digits value c'
    × Agrees c' (book_events value story book)
events-refines_example = events-refines digits value story client book client-Valid client-Agrees
