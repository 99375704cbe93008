-- ===== src/ObjectProxy/Book.antt =====
-- The calls that wait, as a caller of `ServantProxy::invoke` sees them: a book by their ids.
pub mod Laws
pub mod Refines
use tarsx.Prelude.{ℕ, ◌≡◌, Option, none, some, List, [], ◌∷◌, ◌==◌, if◌then◌else◌}
use tarsx.Buffer.{Byte}
use tarsx.TimeoutQueueNew.{PtrInfo, find}
use tarsx.Message.{sync_call}
use tarsx.ObjectProxy.{Client, generate_id, before_colon}
use tarsx.ObjectProxy.Valid.{Event, sends, answered}

-- The last id, the calls that wait with their ids, the messages of the callers that were woken, the
-- latest first, and the answers.
pub record Book : Type 0 where
  pub last : ℕ
  pub pending : List (ℕ × ℕ)
  pub woken : List ℕ
  pub answers : ℕ → List Byte

abbrev pub holder : ℕ → List (ℕ × ℕ) → Option ℕ
holder id [] = none
holder id ((j, m) ∷ ps) = if id == j then some m else holder id ps

abbrev pub strike : ℕ → List (ℕ × ℕ) → List (ℕ × ℕ)
strike id [] = []
strike id ((j, m) ∷ ps) = let rest = strike id ps in if id == j then rest else (j, m) ∷ rest

-- A call gets the next id and waits; where that id is taken, the caller is woken at once.
unfoldable pub book_send : ℕ → Book → Book
book_send m b =
    let id = generate_id b.last in
    elim (holder id b.pending) [
      | none ↦ record b { last = id; pending = (id, m) ∷ b.pending }
      | some _ ↦ record b { last = id; woken = m ∷ b.woken }
    ]

-- An answer under an id: the call that waits under it is woken, and waits no longer.
unfoldable pub book_answer : ℕ → List Byte → Book → Book
book_answer id response b = elim (holder id b.pending) [
  | none ↦ b
  | some m ↦ record b {
    pending = strike id b.pending;
    woken = m ∷ b.woken;
    answers = λ n. if n == m then response else b.answers n;
  }
]

unfoldable pub book_events : (List Byte → ℕ) → List Event → Book → Book
book_events atoi [] b = b
book_events atoi (sends accepted m ∷ es) b = book_events atoi es (book_send m b)
book_events atoi (answered response ∷ es) b =
    book_events atoi es (book_answer (atoi (before_colon response)) response b)

abbrev pub ptr_of : Option (PtrInfo ℕ) → Option ℕ
ptr_of none = none
ptr_of (some p) = some p.ptr

-- A client does as its book says; every message is of a caller that waits.
pub record Agrees (c : Client) (b : Book) : Type 0 where
  pub last : c.proxy.id ≡ b.last
  pub same : (id : ℕ) → ptr_of (find id c.proxy.queue.data_) ≡ holder id b.pending
  pub told : c.notified ≡ b.woken
  pub answers : (n : ℕ) → (c.msgs n).response ≡ b.answers n
  pub sync : (n : ℕ) → (c.msgs n).type_ ≡ sync_call

-- A result that agrees with a book.
abbrev pub Follows : Book → Option Client → Type 0
Follows b o = (c : Client) × (o ≡ some c) × Agrees c b
