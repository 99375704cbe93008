-- ===== src/Calls/Merged.antt =====
-- Two answers that arrive before the client reads.
use tarsx.Prelude.{
  ℕ, ◌+◌, ◌^◌, ◌<◌, ◌≡◌, ◌≢◌, refl, sym, ap, ◌∙◌, Bool, true, some, List, [], ◌∷◌, ◌++◌,
  append_assoc, length, arith, ◌==◌, ==_iff, if◌then◌else◌, ◌>>=◌,
}
use tarsx.Buffer.{Byte, max_buffer_size}
use tarsx.Buffer.Inv.{IsValid, contents}
use tarsx.TimeoutQueueNew.{find}
use tarsx.Transceiver.{Transceiver, do_response}
use tarsx.Transceiver.Received.{in_pieces, arrived, unless_empty, do_response_lem}
use tarsx.ObjectProxy.{Client, before_colon}
use tarsx.ObjectProxy.Valid.{Valid}
use tarsx.ObjectProxy.Answer.{NoColon, before_colon_lem}
use tarsx.ObjectProxy.Book.{Book, holder, book_answer, ptr_of, Agrees}
use tarsx.ObjectProxy.Book.Laws.{holder-strike_ne, book_known}
use tarsx.ObjectProxy.Book.Refines.{Follows-answer}
use tarsx.CommunicatorEpoll.{handle_input_imp}
use tarsx.Calls.Answered.{input_one, some_answer}

-- Where the answers to two calls that wait, under two ids, arrive before the client reads, in
-- whatever pieces, the first caller is woken and gets the bytes of both; the second one is not, and
-- its call waits on, though its answer was read. The client is in order and does as a book says that
-- has both calls, and nothing else is being read.
pub handle_input_imp-do_response :
    (to_string : ℕ → List Byte) (atoi : List Byte → ℕ)
    → ((n : ℕ) → n < 2 ^ 32 → NoColon (to_string n))
    → ((n : ℕ) → n < 2 ^ 32 → atoi (to_string n) ≡ n)
    → (i j m n : ℕ) (body other : List Byte) (pieces : List (Byte × List Byte)) (c : Client)
      (b : Book) (t : Transceiver)
    → Valid to_string atoi c
    → Agrees c b
    → i < 2 ^ 32
    → j ≢ i
    → holder i b.pending ≡ some m
    → holder j b.pending ≡ some n
    → IsValid t.receive_buffer
    → contents t.receive_buffer ≡ []
    → arrived pieces ≡ (to_string i ++ some 58 ∷ body) ++ (to_string j ++ some 58 ∷ other)
    → length (arrived pieces) + 8192 < max_buffer_size
    → (c' : Client) × ((do
      (done, t') ← do_response (in_pieces pieces) t
      handle_input_imp atoi done c)
        ≡ some c')
      × (c'.notified ≡ m ∷ c.notified)
      × ((c'.msgs m).response ≡ (to_string i ++ some 58 ∷ body) ++ (to_string j ++ some 58 ∷ other))
      × (ptr_of (find j c'.proxy.queue.data_) ≡ some n)
handle_input_imp-do_response to_string atoi clean inverse i j m n body other pieces c b t v a small
      apart first second valid empty came short =
    let r = do_response_lem pieces t valid (omega (arith, ap length empty, short)) in
    let (c', e, a') = Follows-answer to_string atoi both c b v.linked a in
    let known = ap (λ k. book_answer k both b) named ∙ book_known i m both b first in
    (
      c',
      rw (r.returned, read_back, input_one atoi both c) e,
      a'.told ∙ ap (λ x. x.woken) known ∙ ap (λ xs. m ∷ xs) (sym a.told),
      a'.answers m ∙ ap (λ x. x.answers m) known ∙ own (m == m) ((==_iff m m).1 refl),
      a'.same j
          ∙ ap (λ x. holder j x.pending) known
          ∙ holder-strike_ne i j b.pending apart
          ∙ second,
    )
  where
    both : List Byte
    both = (to_string i ++ some 58 ∷ body) ++ (to_string j ++ some 58 ∷ other)

    shape : both ≡ to_string i ++ some 58 ∷ (body ++ (to_string j ++ some 58 ∷ other))
    shape = append_assoc (to_string i) (some 58 ∷ body) (to_string j ++ some 58 ∷ other)

    named : atoi (before_colon both) ≡ i
    named =
        ap (λ xs. atoi (before_colon xs)) shape
        ∙ ap atoi (before_colon_lem (to_string i) _ (clean i small))
        ∙ inverse i small

    read_back : unless_empty (contents t.receive_buffer ++ arrived pieces) ≡ both ∷ []
    read_back =
        ap (λ xs. unless_empty (xs ++ arrived pieces)) empty
        ∙ ap unless_empty (came ∙ shape)
        ∙ some_answer (to_string i) (body ++ (to_string j ++ some 58 ∷ other))
        ∙ ap (λ xs. xs ∷ []) (sym shape)

    own : (x : Bool) → x ≡ true → (if x then both else b.answers m) ≡ both
    own x e = rw e refl
