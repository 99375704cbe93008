-- ===== src/Buffer/Queue.antt =====
-- The buffer as a queue of bytes: any sequence of calls, against the plain list of the bytes held.
use tarsx.Prelude.{
  ℕ, ◌+◌, ◌≤◌, ◌<◌, ◌^◌, ◌≡◌, refl, sym, subst, ap, ◌∙◌, Bool, Option, some, List, [], ◌∷◌, arith,
  ◌>>=◌, length, drop,
}
use tarsx.Buffer.{
  Byte, Buffer, readable_size, clear, consume, push_data, pop_data, peek_data, assure_space,
  max_buffer_size,
}
use tarsx.Buffer.Inv.{IsValid, contents, readable_size_lem, copy_out-contents, assure_space_lem}
use tarsx.Buffer.Contents.{
  push_result, pop_result, Returns, push_data_lem, pop_data_lem, consume_lem,
}

-- The calls of a client; `consumes` and `assures` are the calls that can fail an `assert`.
pub data Call : Type 0 where
  pushes : Option (List Byte) → Call
  pops : Bool → ℕ → Call
  peeks clears sizes : Call
  consumes assures : ℕ → Call

pub data Reply : Type 0 where
  number : ℕ → Reply
  bytes : List Byte → Reply
  done : Reply

-- The buffer's own call, and its reply.
unfoldable pub step : Buffer → Call → Option (Reply × Buffer)
step b (pushes source) = do (n, b') ← push_data b source; some (number n, b')
step b (pops is_null n) = do (xs, b') ← pop_data is_null b n; some (bytes xs, b')
step b peeks = do xs ← peek_data b; some (bytes xs, b)
step b clears = some (done, clear b)
step b sizes = some (number (readable_size b), b)
step b (consumes n) = do b' ← consume b n; some (done, b')
step b (assures n) = do b' ← assure_space b n; some (done, b')

-- The same call on the list of bytes.
unfoldable pub queue_step : List Byte → Call → Reply × List Byte
queue_step xs (pushes source) = let (n, ys) = push_result xs source in (number n, ys)
queue_step xs (pops is_null n) = let (out, ys) = pop_result is_null xs n in (bytes out, ys)
queue_step xs peeks = (bytes xs, xs)
queue_step xs clears = (done, [])
queue_step xs sizes = (number (length xs), xs)
queue_step xs (consumes n) = (done, drop n xs)
queue_step xs (assures n) = (done, xs)

-- What the source's callers owe: a block of fewer than `2 ^ 63` bytes, no more consumed than is
-- there, and no room asked for past `MaxBufferSize`.
abbrev pub Allowed : List Byte → Call → Type 0
Allowed xs (pushes source) = (given : List Byte) → source ≡ some given → length given < 2 ^ 63
Allowed xs (consumes n) = n ≤ length xs
Allowed xs (assures n) = length xs + n ≤ max_buffer_size
Allowed xs (pops is_null n) = Unit
Allowed xs peeks = Unit
Allowed xs clears = Unit
Allowed xs sizes = Unit

abbrev pub AllAllowed : List Byte → List Call → Type 0
AllAllowed xs [] = Unit
AllAllowed xs (c ∷ cs) = Allowed xs c × AllAllowed (queue_step xs c).1 cs

unfoldable pub run : Buffer → List Call → Option (List Reply)
run b [] = some []
run b (c ∷ cs) = do (r, b') ← step b c; rs ← run b' cs; some (r ∷ rs)

unfoldable pub queue_run : List Byte → List Call → List Reply
queue_run xs [] = []
queue_run xs (c ∷ cs) = (queue_step xs c).0 ∷ queue_run (queue_step xs c).1 cs

-- An allowed call on a valid buffer returns, with the reply of the list of its bytes; it leaves a
-- valid buffer that holds what the list became.
pub call_refines :
    (b : Buffer) (c : Call)
    → IsValid b
    → Allowed (contents b) c
    → Returns (step b c) (queue_step (contents b) c).0 (queue_step (contents b) c).1
unfolding step queue_step
call_refines b (pushes source) v a =
    let r = push_data_lem b source v a in
    record { after = r.after; returned = rw r.returned; valid = r.valid; holds = r.holds }
call_refines b (pops is_null n) v a =
    let r = pop_data_lem is_null b n v in
    record { after = r.after; returned = rw r.returned; valid = r.valid; holds = r.holds }
call_refines b peeks v a =
    unfold peek_data in
    record { after = b; returned = rw (copy_out-contents b v); valid = v; holds = refl }
call_refines b clears v a =
    unfold clear in
    record {
      after = clear b;
      returned = refl;
      valid = record {
        ordered = omega arith;
        written = omega arith;
        small = v.small;
        block = v.block;
      };
      holds = refl;
    }
call_refines b sizes v a = record {
  after = b;
  returned = rw (readable_size_lem b v);
  valid = v;
  holds = refl;
}
call_refines b (consumes n) v a =
    let r = consume_lem b n v a in
    record { after = r.0; returned = rw r.1; valid = r.2; holds = r.3 }
call_refines b (assures n) v a =
    let r = assure_space_lem b n v a in
    record { after = r.after; returned = rw r.returned; valid = r.valid; holds = r.kept }

-- No sequence of allowed calls tells a valid buffer from the list of the bytes that it holds: every
-- call returns, without a failed `assert` or an access outside the block.
pub run_refines :
    (b : Buffer) (xs : List Byte) (cs : List Call)
    → IsValid b
    → contents b ≡ xs
    → AllAllowed xs cs
    → run b cs ≡ some (queue_run xs cs)
unfolding run queue_run
run_refines b xs [] v e a = refl
run_refines b xs (c ∷ cs) v e a =
    let r = call_refines b c v (subst (λ ys. Allowed ys c) (sym e) a.0) in
    let rest =
      run_refines r.after (queue_step xs c).1 cs r.valid
        (r.holds ∙ ap (λ ys. (queue_step ys c).1) e) a.1 in
    rw (r.returned, run, rest)
      (ap (λ ys. some ((queue_step ys c).0 ∷ queue_run (queue_step xs c).1 cs)) e)
