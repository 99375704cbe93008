-- ===== src/Transceiver/Sent.antt =====
-- The bytes that were accepted and those still to be sent.
use tarsx.Prelude.{
  ℕ, ◌^◌, ◌≤◌, ◌<◌, ◌≡◌, refl, sym, ap, ◌∙◌, inl, inr, true, false, Option, none, some, List, [],
  arith, length, length-drop, drop_all, nil_of_length, drop, if◌then◌else◌, Bool-cases, ltb, ◌==◌,
  ◌>>=◌,
}
use tarsx.Buffer.{Byte, Buffer, empty, consume, shrink, reset_buffer, clear}
use tarsx.Buffer.Inv.{IsValid, contents, readable_size_lem}
use tarsx.Buffer.Contents.{push_result, push_data_lem, consume_lem}
use tarsx.Transceiver.{ret_error, ret_full, sent_all, send_request, do_request}

abbrev pub given_length : Option (List Byte) → ℕ
given_length none = 0
given_length (some bytes) = length bytes

-- What a call leaves: what is still to be sent is what was, less what `::send` took.
pub record Sends {A : Type 0} (o : Option (A × Buffer)) (xs : List Byte) : Type 0 where
  pub status : A
  pub after : Buffer
  pub returned : o ≡ some (status, after)
  pub valid : IsValid after
  pub left : contents after ≡ xs

pub empty_lem : (b : Buffer) → IsValid b → empty b ≡ (length (contents b) == 0)
unfolding empty
empty_lem b v = ap (λ n. n == 0) (readable_size_lem b v)

-- An empty buffer gives its block back.
pub shrink-empty :
    (b : Buffer)
    → empty b ≡ true
    → shrink b ≡ some (record b { read_pos = 0; write_pos = 0; capacity = 0; mem = [] })
unfolding shrink reset_buffer clear
shrink-empty b e = rw e

pub none_held : (b : Buffer) → IsValid b → empty b ≡ true → contents b ≡ []
none_held b v e = nil_of_length (contents b) (ground (arith, empty_lem b v))

push_empty : (xs : List Byte) → length xs < 2 ^ 31 → (push_result [] (some xs)).1 ≡ xs
unfolding push_result
push_empty xs h = ground arith

-- A send buffer from which some bytes were taken.
drained :
    (n : ℕ) (b : Buffer)
    → IsValid b
    → n ≤ length (contents b)
    → Sends
        (do
          b₁ ← consume b n
          let done = (do b₂ ← shrink b₁; some (true, b₂))
          (if empty b₁ then done else some (false, b₁)))
        (drop n (contents b))
drained n b v h =
    let (b₁, e, w, k) = consume_lem b n v h in
    elim (Bool-cases (empty b₁)) [
      | inl all_sent ↦ record {
        status = true;
        after = record b₁ { read_pos = 0; write_pos = 0; capacity = 0; mem = [] };
        returned = rw (e, all_sent, shrink-empty b₁ all_sent);
        valid = record {
          ordered = omega arith;
          written = omega arith;
          small = omega arith;
          block = refl;
        };
        left = sym (none_held b₁ w all_sent) ∙ k;
      }
      | inr some_left ↦ record {
        status = false;
        after = b₁;
        returned = rw (e, some_left);
        valid = w;
        left = k;
      }
    ]

-- `doRequest` on a valid send buffer, where `::send` does not fail and takes no more than it is given:
-- it returns, and the bytes still to be sent are those that were, without the ones that were
-- taken from their front.
do_request_lem :
    (n : ℕ) (b : Buffer)
    → IsValid b
    → n ≤ length (contents b)
    → Sends (do_request (some n) b) (drop n (contents b))
unfolding do_request
do_request_lem n b v h = elim (Bool-cases (empty b)) [
  | inl nothing ↦ record {
    status = true;
    after = b;
    returned = rw nothing;
    valid = v;
    left = rw (none_held b v nothing) (sym (drop_all n [] (omega arith)));
  }
  | inr some_held ↦ elim (Bool-cases (n == 0)) [
    | inl zero_sent ↦ record {
      status = true;
      after = b;
      returned = rw (some_held, zero_sent);
      valid = v;
      left = ap (λ k. drop k (contents b)) {x = 0} {y = n} (ground arith);
    }
    | inr more ↦
        let g = drained n b v h in
        record {
          status = g.status;
          after = g.after;
          returned = rw (some_held, more) g.returned;
          valid = g.valid;
          left = g.left;
        }
  ]
]

-- `sendRequest` of fewer than `2 ^ 31` bytes over a valid send buffer, where `::send` does not fail:
-- it returns. It refuses the bytes, and the send buffer is as it was, where bytes are waiting there;
-- otherwise the send buffer holds exactly the bytes that `::send` did not take.
pub send_request_lem :
    (bytes : List Byte) (n : ℕ) (b : Buffer)
    → IsValid b
    → length bytes < 2 ^ 31
    → Sends (send_request bytes (some n) b) (if empty b then drop n bytes else contents b)
unfolding send_request
send_request_lem bytes n b v h = elim (Bool-cases (empty b)) [
  | inl nothing ↦ elim (Bool-cases (ltb n (length bytes))) [
    | inl partly ↦
        let p =
          push_data_lem b (some (drop n bytes)) v
            (λ given e. omega (arith, h, ap given_length e, length-drop n bytes)) in
        record {
          status = ret_full;
          after = p.after;
          returned = rw (nothing, partly, p.returned);
          valid = p.valid;
          left =
              p.holds
              ∙ ap (λ ys. (push_result ys (some (drop n bytes))).1) (none_held b v nothing)
              ∙ push_empty (drop n bytes) (omega (arith, h, length-drop n bytes))
              ∙ ap (λ e. if e then drop n bytes else contents b) (sym nothing);
        }
    | inr whole ↦ record {
      status = sent_all n;
      after = b;
      returned = rw (nothing, whole);
      valid = v;
      left =
          none_held b v nothing
          ∙ sym (drop_all n bytes (ground arith))
          ∙ ap (λ e. if e then drop n bytes else contents b) (sym nothing);
    }
  ]
  | inr waiting ↦ record {
    status = ret_error;
    after = b;
    returned = rw waiting;
    valid = v;
    left = rw waiting;
  }
]

-- Where bytes are waiting, `::send` is not called.
pub send_request-waiting :
    (bytes : List Byte) (accepted : Option ℕ) (b : Buffer)
    → empty b ≡ false
    → send_request bytes accepted b ≡ some (ret_error, b)
unfolding send_request
send_request-waiting bytes accepted b e = rw e
