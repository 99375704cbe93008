-- ===== src/Connection/Frames.antt =====
-- One run of the framing loop over the encoded requests of a peer.
use tarsx.Prelude.{
  ℕ, zero, suc, ◌+◌, ◌-◌, ◌^◌, ◌≤◌, ◌<◌, ◌≡◌, refl, sym, ap, ◌∙◌, inl, inr, true, false, Option,
  none, some, List, [], ◌∷◌, ◌++◌, arith, leb, Bool-cases, dec_lt, add64, length, take, drop,
  length-append, length-drop, take-append, drop-append, take-take,
}
use tarsx.Buffer.{Byte, Buffer, readable_size, copy_out}
use tarsx.Buffer.Inv.{IsValid, contents, length-contents, readable_size_lem}
use tarsx.Buffer.Contents.{consume_lem, copy_out_lem}
use tarsx.Connection.{htonl, ntohl, sign_extend, take_request, next_request, frame_loop}

-- The frame of a request of `length xs` bytes.
unfoldable pub frame : List Byte → List Byte
frame xs = htonl (length xs) ++ some 58 ∷ xs

-- The frames of several requests, one behind the other.
abbrev pub stream : List (List Byte) → List Byte
stream [] = []
stream (m ∷ ms) = frame m ++ stream ms

-- No request longer than an `int32_t` counts.
abbrev pub AllShort : List (List Byte) → Type 0
AllShort [] = Unit
AllShort (m ∷ ms) = (length m < 2 ^ 31) × AllShort ms

pub ntohl-htonl : (n : ℕ) → n < 2 ^ 32 → ntohl (htonl n) ≡ some n
unfolding ntohl htonl
ntohl-htonl n h = ap some (omega arith)

pub length-frame : (xs : List Byte) → length (frame xs) ≡ length xs + 5
unfolding frame htonl
length-frame xs = omega arith

sign_extend_lem : (n : ℕ) → n < 2 ^ 31 → sign_extend n ≡ n
unfolding sign_extend
sign_extend_lem n h = ground arith

-- The front of a list that is long enough does not depend on what follows.
take-front : {A : Type 0} (n : ℕ) (xs ys : List A) → n ≤ length xs → take n (xs ++ ys) ≡ take n xs
take-front zero xs ys h = refl
take-front (suc n) [] ys h = absurd (omega arith)
take-front (suc n) (x ∷ xs) ys h = ap (λ zs. x ∷ zs) (take-front n xs ys (omega arith))

drop-front :
    {A : Type 0} (n : ℕ) (xs ys : List A) → n ≤ length xs → drop n (xs ++ ys) ≡ drop n xs ++ ys
drop-front zero xs ys h = refl
drop-front (suc n) [] ys h = absurd (omega arith)
drop-front (suc n) (x ∷ xs) ys h = drop-front n xs ys (omega arith)

-- Bytes that begin a stream with a request `m`.
module _ (m : List Byte) (rest bytes future : List Byte)
    (e : bytes ++ future ≡ frame m ++ rest) where
  pub head_lem : 4 ≤ length bytes → take 4 bytes ≡ htonl (length m)
  unfolding frame htonl
  head_lem h = sym (take-front 4 bytes future h) ∙ ap (take 4) e

  pub body_lem : length m + 5 ≤ length bytes → take (length m) (drop 5 bytes) ≡ m
  unfolding frame htonl
  body_lem h =
      sym (take-front (length m) (drop 5 bytes) future (omega (arith, length-drop 5 bytes)))
      ∙ ap (take (length m)) (sym (drop-front 5 bytes future (omega arith)) ∙ ap (drop 5) e)
      ∙ take-append (length m) m rest refl

  pub after_lem : length m + 5 ≤ length bytes → drop (length m) (drop 5 bytes) ++ future ≡ rest
  unfolding frame htonl
  after_lem h =
      sym (drop-front (length m) (drop 5 bytes) future (omega (arith, length-drop 5 bytes)))
      ∙ ap (drop (length m)) (sym (drop-front 5 bytes future (omega arith)) ∙ ap (drop 5) e)
      ∙ drop-append (length m) m rest refl

-- A round on a valid buffer whose bytes begin the frames of `m ∷ ms`: it waits, or takes `m`.
record Round (m : List Byte) (ms : List (List Byte)) (b : Buffer) (future : List Byte)
    : Type 0 where
  after : Buffer
  returned : next_request b ≡ some (some m, after)
  valid : IsValid after
  left : contents after ++ future ≡ stream ms
  less : length (contents after) < length (contents b)

pub copy_front :
    (b : Buffer) (n : ℕ)
    → IsValid b
    → n ≤ length (contents b)
    → copy_out b.mem b.read_pos n ≡ some (take n (contents b))
copy_front b n v h =
    rw
      (take-take n (b.write_pos - b.read_pos) (drop b.read_pos b.mem)
        (omega (arith, length-contents b v)))
      (copy_out_lem b.mem b.read_pos n (omega (arith, length-contents b v, v.block)))

-- What a round reads of a frame's header.
module _ (m : List Byte) (ms : List (List Byte)) (b : Buffer) (future : List Byte) (v : IsValid b)
    (e : contents b ++ future ≡ stream (m ∷ ms)) (short : length m < 2 ^ 31)
    (head : 4 ≤ length (contents b)) where
  enough : leb 4 (readable_size b) ≡ true
  enough = ground (arith, readable_size_lem b v)

  copied : copy_out b.mem b.read_pos 4 ≡ some (htonl (length m))
  copied = copy_front b 4 v head ∙ ap some (head_lem m (stream ms) (contents b) future e head)

  sum : add64 (sign_extend (length m)) 5 ≡ length m + 5
  sum = rw (sign_extend_lem (length m) short) (omega (arith, short))

wait :
    (m : List Byte) (ms : List (List Byte)) (b : Buffer) (future : List Byte)
    → IsValid b
    → contents b ++ future ≡ stream (m ∷ ms)
    → length m < 2 ^ 31
    → length (contents b) < length m + 5
    → next_request b ≡ some (none, b)
unfolding next_request
wait m ms b future v e short part = elim (Bool-cases (leb 4 (readable_size b))) [
  | inl head ↦
      let h : 4 ≤ length (contents b) = ground (arith, readable_size_lem b v) in
      rw (
        head,
        copied m ms b future v e short h,
        ntohl-htonl (length m) (omega arith),
        sum m ms b future v e short h,
        readable_size_lem b v,
        over (length m + 5) (length (contents b)) part,
      )
  | inr few ↦ rw few
]
  where
    over : (m n : ℕ) → n < m → leb m n ≡ false
    over m n h = ground arith

take_request_lem :
    (n : ℕ) (b : Buffer)
    → IsValid b
    → n + 5 ≤ length (contents b)
    → (after : Buffer) × (take_request n b ≡ some (take n (drop 5 (contents b)), after))
      × IsValid after
      × (contents after ≡ drop n (drop 5 (contents b)))
unfolding take_request
take_request_lem n b v h =
    let (b₁, e₁, v₁, c₁) = consume_lem b 5 v (omega arith) in
    let l : length (contents b₁) ≡ length (contents b) - 5 =
      ap length c₁ ∙ length-drop 5 (contents b) in
    let (b₂, e₂, v₂, c₂) = consume_lem b₁ n v₁ (omega arith) in
    (b₂, rw (e₁, copy_front b₁ n v₁ (omega arith), e₂, c₁), v₂, c₂ ∙ ap (drop n) c₁)

round :
    (m : List Byte) (ms : List (List Byte)) (b : Buffer) (future : List Byte)
    → IsValid b
    → contents b ++ future ≡ stream (m ∷ ms)
    → length m < 2 ^ 31
    → length m + 5 ≤ length (contents b)
    → Round m ms b future
unfolding next_request
round m ms b future v e short whole =
    let (b', r, v', c) = take_request_lem (length m) b v whole in
    record {
      after = b';
      returned = rw (
        enough m ms b future v e short head,
        copied m ms b future v e short head,
        ntohl-htonl (length m) (omega arith),
        sum m ms b future v e short head,
        readable_size_lem b v,
        fits (length m + 5) (length (contents b)) whole,
        sign_extend_lem (length m) short,
        r,
        body_lem m (stream ms) (contents b) future e whole,
      );
      valid = v';
      left = rw c (after_lem m (stream ms) (contents b) future e whole);
      less = omega (
        arith,
        ap length c,
        length-drop (length m) (drop 5 (contents b)),
        length-drop 5 (contents b),
      );
    }
  where
    head : 4 ≤ length (contents b)
    head = omega arith

    fits : (m n : ℕ) → m ≤ n → leb m n ≡ true
    fits m n h = ground arith

nothing : (b : Buffer) → IsValid b → length (contents b) ≡ 0 → next_request b ≡ some (none, b)
unfolding next_request
nothing b v h = rw (readable_size_lem b v, h)

-- The next request, if there is one, has more bytes in its frame than these.
abbrev pub Waits : List (List Byte) → ℕ → Type 0
Waits [] n = Unit
Waits (m ∷ ms) n = n < length m + 5

-- What a run of the loop leaves of the frames of `ms`: it gave out the first `done` of them, and the
-- next one is not whole.
pub record Framed (ms : List (List Byte)) (future : List Byte)
    (o : Option (List (List Byte) × Buffer)) : Type 0 where
  pub done : List (List Byte)
  pub rest : List (List Byte)
  pub after : Buffer
  pub returned : o ≡ some (done, after)
  pub valid : IsValid after
  pub split : ms ≡ done ++ rest
  pub left : contents after ++ future ≡ stream rest
  pub partial : Waits rest (length (contents after))

-- Where a valid buffer's bytes, and those still to come, are the frames of requests that an
-- `int32_t` can count, the loop ends before the fuel does, gives out exactly the requests that are
-- whole, in order, and keeps the bytes of the next one.
pub frame_loop_lem :
    (fuel : ℕ) (ms : List (List Byte)) (b : Buffer) (future : List Byte)
    → IsValid b
    → length (contents b) < fuel
    → AllShort ms
    → contents b ++ future ≡ stream ms
    → Framed ms future (frame_loop fuel b)
unfolding frame_loop
frame_loop_lem zero ms b future v f short e = absurd (omega arith)
frame_loop_lem (suc fuel) [] b future v f short e = record {
  done = [];
  rest = [];
  after = b;
  returned = rw (nothing b v (ground (arith, ap length e, length-append (contents b) future)));
  valid = v;
  split = refl;
  left = e;
  partial = tt;
}
frame_loop_lem (suc fuel) (m ∷ ms) b future v f short e =
    elim (dec_lt (length (contents b)) (length m + 5)) [
      | yes part ↦ record {
        done = [];
        rest = m ∷ ms;
        after = b;
        returned = rw (wait m ms b future v e short.0 part);
        valid = v;
        split = refl;
        left = e;
        partial = part;
      }
      | no whole ↦
          let r = round m ms b future v e short.0 (omega arith) in
          let g =
            frame_loop_lem fuel ms r.after future r.valid (omega (arith, r.less)) short.1 r.left in
          record {
            done = m ∷ g.done;
            rest = g.rest;
            after = g.after;
            returned = rw (r.returned, g.returned);
            valid = g.valid;
            split = ap (λ xs. m ∷ xs) g.split;
            left = g.left;
            partial = g.partial;
          }
    ]
