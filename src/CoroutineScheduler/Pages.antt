-- ===== src/CoroutineScheduler/Pages.antt =====
-- The pages of a stack.
use tarsx.Prelude.{
  ℕ, suc, ◌+◌, ◌*◌, ◌-◌, ◌%◌, ◌^◌, ◌≤◌, ◌<◌, ◌≡◌, refl, ap, ◌∙◌, Bool, true, false, Option, none,
  some, ltb, leb, arith, if◌then◌else◌, mul64, add64, ◌==◌, not, ◌>>◌, guard,
}
use native.Mathlib.Nat.{mul-le-mul_left}
use tarsx.CoroutineScheduler.Stack.{
  nearest, float_loop, to_float, page_count, minimum_stacksize, within_limit, StackContext,
  allocate, deallocate,
}

nearest_one : (n : ℕ) → nearest 1 n ≡ n
unfolding nearest
nearest_one n = rw whole (omega arith)
  where
    whole : ltb (2 * (n % 1)) 1 ≡ true
    whole = ground arith

float_loop_first :
    (fuel u n : ℕ) → ltb n (2 ^ 24 * u) ≡ true → float_loop (suc fuel) u n ≡ nearest u n
unfolding float_loop
float_loop_first fuel u n h = rw h

guarded : {A : Type 0} (b : Bool) (x : A) → (do guard b; some x) ≡ (if b then some x else none)
guarded true x = refl
guarded false x = refl

to_float_small : (n : ℕ) → n < 2 ^ 24 → to_float n ≡ n
unfolding to_float
to_float_small n h = float_loop_first 39 1 n fits ∙ nearest_one n
  where
    fits : ltb n (2 ^ 24 * 1) ≡ true
    fits = ground (arith, h)

page_count_lem :
    (page size : ℕ)
    → 0 < page
    → size < 2 ^ 24
    → (size ≤ page_count page size * page) × (page_count page size * page < size + page)
unfolding page_count
page_count_lem page size pos small =
    rw (to_float_small size small) (omega (arith, pos), omega (arith, pos))

-- What a stack that was asked for with `size` bytes is: `bytes` from the address `at'` on, of which the
-- first page is the guard.
pub record Stacked (page size at' : ℕ) (limit : Option ℕ) (o : Option (Option StackContext))
    : Type 0 where
  pub context : StackContext
  pub returned : o ≡ some (some context)
  pub base : context.sp ≡ at' + context.size
  pub pages : ℕ
  pub whole : context.size ≡ pages * page
  pub room : page + size ≤ context.size
  pub tight : context.size < size + 2 * page
  pub freed :
      deallocate limit context
      ≡ (if within_limit limit context.size then some (at', context.size) else none)

-- A stack of at least the least size and less than 2^24 bytes, within the limit, with pages of at
-- most 2^24 bytes, where the mapping and its protection succeed: `allocate` gives whole pages,
-- fewer than two more than the size, and behind the guard page there is room for it. `deallocate`
-- unmaps just that mapping where the limit has room for all of it; where it has not, it fails its
-- assertion, though `allocate` did not.
pub deallocate-allocate :
    (page size at' : ℕ) (limit : Option ℕ)
    → 0 < page
    → page ≤ 2 ^ 24
    → minimum_stacksize ≤ size
    → size < 2 ^ 24
    → within_limit limit size ≡ true
    → Stacked page size at' limit (allocate page limit (some at') true size)
unfolding allocate deallocate minimum_stacksize
deallocate-allocate page size at' limit pos few least small fits =
    let pages = page_count page size + 1 in
    record {
      context = record { size = pages * page; sp = at' + pages * page };
      returned = rw (enough, fits, asked, bytes, some_bytes) refl;
      base = refl;
      pages = pages;
      whole = refl;
      room = omega (arith, b.0);
      tight = omega (arith, b.1);
      freed = rw (not_null, big, there) (guarded (within_limit limit (pages * page)) _);
    }
  where
    b : (size ≤ page_count page size * page) × (page_count page size * page < size + page)
    b = page_count_lem page size pos small

    enough : leb (8 * 1024 + 88 + 15) size ≡ true
    enough = ground (arith, least)

    asked : ltb 0 size ≡ true
    asked = ground (arith, least)

    few_pages : page_count page size < 2 ^ 26
    few_pages = omega (arith, b.1, small, few, mul-le-mul_left (page_count page size) pos)

    one_more : add64 (page_count page size) 1 ≡ page_count page size + 1
    one_more = omega (arith, few_pages)

    bytes : mul64 (add64 (page_count page size) 1) page ≡ (page_count page size + 1) * page
    bytes = ap (λ n. n * page % 2 ^ 64) one_more ∙ omega (arith, b.1, small, few)

    some_bytes : ltb 0 ((page_count page size + 1) * page) ≡ true
    some_bytes = ground (arith, b.0, least)

    not_null : not (at' + (page_count page size + 1) * page == 0) ≡ true
    not_null = ground (arith, b.0, least)

    big : leb (8 * 1024 + 88 + 15) ((page_count page size + 1) * page) ≡ true
    big = ground (arith, b.0, least)

    there : at' + (page_count page size + 1) * page - (page_count page size + 1) * page ≡ at'
    there = omega arith
