-- ===== src/CoroutineScheduler/Stack.antt =====
-- tarsx/CoroutineScheduler.cc: `standard_stack_allocator`. The size of a page, a power of two, the limit
-- of the stack (`none` is `RLIM_INFINITY`), and what `mmap` and `mprotect` answer are arguments.
use tarsx.Prelude.{
  ℕ, zero, suc, ◌+◌, ◌*◌, ◌-◌, ◌/◌, ◌%◌, ◌^◌, Bool, true, Option, none, some, ltb, leb, ◌==◌, not,
  if◌then◌else◌, mul64, add64, ◌>>◌, guard,
}

-- The multiple of `u` that is nearest, of two that are as near the even one.
unfoldable pub nearest : ℕ → ℕ → ℕ
nearest u n =
    let down = n / u * u in
    let up = suc (n / u) * u in
    let left = 2 * (n % u) in
    if ltb left u then down else if ltb u left then up else if n / u % 2 == 0 then down else up

-- `static_cast<float>` of a `size_t`: 24 binary digits. The unit is doubled 40 times at most.
unfoldable pub float_loop : ℕ → ℕ → ℕ → ℕ
float_loop zero u n = nearest u n
float_loop (suc fuel) u n =
    let more = float_loop fuel (2 * u) n in if ltb n (2 ^ 24 * u) then nearest u n else more

unfoldable pub to_float : ℕ → ℕ
to_float n = float_loop 40 1 n

-- `page_count`: the quotient of a float by a power of two is exact, and `ceil` rounds it up.
unfoldable pub page_count : ℕ → ℕ → ℕ
page_count page size = (to_float size + (page - 1)) / page

-- `minimum_stacksize`; an `fcontext_t` has 88 bytes.
unfoldable pub minimum_stacksize : ℕ
minimum_stacksize = 8 * 1024 + 88 + 15

unfoldable pub within_limit : Option ℕ → ℕ → Bool
within_limit none size = true
within_limit (some limit) size = leb size limit

-- `stack_context`.
pub record StackContext : Type 0 where
  pub size : ℕ
  pub sp : ℕ

-- `allocate`: the context, or nothing where `mmap` fails.
unfoldable pub allocate : ℕ → Option ℕ → Option ℕ → Bool → ℕ → Option (Option StackContext)
allocate page limit mapped protected size = do
  guard (leb minimum_stacksize size)
  guard (within_limit limit size)
  let size_ = mul64 (add64 (page_count page size) 1) page
  guard (ltb 0 size)
  guard (ltb 0 size_)
  elim mapped [
    | none ↦ some none
    | some at' ↦ (do guard protected; some (some (record { size = size_; sp = at' + size_ })))
  ]

-- `deallocate`: what is given to `munmap`.
unfoldable pub deallocate : Option ℕ → StackContext → Option (ℕ × ℕ)
deallocate limit c = do
  guard (not (c.sp == 0))
  guard (leb minimum_stacksize c.size)
  guard (within_limit limit c.size)
  some (c.sp - c.size, c.size)
