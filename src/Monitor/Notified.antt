-- ===== src/Monitor/Notified.antt =====
-- What a critical section's notifications come to.
use tarsx.Prelude.{
  ℕ, zero, suc, ◌+◌, ◌^◌, ◌<◌, ◌≡◌, refl, ap, ◌∙◌, Bool, true, false, List, [], ◌∷◌, replicate,
  length, arith, if◌then◌else◌, add32, ◌==◌,
}
use tarsx.Monitor.{
  Wake, signal, broadcast, minus_one, notify_impl, Monitor, lock, unlock, wait, notify, notify_all,
}

-- The notifications of a critical section: true for `notifyAll`.
unfoldable pub notify_each : List Bool → Monitor → Monitor
notify_each [] m = m
notify_each (true ∷ calls) m = notify_each calls (notify_all m)
notify_each (false ∷ calls) m = notify_each calls (notify m)

-- Whether one of them is `notifyAll`.
abbrev pub some_all : List Bool → Bool
some_all [] = false
some_all (true ∷ calls) = true
some_all (false ∷ calls) = some_all calls

-- What is then to reach the condition.
abbrev pub expected : List Bool → List Wake
expected calls = if some_all calls then broadcast ∷ [] else replicate (length calls) signal

-- After `notifyAll` nothing more is counted.
stays_all :
    (calls : List Bool)
    → notify_each calls (record { notify_ = minus_one }) ≡ record { notify_ = minus_one }
unfolding notify_each notify notify_all
stays_all [] = refl
stays_all (true ∷ calls) = stays_all calls
stays_all (false ∷ calls) = stays_all calls

one_more : (n : ℕ) → n + 1 < 2 ^ 31 → notify (record { notify_ = n }) ≡ record { notify_ = n + 1 }
unfolding notify
one_more n h = rw (not_all, sum)
  where
    not_all : (n == minus_one) ≡ false
    not_all = ground (arith, h)

    sum : add32 n 1 ≡ n + 1
    sum = omega (arith, h)

counted :
    (calls : List Bool) (n : ℕ)
    → n + length calls < 2 ^ 31
    → (notify_each calls (record { notify_ = n })).notify_
      ≡ (if some_all calls then minus_one else n + length calls)
unfolding notify_each notify_all
counted [] n h = omega arith
counted (true ∷ calls) n h = ap (λ m. m.notify_) (stays_all calls)
counted (false ∷ calls) n h =
    ap (λ m. (notify_each calls m).notify_) (one_more n (omega arith))
    ∙ counted calls (n + 1) (omega arith)
    ∙ ap (λ k. if some_all calls then minus_one else k) {x = n + 1 + length calls}
        {y = n + suc (length calls)} (omega arith)

impl_count : (n : ℕ) → n < 2 ^ 31 → notify_impl n ≡ replicate n signal
unfolding notify_impl
impl_count zero h = refl
impl_count (suc n) h = ground (arith, h)

impl_if :
    (b : Bool) (k : ℕ)
    → k < 2 ^ 31
    → notify_impl (if b then minus_one else k) ≡ (if b then broadcast ∷ [] else replicate k signal)
impl_if true k h = unfold notify_impl in refl
impl_if false k h = impl_count k h

-- Between `lock` and `unlock`, fewer than `2 ^ 31` notifications come to one signal each, or, if
-- one of them is `notifyAll`, to a single broadcast; so too if the section ends in a `wait`.
pub unlock-notify_each :
    (calls : List Bool) (m : Monitor)
    → length calls < 2 ^ 31
    → ((unlock (notify_each calls (lock m))).0 ≡ expected calls)
      × ((wait (notify_each calls (lock m))).0 ≡ expected calls)
unfolding unlock wait lock
unlock-notify_each calls m h =
    let e =
      ap notify_impl (
        counted calls 0 (omega arith)
        ∙ ap (λ k. if some_all calls then minus_one else k) {x = 0 + length calls}
            {y = length calls} (omega arith))
      ∙ impl_if (some_all calls) (length calls) h in
    (e, e)
