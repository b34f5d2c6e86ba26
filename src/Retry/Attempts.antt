-- ===== src/Retry/Attempts.antt =====
-- A RetryFn returns its first success, and gives up after the last turn.
use smartlibs.Prelude.{
  ℕ, zero, suc, ◌+◌, ◌-◌, ◌≤◌, ◌<◌, ◌≡◌, ap, ◌∙◌, Bool, Option, none, some, arith, if◌then◌else◌,
}
use smartlibs.Retry.{retry_from, retry}

module _ {A : Type 0} (attempt : ℕ → Option A) (has_interval : Bool) where
  abbrev pub slept : ℕ → ℕ
  slept n = if has_interval then n else 0

  success_from :
      (limit n k left : ℕ) (a : A)
      → n + left ≡ limit
      → k < left
      → ((j : ℕ) → j < n + k → n ≤ j → attempt j ≡ none)
      → attempt (n + k) ≡ some a
      → retry_from attempt has_interval limit n left
        ≡ record { returned = some a; calls = k + 1; sleeps = slept k }
  unfolding retry_from
  success_from limit n k zero a e lt fails works = absurd (omega arith)
  success_from limit n zero (suc left) a e lt fails works =
      let here : attempt n ≡ some a = ap attempt (omega arith) ∙ works in ground (arith, here)
  success_from limit n (suc k) (suc left) a e lt fails works =
      let here : attempt n ≡ none = fails n (omega arith) (omega arith) in
      let shift : attempt ((n + 1) + k) ≡ some a = ap attempt (omega arith) ∙ works in
      let rest =
        success_from limit (n + 1) k left a (omega arith) (omega arith)
          (λ j below above. fails j (omega arith) (omega arith)) shift in
      ground (arith, here, rest)

  failure_from :
      (limit n left : ℕ)
      → n + left ≡ limit
      → ((j : ℕ) → j < limit → n ≤ j → attempt j ≡ none)
      → retry_from attempt has_interval limit n left
        ≡ record { returned = none; calls = left; sleeps = slept (left - 1) }
  unfolding retry_from
  failure_from limit n zero e fails = ground arith
  failure_from limit n (suc left) e fails =
      let here : attempt n ≡ none = fails n (omega arith) (omega arith) in
      let rest =
        failure_from limit (n + 1) left (omega arith)
          (λ j below above. fails j below (omega arith)) in
      ground (arith, here, rest)

  -- If the runs before run k fail and run k, which the limit allows, succeeds, the call returns its
  -- value after k + 1 runs and, with an interval, k sleeps; if all runs that the limit allows fail, it
  -- raises after as many runs, with one sleep less.
  pub retry-first :
      (limit : ℕ)
      → ((k : ℕ) (a : A)
          → k < limit
          → ((j : ℕ) → j < k → attempt j ≡ none)
          → attempt k ≡ some a
          → retry attempt has_interval limit
            ≡ record { returned = some a; calls = k + 1; sleeps = slept k })
        × (((j : ℕ) → j < limit → attempt j ≡ none)
            → retry attempt has_interval limit
              ≡ record { returned = none; calls = limit; sleeps = slept (limit - 1) })
  unfolding retry
  retry-first limit = (
    λ k a lt fails works.
        success_from limit 0 k limit a (omega arith) lt (λ j below above. fails j (omega arith))
          (ap attempt (omega arith) ∙ works),
    λ fails. failure_from limit 0 limit (omega arith) (λ j below above. fails j below),
  )
