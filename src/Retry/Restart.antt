-- ===== src/Retry/Restart.antt =====
-- A worker that restarts on errors.
use smartlibs.Prelude.{
  ℕ, zero, suc, ◌+◌, ◌≤◌, ◌<◌, ◌≡◌, refl, ap, ◌∙◌, List, ◌∷◌, Bool, true, false, leb, some, arith,
  Eq-nat, Eq-list,
}
use smartlibs.Retry.{
  Policy, on_error, err_cb, Deed, ran, failed, restarted, completed, raised, finally, run_task,
}

-- Some failed runs, each with a restart behind it, and then what follows.
abbrev pub after : ℕ → List Deed → List Deed
after zero deeds = deeds
after (suc k) deeds = failed ∷ restarted ∷ after k deeds

abbrev pub restart_on_error : ℕ → Policy
restart_on_error limit = record { restart = on_error; restart_max_num = some limit }

err_cb_lem : (limit count : ℕ) → err_cb (restart_on_error limit) count ≡ leb count limit
unfolding err_cb
err_cb_lem limit count = refl

module _ (limit : ℕ) (send_end_cmd has_done : Bool) (works : ℕ → Bool) where
  completes_from :
      (n k runs : ℕ)
      → k < runs
      → n + k ≤ limit
      → ((j : ℕ) → n ≤ j → j < n + k → works j ≡ false)
      → works (n + k) ≡ true
      → run_task (restart_on_error limit) send_end_cmd has_done works n runs
        ≡ (after k (ran ∷ finally send_end_cmd has_done), completed)
  unfolding run_task
  completes_from n k zero lt le fails good = absurd (omega arith)
  completes_from n zero (suc runs) lt le fails good =
      let here : works n ≡ true = ap works (omega arith) ∙ good in ground (arith, here)
  completes_from n (suc k) (suc runs) lt le fails good =
      let here : works n ≡ false = fails n (omega arith) (omega arith) in
      let shift : works ((n + 1) + k) ≡ true = ap works (omega arith) ∙ good in
      let rest =
        completes_from (n + 1) k runs (omega arith) (omega arith)
          (λ j a b. fails j (omega arith) (omega arith)) shift in
      ground (arith, here, rest, err_cb_lem limit (n + 1))

  raises_from :
      (n left runs : ℕ)
      → n + left ≡ limit
      → left < runs
      → ((j : ℕ) → n ≤ j → j ≤ limit → works j ≡ false)
      → run_task (restart_on_error limit) send_end_cmd has_done works n runs
        ≡ (after left (failed ∷ finally send_end_cmd has_done), raised)
  unfolding run_task
  raises_from n left zero e lt fails = absurd (omega arith)
  raises_from n zero (suc runs) e lt fails =
      let here : works n ≡ false = fails n (omega arith) (omega arith) in
      ground (arith, here, err_cb_lem limit (n + 1))
  raises_from n (suc left) (suc runs) e lt fails =
      let here : works n ≡ false = fails n (omega arith) (omega arith) in
      let rest =
        raises_from (n + 1) left runs (omega arith) (omega arith)
          (λ j a b. fails j (omega arith) b) in
      ground (arith, here, rest, err_cb_lem limit (n + 1))

  -- A worker that restarts on errors up to a limit, given enough runs: if its first success comes
  -- after k failures and the limit allows them, it restarts k times and completes; if it fails one
  -- time more than the limit, it restarts as often as the limit says and raises. In both cases what
  -- its `finally` does is done once, at the end.
  pub run_task-restart_on_error :
      (runs : ℕ)
      → ((k : ℕ)
          → k < runs
          → k ≤ limit
          → ((j : ℕ) → j < k → works j ≡ false)
          → works k ≡ true
          → run_task (restart_on_error limit) send_end_cmd has_done works 0 runs
            ≡ (after k (ran ∷ finally send_end_cmd has_done), completed))
        × (limit < runs
            → ((j : ℕ) → j ≤ limit → works j ≡ false)
            → run_task (restart_on_error limit) send_end_cmd has_done works 0 runs
              ≡ (after limit (failed ∷ finally send_end_cmd has_done), raised))
  run_task-restart_on_error runs = (
    λ k lt le fails good.
        completes_from 0 k runs lt (omega arith) (λ j a b. fails j (omega arith))
          (ap works (omega arith) ∙ good),
    λ lt fails. raises_from 0 limit runs (omega arith) lt (λ j a b. fails j b),
  )
