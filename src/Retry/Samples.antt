-- ===== src/Retry/Samples.antt =====
-- Runs that fail twice.
use smartlibs.Prelude.{
  ℕ, ◌≤◌, ◌<◌, ◌≡◌, refl, [], ◌∷◌, Bool, true, false, Option, none, some, ltb, if◌then◌else◌,
}
use smartlibs.Retry.{
  retry, ran, failed, restarted, sent_end, task_done, completed, raised, finally, run_task,
}
use smartlibs.Retry.Restart.{after, restart_on_error, run_task-restart_on_error}

abbrev third : ℕ → Option ℕ
third n = if ltb n 2 then none else some n

succeeds : retry third true 5 ≡ record { returned = some 2; calls = 3; sleeps = 2 }
unfolding retry
succeeds = refl

gives_up : retry third true 2 ≡ record { returned = none; calls = 2; sleeps = 1 }
unfolding retry
gives_up = refl

abbrev works : ℕ → Bool
works n = if ltb n 2 then false else true

restarts :
    run_task (restart_on_error 2) true true works 0 9
    ≡ (failed ∷ restarted ∷ failed ∷ restarted ∷ ran ∷ sent_end ∷ task_done ∷ [], completed)
unfolding run_task
restarts = refl

raises :
    run_task (restart_on_error 1) true true works 0 9
    ≡ (failed ∷ restarted ∷ failed ∷ sent_end ∷ task_done ∷ [], raised)
unfolding run_task
raises = refl

restart_example :
    ((k : ℕ)
      → k < 9
      → k ≤ 2
      → ((j : ℕ) → j < k → works j ≡ false)
      → works k ≡ true
      → run_task (restart_on_error 2) true true works 0 9
        ≡ (after k (ran ∷ finally true true), completed))
    × (2 < 9
        → ((j : ℕ) → j ≤ 2 → works j ≡ false)
        → run_task (restart_on_error 2) true true works 0 9
          ≡ (after 2 (failed ∷ finally true true), raised))
restart_example = run_task-restart_on_error 2 true true works 9
