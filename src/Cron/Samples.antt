-- ===== src/Cron/Samples.antt =====
-- A task of two seconds.
use smartlibs.Prelude.{[], ◌∷◌, ◌≡◌, true}
use smartlibs.Cron.{start_loop, new_timing_task}
use smartlibs.Cron.Runs.{start_loop-once}

once_example : start_loop (new_timing_task 2000 true) (30 ∷ 40 ∷ 50 ∷ []) 1000 ≡ 1
once_example = start_loop-once 2000 30 true (40 ∷ 50 ∷ []) 999
