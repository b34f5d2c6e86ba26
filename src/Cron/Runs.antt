-- ===== src/Cron/Runs.antt =====
-- How often a timed task runs.
use Prim.Native.Nat.{max}
use smartlibs.Prelude.{
  ℕ, zero, suc, ◌-◌, ◌<◌, List, [], ◌∷◌, ◌≡◌, refl, Bool, true, false, Bool-cases, inl, inr, arith,
  if◌then◌else◌, ltb,
}
use smartlibs.Cron.{interrupted, sleep_loop, sleep, run_loop, start_loop, new_timing_task}

-- The loop of a sleep does not end by itself.
pub sleep_loop-interrupted :
    (interval looks : ℕ) → 0 < interval → sleep_loop interval looks ≡ interrupted
unfolding sleep_loop
sleep_loop-interrupted zero looks h = absurd (omega arith)
sleep_loop-interrupted (suc interval) zero h = refl
sleep_loop-interrupted (suc interval) (suc looks) h = elim (Bool-cases (ltb 3000 (suc interval))) [
  | inl long ↦
      rw (sleep_loop, long)
        (sleep_loop-interrupted (suc interval - 3000) looks (ground (arith, long)))
  | inr short ↦ rw (sleep_loop, short) (sleep_loop-interrupted (suc interval) looks h)
]

sleep-interrupted : (interval looks : ℕ) → 0 < interval → sleep interval (suc looks) ≡ interrupted
unfolding sleep
sleep-interrupted interval looks h = sleep_loop-interrupted interval looks h

run_loop-ended : (interval : ℕ) (runs : List ℕ) (ran : ℕ) → run_loop interval runs zero ran ≡ ran
unfolding run_loop
run_loop-ended interval [] ran = refl
run_loop-ended interval (elapsed ∷ runs) ran = refl

run_loop-once :
    (interval elapsed : ℕ) (runs : List ℕ) (looks ran : ℕ)
    → run_loop interval (elapsed ∷ runs) (suc looks) ran ≡ suc ran
unfolding run_loop sleep
run_loop-once interval elapsed runs zero ran = run_loop-ended interval runs (suc ran)
run_loop-once interval elapsed runs (suc looks) ran =
    rw (run_loop, sleep-interrupted (max 100 (interval - elapsed)) looks (omega arith)) refl

-- A timed task runs once if it is to run immediately, and else never, however long the end flag stays
-- unset, for the sleep after a run, or before the first, does not end by itself.
pub start_loop-once :
    (interval elapsed : ℕ) (run_immediate : Bool) (runs : List ℕ) (looks : ℕ)
    → start_loop (new_timing_task interval run_immediate) (elapsed ∷ runs) (suc looks)
      ≡ (if run_immediate then 1 else 0)
unfolding start_loop new_timing_task
start_loop-once interval elapsed true runs looks =
    run_loop-once (max interval 1000) elapsed runs looks 0
start_loop-once interval elapsed false runs looks =
    rw (start_loop, sleep-interrupted (max interval 1000) looks (omega arith)) refl
