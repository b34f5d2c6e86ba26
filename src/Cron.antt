-- ===== src/Cron.antt =====
-- smart/rest/app/crond.py: the timed tasks. Times are milliseconds. The end flag of the manager, once
-- set, stays set, so what matters of it is at how many looks from now it is still unset: `looks`.
pub mod Runs
mod Samples
use Prim.Native.Nat.{max}
use smartlibs.Prelude.{
  ℕ, zero, suc, ◌-◌, List, [], ◌∷◌, Bool, true, false, Option, none, some, if◌then◌else◌, ltb,
}

-- How a sleep ends, with the looks that are left; `interrupted` is KeyboardInterrupt.
pub data Slept : Type 0 where
  returned : ℕ → Slept
  interrupted : Slept

-- The loop of `sleep`.
unfoldable pub sleep_loop : ℕ → ℕ → Slept
sleep_loop zero looks = returned looks
sleep_loop (suc interval) zero = interrupted
sleep_loop (suc interval) (suc looks) = elim (ltb 3000 (suc interval)) [
  | true ↦ sleep_loop (suc interval - 3000) looks
  | false ↦ sleep_loop (suc interval) looks
]

unfoldable pub sleep : ℕ → ℕ → Slept
unfolding sleep_loop
sleep interval zero = returned zero
sleep interval (suc looks) = sleep_loop interval looks

-- The loop of `start_loop`, given how long each run of the task takes: how often the task has run in
-- the end, or when the given runs are used up.
unfoldable pub run_loop : ℕ → List ℕ → ℕ → ℕ → ℕ
unfolding sleep
run_loop interval [] looks ran = ran
run_loop interval (elapsed ∷ runs) zero ran = ran
run_loop interval (elapsed ∷ runs) (suc looks) ran =
    elim (sleep (max 100 (interval - elapsed)) looks) [
      | returned rest ↦ run_loop interval runs rest (suc ran)
      | interrupted ↦ suc ran
    ]

pub record TimingTask : Type 0 where
  pub interval : ℕ
  pub run_immediate : Bool

-- The interval is a second at least.
unfoldable pub new_timing_task : ℕ → Bool → TimingTask
new_timing_task interval run_immediate = record {
  interval = max interval 1000;
  run_immediate = run_immediate;
}

unfoldable pub start_loop : TimingTask → List ℕ → ℕ → ℕ
unfolding run_loop sleep
start_loop task runs looks =
    if task.run_immediate
    then run_loop task.interval runs looks 0
    else elim (sleep task.interval looks) [
      | returned rest ↦ run_loop task.interval runs rest 0
      | interrupted ↦ 0
    ]
