-- ===== src/Manage/Stages.antt =====
-- smart/aaas/utils/task_info.py: asking whether a stage of a task has passed, and waiting for it. Each
-- turn of the wait is what the task dictionary holds then, and the reading of the clock behind it.
use smartlibs.Prelude.{
  ℕ, ◌≤◌, ◌<◌, List, [], ◌∷◌, ◌≡◌, ◌≢◌, Bool, true, false, ◌||◌, Option, none, some, leb, All,
  arith,
}
use smartlibs.Manage.{Stage, start, end}

abbrev pub same_stage : Stage → Stage → Bool
same_stage start start = true
same_stage end end = true
same_stage _ _ = false

abbrev pub has_stage : Stage → List Stage → Bool
has_stage name [] = false
has_stage name (stage ∷ stages) = same_stage name stage || has_stage name stages

-- `check_stage_passed`, on the stages of the task, or `none` where there is no such task.
unfoldable pub check_stage_passed : Option (List Stage) → Stage → Option Bool
check_stage_passed none stage_name = none
check_stage_passed (some stages) stage_name = some (has_stage stage_name stages)

pub record Turn : Type 0 where
  pub stages : Option (List Stage)
  pub now : ℕ

-- None, True and False, or a wait that is still going on.
pub data Waited : Type 0 where
  no_task passed not_passed waiting : Waited

-- `min(check_interval, time.time() - wait_end_ts) <= 0`, for an interval above zero.
unfoldable pub gives_up : ℕ → ℕ → Bool
gives_up wait_end_ts now = leb now wait_end_ts

abbrev pub after_check : Option Bool → Bool → Waited → Waited
after_check none stop later = no_task
after_check (some true) stop later = passed
after_check (some false) true later = not_passed
after_check (some false) false later = later

unfoldable pub wait_stage : Stage → ℕ → List Turn → Waited
unfolding check_stage_passed gives_up
wait_stage stage_name wait_end_ts [] = waiting
wait_stage stage_name wait_end_ts (t ∷ turns) =
    let later = wait_stage stage_name wait_end_ts turns in
    after_check (check_stage_passed t.stages stage_name) (gives_up wait_end_ts t.now) later

abbrev pub Late : ℕ → Turn → Type 0
Late wait_end_ts t = wait_end_ts < t.now

-- Up to the end of the time that is to be waited, the wait gives up at its first turn instead of
-- waiting; past that time it does not give up, however long the stage fails to come.
pub wait_stage-deadline :
    (stage_name : Stage) (wait_end_ts : ℕ) (t : Turn) (turns : List Turn)
    → ((stages : List Stage)
        → t.now ≤ wait_end_ts
        → t.stages ≡ some stages
        → has_stage stage_name stages ≡ false
        → wait_stage stage_name wait_end_ts (t ∷ turns) ≡ not_passed)
      × (All (Late wait_end_ts) (t ∷ turns)
          → wait_stage stage_name wait_end_ts (t ∷ turns) ≢ not_passed)
unfolding wait_stage
wait_stage-deadline stage_name wait_end_ts t turns =
    (λ stages early e absent. ground (arith, e, absent), λ late. never (t ∷ turns) late)
  where
    one :
        (t : Turn) (r : Option Bool) (later : Waited)
        → wait_end_ts < t.now
        → later ≢ not_passed
        → after_check r (gives_up wait_end_ts t.now) later ≢ not_passed
    one t none later late h = cc
    one t (some true) later late h = cc
    one t (some false) later late h = ground (arith, h)

    never :
        (turns : List Turn)
        → All (Late wait_end_ts) turns
        → wait_stage stage_name wait_end_ts turns ≢ not_passed
    never [] late = cc
    never (t ∷ turns) late =
        one t (check_stage_passed t.stages stage_name) (wait_stage stage_name wait_end_ts turns)
          late.0 (never turns late.1)
