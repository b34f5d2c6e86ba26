-- ===== src/Manage/Samples.antt =====
-- The life of one task.
use smartlibs.Prelude.{
  ℕ, ◌≤◌, List, [], ◌∷◌, ◌≡◌, ◌≢◌, refl, true, false, Option, none, some, All, Eq-nat, Eq-list,
}
use smartlibs.Text.{Text}
use smartlibs.Dict.{get}
use smartlibs.Manage.{
  done, Stage, start, end, RunOpts, TaskInfo, RunResult, returned, PoolResult, response, new_task,
}
use smartlibs.Manage.Ending.{end_all_ns_task, end_tasks, end_task, end_found}
use smartlibs.Manage.Cleaning.{clean_task_dict}
use smartlibs.Manage.Stages.{wait_stage, not_passed, Late, has_stage, wait_stage-deadline}
use smartlibs.Manage.System.{
  Manager, get_task_dict, create_task, begin_job, finish_job, create, dispatch, begin, finish,
  Reach, here, next, initial,
}
use smartlibs.Manage.System.Sound.{IsSound, Reach-IsSound}

abbrev id : Text
id = b'i' ∷ []

abbrev ns : Text
ns = b'n' ∷ []

abbrev opts : RunOpts ℕ
opts = record { delay = 0; other = 7 }

abbrev task : TaskInfo ℕ ℕ ℕ ℕ
task = new_task id ns (b'm' ∷ []) (b't' ∷ []) opts none 1

abbrev result : PoolResult ℕ ℕ
result = response (record { result = some 5; done_flag = none; error = none })

created : Manager ℕ ℕ ℕ ℕ
unfolding create_task
created = (create_task initial id ns (b'm' ∷ []) (b't' ∷ []) opts none 1 []).0

abbrev dispatched : Manager ℕ ℕ ℕ ℕ
dispatched = record created { jobs = []; pool = task ∷ [] }

begun : Manager ℕ ℕ ℕ ℕ
unfolding begin_job created
begun = record (begin_job dispatched task (3, 2) (b'l' ∷ [])) { pool = []; running = task ∷ [] }

ended : Manager ℕ ℕ ℕ ℕ
unfolding finish_job begun
ended = record (finish_job begun task result 9) { running = [] }

path : Reach initial ended
unfolding created begun ended create_task
path =
    next
      (next
        (next (next here (create id ns (b'm' ∷ []) (b't' ∷ []) [] opts none 1))
          (dispatch task [] refl refl))
        (begin task [] [] (3, 2) (b'l' ∷ []) refl refl))
      (finish task [] [] result 9 refl)

abbrev over : TaskInfo ℕ ℕ ℕ ℕ
over = record task {
  process = some (3, 2);
  task_log = some (b'l' ∷ []);
  stage = start ∷ end ∷ [];
  done_time = some 9;
  done_flag = some done;
  task_resp = some 5;
}

last : get (get_task_dict ended ns) id ≡ some over
unfolding ended begun created get_task_dict create_task begin_job finish_job
last = refl

reached_example : IsSound over
reached_example = Reach-IsSound path ns id over last

abbrev flagged_task : TaskInfo ℕ ℕ ℕ ℕ
flagged_task = record task { flagged_end = true }

abbrev report : ℕ → Option ℕ
report hook = none

abbrev auto_run : Text → Text → ℕ → RunResult ℕ ℕ
auto_run module_path name options = returned (some options)

cleaned :
    (get (clean_task_dict ((id, over) ∷ []) 10 19).0 id ≡ none)
    × (get (clean_task_dict ((id, over) ∷ []) 10 18).0 id ≡ some over)
unfolding clean_task_dict get
cleaned = (refl, refl)

wait_example :
    ((stages : List Stage)
      → 4 ≤ 30
      → some [] ≡ some stages
      → has_stage start stages ≡ false
      → wait_stage start 30 (record { stages = some []; now = 4 } ∷ []) ≡ not_passed)
    × (All (Late 30) (record { stages = some []; now = 4 } ∷ [])
        → wait_stage start 30 (record { stages = some []; now = 4 } ∷ []) ≢ not_passed)
wait_example = wait_stage-deadline start 30 (record { stages = some []; now = 4 }) []

-- A task that has not started: the end of its namespace fails.
end_failed : end_all_ns_task ((id, task) ∷ []) ≡ ([], true)
unfolding end_all_ns_task end_tasks end_task end_found get
end_failed = refl
