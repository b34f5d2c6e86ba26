-- ===== src/Manage/Calls.antt =====
-- `call_auto_run`: what a worker does with a job.
use smartlibs.Prelude.{ℕ, Bool, true, false, Option, none, some, Eq-nat, Eq-list}
use smartlibs.Text.{Text}
use smartlibs.Dict.{Dict}
use smartlibs.Manage.{
  end_flag, interrupt, RunOpts, TaskInfo, Response, RunResult, returned, raised, interrupted,
  Before, unknown, flagged, duplicate, began, before_run,
}

-- The task dictionary behind the call, what the call returns, and what it did: whether it slept for
-- the delay, and whether `auto_run` ran.
pub record Called (O R E H : Type 0) : Type 0 where
  pub task_dict : Dict Text (TaskInfo O R E H)
  pub resp : Response R E
  pub slept : ℕ
  pub ran : Bool

module _ {O R E H : Type 0} where
  -- `resp` as `__before_run` leaves it.
  abbrev pub resp_before : Before O R E H → Response R E
  resp_before flagged = record { result = none; done_flag = some end_flag; error = none }
  resp_before _ = record { result = none; done_flag = none; error = none }

  -- `task_info.get('state_hook')`: the response that a flagged task is given has none.
  abbrev pub hook_of : Before O R E H → Option H
  hook_of (began task_info) = task_info.state_hook
  hook_of _ = none

  -- A task that is not known is delayed, too.
  abbrev pub sleeps : Before O R E H → ℕ → ℕ
  sleeps flagged delay = 0
  sleeps duplicate delay = 0
  sleeps unknown delay = delay
  sleeps (began task_info) delay = delay

module _ {O R E H : Type 0} (report : H → Option E)
    (auto_run : Text → Text → O → RunResult R E) where
  abbrev pub add_result : Response R E → RunResult R E → Response R E
  add_result resp (returned r) = record resp { result = r }
  add_result resp (raised e) = record resp { error = some e }
  add_result resp interrupted = record resp { done_flag = some interrupt }

  -- The report of the start, and the run behind it; an exception of the report is the task's error.
  abbrev pub report_and_run : Response R E → Option E → RunResult R E → Response R E × Bool
  report_and_run resp (some e) result = (record resp { error = some e }, false)
  report_and_run resp none result = (add_result resp result, true)

  abbrev pub report_start : Option H → Option E
  report_start none = none
  report_start (some hook) = report hook

  abbrev pub with_before :
      Dict Text (TaskInfo O R E H) → Text → Text → RunOpts O → Before O R E H → Called O R E H
  with_before task_dict module_path name run_opts before =
      let (resp, ran) =
        report_and_run (resp_before before) (report_start (hook_of before))
          (auto_run module_path name run_opts.other) in
      record { task_dict = task_dict; resp = resp; slept = sleeps before run_opts.delay; ran = ran }

  -- The call for a task, from the flag of the service on.
  unfoldable pub call_auto_run :
      Bool
      → Dict Text (TaskInfo O R E H)
      → Text
      → Text
      → Text
      → RunOpts O
      → ℕ × ℕ
      → Text
      → Called O R E H
  unfolding before_run
  call_auto_run true task_dict task_id module_path name run_opts pids log = record {
    task_dict = task_dict;
    resp = record { result = none; done_flag = some interrupt; error = none };
    slept = 0;
    ran = false;
  }
  call_auto_run false task_dict task_id module_path name run_opts pids log =
      let (task_dict', before) = before_run task_dict task_id pids log in
      with_before task_dict' module_path name run_opts before
