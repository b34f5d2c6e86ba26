-- ===== src/Manage.antt =====
-- smart/aaas/auto_manage.py: the tasks of the service, from their creation to their removal. A task
-- dictionary holds copies, as the proxy of a shared dictionary does: a change counts once it is
-- written back. What a run, a report to a hook, the clock and the process give are arguments.
pub mod System
pub mod Calls
pub mod Cleaning
pub mod Ending
mod Samples
pub mod Stages
use smartlibs.Prelude.{
  ℕ, zero, suc, ◌+◌, ◌-◌, List, [], ◌∷◌, ◌++◌, Bool, true, false, not, ◌&&◌, ◌||◌, Option, none,
  some, ◌==◌, if◌then◌else◌, ltb, leb, Eq-nat, Eq-list, is_empty,
}
use smartlibs.Text.{Text}
use smartlibs.Dict.{Dict, get, set, del}

-- smart/aaas/base.py: `AutoTaskDoneFlag`
pub data DoneFlag : Type 0 where
  done end_flag interrupt : DoneFlag

pub data Stage : Type 0 where
  start end : Stage

-- `run_opts`: the delay in seconds, 0 where it is not given, and the other options.
pub record RunOpts (O : Type 0) : Type 0 where
  pub delay : ℕ
  pub other : O

-- A task's dictionary; a key that is not there is `none`, `false` or an empty list.
pub record TaskInfo (O R E H : Type 0) : Type 0 where
  pub task_id : Text
  pub task_ns : Text
  pub module_path : Text
  pub name : Text
  pub run_opts : RunOpts O
  pub create_time : ℕ
  pub state_hook : Option H
  pub flagged_end : Bool
  -- The process and its parent.
  pub process : Option (ℕ × ℕ)
  pub task_log : Option Text
  pub stage : List Stage
  pub done_time : Option ℕ
  pub done_flag : Option DoneFlag
  pub exception : Option E
  pub task_resp : Option R

-- What `call_auto_run` returns.
pub record Response (R E : Type 0) : Type 0 where
  pub result : Option R
  pub done_flag : Option DoneFlag
  pub error : Option E

-- How `auto_run` ends.
pub data RunResult (R E : Type 0) : Type 0 where
  returned : Option R → RunResult R E
  raised : E → RunResult R E
  interrupted : RunResult R E

-- What the pool hands to the callback: the response, or an exception of its own.
pub data PoolResult (R E : Type 0) : Type 0 where
  response : Response R E → PoolResult R E
  pool_error : E → PoolResult R E

abbrev pub or_default {ℓ} : {A : Type ℓ} → Option A → A → A
or_default none d = d
or_default (some a) d = a

abbrev pub or_keep {ℓ} : {A : Type ℓ} → Option A → Option A → Option A
or_keep none old = old
or_keep (some a) old = some a

module _ {O R E H : Type 0} where
  -- `create_task`: the dictionary of a new task.
  abbrev pub new_task : Text → Text → Text → Text → RunOpts O → Option H → ℕ → TaskInfo O R E H
  new_task task_id task_ns module_path name run_opts state_hook now = record {
    task_id = task_id;
    task_ns = task_ns;
    module_path = module_path;
    name = name;
    run_opts = run_opts;
    create_time = now;
    state_hook = state_hook;
    flagged_end = false;
    process = none;
    task_log = none;
    stage = [];
    done_time = none;
    done_flag = none;
    exception = none;
    task_resp = none;
  }

-- What `__before_run` finds of the task.
pub data Before (O R E H : Type 0) : Type 0 where
  unknown flagged duplicate : Before O R E H
  began : TaskInfo O R E H → Before O R E H

module _ {O R E H : Type 0} where
  -- The task's dictionary with its start recorded.
  abbrev pub started : TaskInfo O R E H → ℕ × ℕ → Text → TaskInfo O R E H
  started task_info pids log = record task_info {
    process = some pids;
    task_log = some log;
    stage = task_info.stage ++ start ∷ [];
  }

  unfoldable pub before_info : Option (TaskInfo O R E H) → ℕ × ℕ → Text → Before O R E H
  before_info none pids log = unknown
  before_info (some task_info) pids log =
      if task_info.flagged_end then flagged else elim (task_info.process) [
        | some _ ↦ duplicate
        | none ↦ began (started task_info pids log)
      ]

  abbrev pub write_back :
      Dict Text (TaskInfo O R E H) → Text → Before O R E H → Dict Text (TaskInfo O R E H)
  write_back task_dict task_id (began task_info) = set task_dict task_id task_info
  write_back task_dict task_id unknown = task_dict
  write_back task_dict task_id flagged = task_dict
  write_back task_dict task_id duplicate = task_dict

  -- `__before_run`, under the lock: the new dictionary, and what was found.
  unfoldable pub before_run :
      Dict Text (TaskInfo O R E H)
      → Text
      → ℕ × ℕ
      → Text
      → Dict Text (TaskInfo O R E H) × Before O R E H
  unfolding before_info get set
  before_run task_dict task_id pids log =
      let before = before_info (get task_dict task_id) pids log in
      (write_back task_dict task_id before, before)

  -- `_create_task_cb`: what the callback writes of the result.
  unfoldable pub finished : TaskInfo O R E H → PoolResult R E → ℕ → TaskInfo O R E H
  finished task_info (response r) now = record task_info {
    done_time = some now;
    done_flag = some (or_default r.done_flag done);
    exception = or_keep r.error task_info.exception;
    task_resp = or_keep r.result task_info.task_resp;
    stage = task_info.stage ++ end ∷ [];
  }
  finished task_info (pool_error e) now = record task_info {
    done_time = some now;
    done_flag = some done;
    exception = some e;
    stage = task_info.stage ++ end ∷ [];
  }

  unfoldable pub create_task_cb :
      Dict Text (TaskInfo O R E H) → Text → PoolResult R E → ℕ → Dict Text (TaskInfo O R E H)
  unfolding finished get set
  create_task_cb task_dict task_id task_result now = elim (get task_dict task_id) [
    | none ↦ task_dict
    | some task_info ↦ set task_dict task_id (finished task_info task_result now)
  ]

  abbrev pub flag_idle :
      Dict Text (TaskInfo O R E H)
      → Text
      → TaskInfo O R E H
      → Option (ℕ × ℕ)
      → Dict Text (TaskInfo O R E H) × Bool
  flag_idle task_dict task_id task_info none =
      (set task_dict task_id (record task_info { flagged_end = true }), true)
  flag_idle task_dict task_id task_info (some pids) = (task_dict, false)

  abbrev pub flag_found :
      Dict Text (TaskInfo O R E H)
      → Text
      → Option (TaskInfo O R E H)
      → Dict Text (TaskInfo O R E H) × Bool
  flag_found task_dict task_id none = (task_dict, false)
  flag_found task_dict task_id (some task_info) =
      flag_idle task_dict task_id task_info task_info.process

  -- `flag_end_if_no_start`, under the lock: the new dictionary, and whether the flag was set.
  unfoldable pub flag_end_if_no_start :
      Dict Text (TaskInfo O R E H) → Text → Dict Text (TaskInfo O R E H) × Bool
  unfolding get set
  flag_end_if_no_start task_dict task_id = flag_found task_dict task_id (get task_dict task_id)
