-- ===== src/Manage/System.antt =====
-- The service as a whole: the task dictionaries of the namespaces, the queue of jobs, and the pool.
-- Requests, the backend process, the workers and the cleaning interleave freely: a step relation.
pub mod Sound
pub mod Create
use smartlibs.Prelude.{
  ℕ, List, [], ◌∷◌, ◌++◌, ◌≡◌, Bool, true, false, Option, none, some, if◌then◌else◌, Eq-nat,
  Eq-list, is_empty,
}
use smartlibs.Text.{Text}
use smartlibs.Dict.{Dict, get, set}
use smartlibs.Manage.{
  TaskInfo, RunOpts, PoolResult, new_task, or_default, before_run, create_task_cb,
  flag_end_if_no_start,
}
use smartlibs.Manage.Cleaning.{clean_task_dict}

pub record Manager (O R E H : Type 0) : Type 0 where
  pub task_dicts : Dict Text (Dict Text (TaskInfo O R E H))
  -- The jobs that wait in the queue, those that the pool has, and the calls that have begun.
  pub jobs : List (TaskInfo O R E H)
  pub pool : List (TaskInfo O R E H)
  pub running : List (TaskInfo O R E H)
  pub end_flag : Bool

module _ {O R E H : Type 0} where
  -- `get_task_dict`: the empty text is also a namespace that is None.
  unfoldable pub get_task_dict : Manager O R E H → Text → Dict Text (TaskInfo O R E H)
  unfolding get
  get_task_dict m task_ns = or_default (get m.task_dicts task_ns) []

  abbrev pub put_task_dict : Manager O R E H → Text → Dict Text (TaskInfo O R E H) → Manager O R E H
  put_task_dict m task_ns task_dict = record m { task_dicts = set m.task_dicts task_ns task_dict }

  -- `create_task`, from the second look at the dictionary on, which is under the lock.
  unfoldable pub create_in :
      Manager O R E H
      → Text
      → Text
      → TaskInfo O R E H
      → Option (TaskInfo O R E H)
      → Manager O R E H × TaskInfo O R E H
  unfolding get_task_dict set
  create_in m task_ns task_id fresh (some task_info) = (m, task_info)
  create_in m task_ns task_id fresh none =
      let written = put_task_dict m task_ns (set (get_task_dict m task_ns) task_id fresh) in
      (record written { jobs = m.jobs ++ fresh ∷ [] }, fresh)

  unfoldable pub create_task :
      Manager O R E H
      → Text
      → Text
      → Text
      → Text
      → RunOpts O
      → Option H
      → ℕ
      → Text
      → Manager O R E H × TaskInfo O R E H
  unfolding create_in get_task_dict get
  create_task m given_id task_ns module_path name run_opts state_hook now uuid =
      let task_id : Text = if is_empty given_id then uuid else given_id in
      create_in m task_ns task_id
        (new_task task_id task_ns module_path name run_opts state_hook now)
        (get (get_task_dict m task_ns) task_id)

  -- A worker begins a job of the pool: `__before_run` of its call.
  unfoldable pub begin_job : Manager O R E H → TaskInfo O R E H → ℕ × ℕ → Text → Manager O R E H
  unfolding before_run get_task_dict
  begin_job m job pids log =
      put_task_dict m job.task_ns (before_run (get_task_dict m job.task_ns) job.task_id pids log).0

  -- The pool calls `_create_task_cb`, with `get`'s default for a namespace that is new.
  unfoldable pub finish_job :
      Manager O R E H → TaskInfo O R E H → PoolResult R E → ℕ → Manager O R E H
  unfolding create_task_cb get_task_dict
  finish_job m job task_result now =
      put_task_dict m job.task_ns
        (create_task_cb (get_task_dict m job.task_ns) job.task_id task_result now)

  unfoldable pub flag_job : Manager O R E H → Text → Text → Manager O R E H
  unfolding flag_end_if_no_start get_task_dict
  flag_job m task_ns task_id =
      put_task_dict m task_ns (flag_end_if_no_start (get_task_dict m task_ns) task_id).0

  unfoldable pub clean : Manager O R E H → Text → ℕ → ℕ → Manager O R E H
  unfolding clean_task_dict get_task_dict
  clean m task_ns ttl now =
      put_task_dict m task_ns (clean_task_dict (get_task_dict m task_ns) ttl now).0

  pub data Step (m : Manager O R E H) : Manager O R E H → Type 0 where
    create :
        (task_id task_ns module_path name uuid : Text) (run_opts : RunOpts O) (hook : Option H)
        (now : ℕ)
        → Step m (create_task m task_id task_ns module_path name run_opts hook now uuid).0
    -- `_backend_job` takes a job while the service has not ended.
    dispatch :
        (job : TaskInfo O R E H) (rest : List (TaskInfo O R E H))
        → m.end_flag ≡ false
        → m.jobs ≡ job ∷ rest
        → Step m (record m { jobs = rest; pool = m.pool ++ job ∷ [] })
    -- A call begins, unless the service has ended.
    begin :
        (job : TaskInfo O R E H) (before after : List (TaskInfo O R E H)) (pids : ℕ × ℕ)
        (log : Text)
        → m.pool ≡ before ++ job ∷ after
        → m.end_flag ≡ false
        → Step m (record (begin_job m job pids log) {
          pool = before ++ after;
          running = job ∷ m.running;
        })
    skip :
        (job : TaskInfo O R E H) (before after : List (TaskInfo O R E H))
        → m.pool ≡ before ++ job ∷ after
        → m.end_flag ≡ true
        → Step m (record m { pool = before ++ after; running = job ∷ m.running })
    finish :
        (job : TaskInfo O R E H) (before after : List (TaskInfo O R E H)) (result : PoolResult R E)
        (now : ℕ)
        → m.running ≡ before ++ job ∷ after
        → Step m (record (finish_job m job result now) { running = before ++ after })
    flag : (task_ns task_id : Text) → Step m (flag_job m task_ns task_id)
    clean_up : (task_ns : Text) (ttl now : ℕ) → Step m (clean m task_ns ttl now)
    close : Step m (record m { end_flag = true })

  pub data Reach (m : Manager O R E H) : Manager O R E H → Type 0 where
    here : Reach m m
    next : {n p : Manager O R E H} → Reach m n → Step n p → Reach m p

  abbrev pub initial : Manager O R E H
  initial = record { task_dicts = []; jobs = []; pool = []; running = []; end_flag = false }
