-- ===== src/Manage/System/Sound.antt =====
-- The invariant of the tasks, in every state that is reached.
use mathlib.Core.Path.{subst}
use smartlibs.Prelude.{
  ℕ, ◌+◌, List, [], ◌∷◌, ◌++◌, ◌≡◌, ◌↔◌, refl, ap, sym, ◌∙◌, Bool, true, false, Option, none, some,
  ◌==◌, if◌then◌else◌, Eq-nat, Eq-list, arith,
}
use smartlibs.Text.{Text}
use smartlibs.Dict.{Dict, get, set, del, get-set, get-del}
use smartlibs.Manage.{
  Stage, start, end, TaskInfo, RunOpts, PoolResult, response, pool_error, new_task, or_default,
  flagged, duplicate, began, started, before_info, write_back, before_run, finished, create_task_cb,
  flag_idle, flag_found, flag_end_if_no_start,
}
use smartlibs.Manage.Cleaning.{clean_task_dict, del_all, clean_task_ids}
use smartlibs.Manage.System.{
  Manager, get_task_dict, put_task_dict, create_in, create_task, begin_job, finish_job, flag_job,
  clean, Step, create, dispatch, begin, skip, finish, flag, clean_up, close, Reach, here, next,
  initial,
}

abbrev pub starts : List Stage → ℕ
starts [] = 0
starts (start ∷ stages) = starts stages + 1
starts (end ∷ stages) = starts stages

abbrev pub ends : List Stage → ℕ
ends [] = 0
ends (start ∷ stages) = ends stages
ends (end ∷ stages) = ends stages + 1

starts-append : (xs ys : List Stage) → starts (xs ++ ys) ≡ starts xs + starts ys
starts-append [] ys = omega arith
starts-append (start ∷ xs) ys = omega (arith, starts-append xs ys)
starts-append (end ∷ xs) ys = omega (arith, starts-append xs ys)

ends-append : (xs ys : List Stage) → ends (xs ++ ys) ≡ ends xs + ends ys
ends-append [] ys = omega arith
ends-append (start ∷ xs) ys = omega (arith, ends-append xs ys)
ends-append (end ∷ xs) ys = omega (arith, ends-append xs ys)

abbrev pub is_given {ℓ} : {A : Type ℓ} → Option A → Bool
is_given none = false
is_given (some a) = true

abbrev pub once : Bool → ℕ
once false = 0
once true = 1

module _ {O R E H : Type 0} where
  -- A task that is flagged to end has no process; its start is recorded once if it has a process, and
  -- not at all otherwise; it has a done flag and a time of completion exactly if an end is recorded.
  pub record IsSound (task_info : TaskInfo O R E H) : Type 0 where
    pub flagged_idle : task_info.flagged_end ≡ true → task_info.process ≡ none
    pub started_once : starts task_info.stage ≡ once (is_given task_info.process)
    pub done_ended : (is_given task_info.done_flag ≡ false) ↔ (ends task_info.stage ≡ 0)
    pub timed : is_given task_info.done_time ≡ is_given task_info.done_flag

  -- Every task of a dictionary, and of every dictionary.
  abbrev pub Tasks : Dict Text (TaskInfo O R E H) → Type 0
  Tasks task_dict =
      (task_id : Text) (task_info : TaskInfo O R E H)
      → get task_dict task_id ≡ some task_info
      → IsSound task_info

  abbrev pub AllTasks : Manager O R E H → Type 0
  AllTasks m = (task_ns : Text) → Tasks (get_task_dict m task_ns)

  new_task-IsSound :
      (task_id task_ns module_path name : Text) (run_opts : RunOpts O) (hook : Option H) (now : ℕ)
      → IsSound (new_task task_id task_ns module_path name run_opts hook now)
  new_task-IsSound task_id task_ns module_path name run_opts hook now = record {
    flagged_idle = λ e. refl;
    started_once = refl;
    done_ended = ground arith;
    timed = refl;
  }

  started-IsSound :
      (i : TaskInfo O R E H) (pids : ℕ × ℕ) (log : Text)
      → i.flagged_end ≡ false
      → i.process ≡ none
      → IsSound i
      → IsSound (started i pids log)
  started-IsSound i pids log f p h = record {
    flagged_idle = λ e. cc;
    started_once = ground (arith, h.started_once, starts-append i.stage (start ∷ []));
    done_ended = ground (arith, h.done_ended, ends-append i.stage (start ∷ []));
    timed = h.timed;
  }

  finished-IsSound :
      (i : TaskInfo O R E H) (r : PoolResult R E) (now : ℕ) → IsSound i → IsSound (finished i r now)
  unfolding finished
  finished-IsSound i (response r) now h = record {
    flagged_idle = h.flagged_idle;
    started_once = ground (arith, h.started_once, starts-append i.stage (end ∷ []));
    done_ended = ground (arith, ends-append i.stage (end ∷ []));
    timed = refl;
  }
  finished-IsSound i (pool_error e) now h = record {
    flagged_idle = h.flagged_idle;
    started_once = ground (arith, h.started_once, starts-append i.stage (end ∷ []));
    done_ended = ground (arith, ends-append i.stage (end ∷ []));
    timed = refl;
  }

  flagged-IsSound :
      (i : TaskInfo O R E H)
      → i.process ≡ none
      → IsSound i
      → IsSound (record i { flagged_end = true })
  flagged-IsSound i p h = record {
    flagged_idle = λ e. p;
    started_once = h.started_once;
    done_ended = h.done_ended;
    timed = h.timed;
  }

  set-Tasks :
      (task_dict : Dict Text (TaskInfo O R E H)) (k : Text) (i : TaskInfo O R E H)
      → Tasks task_dict
      → IsSound i
      → Tasks (set task_dict k i)
  set-Tasks task_dict k i h s j t e = by (k == j) (sym (get-set task_dict k j i) ∙ e)
    where
      by : (b : Bool) → (if b then some i else get task_dict j) ≡ some t → IsSound t
      by true f = let same : i ≡ t = cc in subst IsSound same s
      by false f = h j t f

  put-AllTasks :
      (m : Manager O R E H) (ns : Text) (task_dict : Dict Text (TaskInfo O R E H))
      → AllTasks m
      → Tasks task_dict
      → AllTasks (put_task_dict m ns task_dict)
  unfolding get_task_dict
  put-AllTasks m ns task_dict h s j t i e =
      by (ns == j)
        (ap (λ o. get (or_default o []) t) (sym (get-set m.task_dicts ns j task_dict)) ∙ e)
    where
      by :
          (b : Bool)
          → get (or_default (if b then some task_dict else get m.task_dicts j) []) t ≡ some i
          → IsSound i
      by true f = s t i f
      by false f = h j t i f

  -- What may be done to one dictionary by the steps.
  before_run-Tasks :
      (task_dict : Dict Text (TaskInfo O R E H)) (id : Text) (pids : ℕ × ℕ) (log : Text)
      → Tasks task_dict
      → Tasks (before_run task_dict id pids log).0
  unfolding before_run before_info
  before_run-Tasks task_dict id pids log h = by (get task_dict id) refl
    where
      from :
          (i : TaskInfo O R E H) (f : Bool) (p : Option (ℕ × ℕ))
          → get task_dict id ≡ some i
          → i.flagged_end ≡ f
          → i.process ≡ p
          → Tasks (
              write_back task_dict id (
                if f
                then flagged
                else elim p [ some _ ↦ duplicate | none ↦ began (started i pids log) ]))
      from i true p e g q = h
      from i false none e g q =
          set-Tasks task_dict id (started i pids log) h (started-IsSound i pids log g q (h id i e))
      from i false (some r) e g q = h

      by :
          (o : Option (TaskInfo O R E H))
          → get task_dict id ≡ o
          → Tasks (write_back task_dict id (before_info o pids log))
      by none e = h
      by (some i) e = from i i.flagged_end i.process e refl refl

  create_task_cb-Tasks :
      (task_dict : Dict Text (TaskInfo O R E H)) (id : Text) (r : PoolResult R E) (now : ℕ)
      → Tasks task_dict
      → Tasks (create_task_cb task_dict id r now)
  unfolding create_task_cb
  create_task_cb-Tasks task_dict id r now h = by (get task_dict id) refl
    where
      by :
          (o : Option (TaskInfo O R E H))
          → get task_dict id ≡ o
          → Tasks (elim o [ none ↦ task_dict | some i ↦ set task_dict id (finished i r now) ])
      by none e = h
      by (some i) e =
          set-Tasks task_dict id (finished i r now) h (finished-IsSound i r now (h id i e))

  flag_end-Tasks :
      (task_dict : Dict Text (TaskInfo O R E H)) (id : Text)
      → Tasks task_dict
      → Tasks (flag_end_if_no_start task_dict id).0
  unfolding flag_end_if_no_start
  flag_end-Tasks task_dict id h = by (get task_dict id) refl
    where
      from :
          (i : TaskInfo O R E H) (p : Option (ℕ × ℕ))
          → get task_dict id ≡ some i
          → i.process ≡ p
          → Tasks (flag_idle task_dict id i p).0
      from i none e q = set-Tasks task_dict id _ h (flagged-IsSound i q (h id i e))
      from i (some p) e q = h

      by :
          (o : Option (TaskInfo O R E H))
          → get task_dict id ≡ o
          → Tasks (flag_found task_dict id o).0
      by none e = h
      by (some i) e = from i i.process e refl

  del_all-Tasks :
      (ids : List Text) (task_dict : Dict Text (TaskInfo O R E H))
      → Tasks task_dict
      → Tasks (del_all task_dict ids)
  unfolding del_all
  del_all-Tasks [] task_dict h = h
  del_all-Tasks (k ∷ ids) task_dict h = del_all-Tasks ids (del task_dict k) without
    where
      without : Tasks (del task_dict k)
      without j t e = by (k == j) (sym (get-del task_dict k j) ∙ e)
        where
          by : (b : Bool) → (if b then none else get task_dict j) ≡ some t → IsSound t
          by true f = cc
          by false f = h j t f

  create_in-AllTasks :
      (m : Manager O R E H) (ns id : Text) (fresh : TaskInfo O R E H)
      (o : Option (TaskInfo O R E H))
      → AllTasks m
      → IsSound fresh
      → AllTasks (create_in m ns id fresh o).0
  unfolding create_in get_task_dict
  create_in-AllTasks m ns id fresh (some i) h s = h
  create_in-AllTasks m ns id fresh none h s =
      put-AllTasks m ns (set (get_task_dict m ns) id fresh) h
        (set-Tasks (get_task_dict m ns) id fresh (h ns) s)

  Step-AllTasks : {m n : Manager O R E H} → Step m n → AllTasks m → AllTasks n
  unfolding create_task begin_job finish_job flag_job clean clean_task_dict get_task_dict
  Step-AllTasks {m} (create id ns module_path name uuid opts hook now) h =
      create_in-AllTasks m ns _ _ _ h (new_task-IsSound _ ns module_path name opts hook now)
  Step-AllTasks (dispatch job rest e f) h = h
  Step-AllTasks {m} (begin job before after pids log e f) h =
      put-AllTasks m job.task_ns _ h
        (before_run-Tasks (get_task_dict m job.task_ns) job.task_id pids log (h job.task_ns))
  Step-AllTasks (skip job before after e f) h = h
  Step-AllTasks {m} (finish job before after r now e) h =
      put-AllTasks m job.task_ns _ h
        (create_task_cb-Tasks (get_task_dict m job.task_ns) job.task_id r now (h job.task_ns))
  Step-AllTasks {m} (flag ns id) h =
      put-AllTasks m ns _ h (flag_end-Tasks (get_task_dict m ns) id (h ns))
  Step-AllTasks {m} (clean_up ns ttl now) h =
      put-AllTasks m ns _ h
        (del_all-Tasks (clean_task_ids (get_task_dict m ns) ttl now) (get_task_dict m ns) (h ns))
  Step-AllTasks close h = h

  -- In every state that the service reaches, however requests, workers, callbacks and cleaning
  -- interleave: a task that is flagged to end has never got a process, the start of a task is recorded
  -- once if it has got one and never otherwise, and it has a done flag and a time of completion
  -- exactly if an end is recorded.
  pub Reach-IsSound :
      {m : Manager O R E H}
      → Reach initial m
      → (task_ns task_id : Text) (i : TaskInfo O R E H)
      → get (get_task_dict m task_ns) task_id ≡ some i
      → IsSound i
  Reach-IsSound r task_ns task_id i e = all r task_ns task_id i e
    where
      all : {m : Manager O R E H} → Reach initial m → AllTasks m
      all here = unfold get_task_dict get in λ ns id t f. cc
      all (next r step) = Step-AllTasks step (all r)
