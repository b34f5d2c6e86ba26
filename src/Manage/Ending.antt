-- ===== src/Manage/Ending.antt =====
-- smart/aaas/auto_manage.py: `end_task` and `end_all_ns_task`, which `close` calls for every namespace.
use smartlibs.Prelude.{
  ℕ, List, [], ◌∷◌, ◌++◌, ◌≡◌, refl, Bool, true, false, none, some, ◌==◌, arith, if◌then◌else◌,
  Eq-nat, Eq-list,
}
use smartlibs.Text.{Text}
use smartlibs.Dict.{Dict, get, keys}
use smartlibs.Manage.{TaskInfo}

-- What ending a task comes to: 0 for a task that is not there, 1 for one that is done, 2 with the
-- process that gets SIGINT, or 2 where the process has no number. For a task that has not started the
-- code reads `self.auto_manage`, which no manager has: an AttributeError.
pub data Ended : Type 0 where
  missing done_already no_pid attribute_error : Ended
  killed : ℕ → Ended

-- One more task of the loop, whose error ends it.
abbrev pub and_then : Ended → List ℕ × Bool → List ℕ × Bool
and_then (killed pid) (pids, raised) = (pid ∷ pids, raised)
and_then attribute_error rest = ([], true)
and_then _ rest = rest

module _ {O R E H : Type 0} where
  unfoldable pub end_found : TaskInfo O R E H → Ended
  end_found task_info = elim (task_info.done_flag) [
    | some _ ↦ done_already
    | none ↦ elim (task_info.process) [
      | none ↦ attribute_error
      | some pids ↦ if pids.0 == 0 then no_pid else killed pids.0
    ]
  ]

  unfoldable pub end_task : Dict Text (TaskInfo O R E H) → Text → Ended
  unfolding end_found get
  end_task task_dict task_id = elim (get task_dict task_id) [
    | none ↦ missing
    | some task_info ↦ end_found task_info
  ]

  -- The processes that get SIGINT, in order, and whether the loop ends with an error.
  unfoldable pub end_tasks : Dict Text (TaskInfo O R E H) → List Text → List ℕ × Bool
  unfolding end_task
  end_tasks task_dict [] = ([], false)
  end_tasks task_dict (task_id ∷ ids) =
      let rest = end_tasks task_dict ids in and_then (end_task task_dict task_id) rest

  unfoldable pub end_all_ns_task : Dict Text (TaskInfo O R E H) → List ℕ × Bool
  unfolding end_tasks
  end_all_ns_task task_dict = end_tasks task_dict (keys task_dict)

  -- The processes of the tasks that run.
  abbrev pub running_pids : Dict Text (TaskInfo O R E H) → List Text → List ℕ
  running_pids task_dict [] = []
  running_pids task_dict (task_id ∷ ids) =
      let rest = running_pids task_dict ids in
      elim (end_task task_dict task_id) [ killed pid ↦ pid ∷ rest | _ ↦ rest ]

  abbrev pub is_waiting : Dict Text (TaskInfo O R E H) → Text → Bool
  is_waiting task_dict task_id = elim (end_task task_dict task_id) [
    | attribute_error ↦ true
    | _ ↦ false
  ]

  abbrev pub any_waiting : Dict Text (TaskInfo O R E H) → List Text → Bool
  any_waiting task_dict [] = false
  any_waiting task_dict (task_id ∷ ids) =
      if is_waiting task_dict task_id then true else any_waiting task_dict ids

  -- Without a task that has not started, every running task is ended.
  pub end_tasks-running :
      (task_dict : Dict Text (TaskInfo O R E H)) (ids : List Text)
      → any_waiting task_dict ids ≡ false
      → end_tasks task_dict ids ≡ (running_pids task_dict ids, false)
  unfolding end_tasks
  end_tasks-running task_dict [] h = refl
  end_tasks-running task_dict (task_id ∷ ids) h = ground (arith, h, end_tasks-running task_dict ids)

  -- The first task that has not started ends the loop with an error: the tasks behind it are not ended.
  pub end_tasks-aborted :
      (task_dict : Dict Text (TaskInfo O R E H)) (before : List Text) (task_id : Text)
      (behind : List Text)
      → any_waiting task_dict before ≡ false
      → is_waiting task_dict task_id ≡ true
      → end_tasks task_dict (before ++ task_id ∷ behind) ≡ (running_pids task_dict before, true)
  unfolding end_tasks
  end_tasks-aborted task_dict [] task_id behind h w = ground (arith, w)
  end_tasks-aborted task_dict (i ∷ before) task_id behind h w =
      ground (arith, h, end_tasks-aborted task_dict before task_id behind, w)
