-- ===== src/Manage/Cleaning.antt =====
-- `clean_task_dict`, which removes the tasks that have been done for longer than a time to live, and
-- `end_task`.
use smartlibs.Prelude.{
  ℕ, ◌+◌, List, [], ◌∷◌, Bool, true, false, not, ◌&&◌, Option, none, some, ◌==◌, if◌then◌else◌, ltb,
  Eq-nat, Eq-list, contains,
}
use smartlibs.Text.{Text}
use smartlibs.Dict.{Dict, del}
use smartlibs.Manage.{TaskInfo}

-- `done_time and done_time > now - ttl`
abbrev pub in_ttl : ℕ → ℕ → Option ℕ → Bool
in_ttl ttl now none = false
in_ttl ttl now (some done_time) = not (done_time == 0) && ltb now (done_time + ttl)

module _ {O R E H : Type 0} where
  -- Whether the loop collects a task's identifier.
  abbrev pub is_expired : ℕ → ℕ → TaskInfo O R E H → Bool
  is_expired ttl now task_info = elim (task_info.done_flag) [
    | none ↦ false
    | some _ ↦ not (in_ttl ttl now task_info.done_time)
  ]

  unfoldable pub clean_task_ids : Dict Text (TaskInfo O R E H) → ℕ → ℕ → List Text
  clean_task_ids [] ttl now = []
  clean_task_ids ((task_id, task_info) ∷ rest) ttl now =
      let ids = clean_task_ids rest ttl now in
      if is_expired ttl now task_info then task_id ∷ ids else ids

  -- `del task_dict[task_id]` for each, where a KeyError is passed over.
  unfoldable pub del_all : Dict Text (TaskInfo O R E H) → List Text → Dict Text (TaskInfo O R E H)
  unfolding del
  del_all task_dict [] = task_dict
  del_all task_dict (task_id ∷ ids) = del_all (del task_dict task_id) ids

  unfoldable pub clean_task_dict :
      Dict Text (TaskInfo O R E H) → ℕ → ℕ → Dict Text (TaskInfo O R E H) × List Text
  unfolding clean_task_ids del_all
  clean_task_dict task_dict ttl now =
      let ids = clean_task_ids task_dict ttl now in (del_all task_dict ids, ids)

-- No key stands twice.
abbrev pub distinct : List Text → Bool
distinct [] = true
distinct (k ∷ ks) = not (contains k ks) && distinct ks

module _ {O R E H : Type 0} where
  -- What the cleaning leaves of what was read of a task.
  abbrev pub kept : ℕ → ℕ → Option (TaskInfo O R E H) → Option (TaskInfo O R E H)
  kept ttl now none = none
  kept ttl now (some task_info) = if is_expired ttl now task_info then none else some task_info

  abbrev pub expired_at : ℕ → ℕ → Option (TaskInfo O R E H) → Bool
  expired_at ttl now none = false
  expired_at ttl now (some task_info) = is_expired ttl now task_info
