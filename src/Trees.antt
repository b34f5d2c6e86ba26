-- ===== src/Trees.antt =====
-- Task trees: the stop flags of smart/auto/ctx/tree_context.py, the start of smart/auto/exec/tree_pod.py,
-- and in Trees.Replay the receiver of smart/auto/util/task_util.py.
pub mod Flags
pub mod Replay
mod Samples
use smartlibs.Prelude.{
  List, [], ◌∷◌, ◌++◌, Bool, true, false, not, ◌&&◌, ◌||◌, Option, none, some, ◌==◌, if◌then◌else◌,
  contains, Comparable, is_empty, Eq-nat, Eq-list,
}
use smartlibs.Text.{Text}

-- The name of a flag in the dictionary `__state__`.
pub data StopFlag : Type 0 where
  stop_tree : StopFlag
  stop_task_flag : Text → StopFlag

-- The context of a tree: whether it runs the `before_task` hooks, and the flags that are set.
pub record TreeContext : Type 0 where
  pub before_task : Bool
  pub flags : List StopFlag

abbrev pub same_flag : StopFlag → StopFlag → Bool
same_flag stop_tree stop_tree = true
same_flag (stop_task_flag k) (stop_task_flag j) = k == j
same_flag _ _ = false

unfoldable pub has_flag : List StopFlag → StopFlag → Bool
has_flag [] flag = false
has_flag (f ∷ flags) flag = same_flag f flag || has_flag flags flag

-- The flag that a call of `stop_task` names; an empty key names none.
unfoldable pub flag_name : Text → Bool → Option StopFlag
flag_name task_key end_all =
    if end_all
    then some stop_tree
    else if is_empty task_key
    then none
    else some (stop_task_flag task_key)

unfoldable pub stop_task : TreeContext → Text → Bool → TreeContext
unfolding flag_name
stop_task ctx task_key end_all = elim (flag_name task_key end_all) [
  | none ↦ ctx
  | some flag ↦ if ctx.before_task then record ctx { flags = flag ∷ ctx.flags } else ctx
]

unfoldable pub is_stop_task : TreeContext → Text → Bool → Bool
unfolding has_flag
is_stop_task ctx task_key end_all =
    not (is_empty task_key) && has_flag ctx.flags (stop_task_flag task_key)
    || end_all && has_flag ctx.flags stop_tree

-- What the start of a pod does, in order.
pub data Deed : Type 0 where
  hooked : Text → Deed
  executed : Text → Deed

-- A task of a tree: its key, and the calls of `stop_task` that its `before_task` hook makes, each by
-- its task key and `end_all`.
pub record TreeTask : Type 0 where
  pub task_key : Text
  pub stops : List (Text × Bool)

pub record TreePod : Type 0 where
  pub started : Bool
  pub context : TreeContext
  pub deeds : List Deed

unfoldable pub run_stops : List (Text × Bool) → TreeContext → TreeContext
unfolding stop_task
run_stops [] ctx = ctx
run_stops ((key, end_all) ∷ stops) ctx = run_stops stops (stop_task ctx key end_all)

-- The `before_task` hooks of all tasks.
unfoldable pub run_hooks : List TreeTask → TreePod → TreePod
unfolding run_stops
run_hooks [] pod = pod
run_hooks (t ∷ tasks) pod = run_hooks tasks (record pod {
  context = run_stops t.stops pod.context;
  deeds = pod.deeds ++ hooked t.task_key ∷ [];
})

unfoldable pub exec_all : List TreeTask → TreePod → TreePod
exec_all [] pod = pod
exec_all (t ∷ tasks) pod =
    exec_all tasks (record pod { deeds = pod.deeds ++ executed t.task_key ∷ [] })

unfoldable pub start : List TreeTask → TreePod → TreePod
unfolding run_hooks exec_all is_stop_task
start tasks pod =
    if pod.started
    then pod
    else let ready = run_hooks tasks (record pod { started = true }) in
      if is_stop_task ready.context [] true then ready else exec_all tasks ready
