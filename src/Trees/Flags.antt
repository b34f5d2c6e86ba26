-- ===== src/Trees/Flags.antt =====
-- What the stop flags do to the start of a tree.
use smartlibs.Prelude.{
  List, [], ◌∷◌, ◌≡◌, Bool, false, not, ◌&&◌, ◌||◌, ◌==◌, arith, if◌then◌else◌, is_empty, Eq-nat,
  Eq-list,
}
use smartlibs.Text.{Text}
use smartlibs.Trees.{TreeContext, has_flag, flag_name, stop_task, is_stop_task, TreeTask}

-- A stop of the whole tree, or of a task with a key, is seen by those that ask for it, if it is made
-- in a `before_task` hook, and changes no other answer; made later it changes none.
pub is_stop_task-stop_task :
    (ctx : TreeContext) (key : Text) (end_all : Bool) (asked : Text) (asked_all : Bool)
    → is_stop_task (stop_task ctx key end_all) asked asked_all ≡ (
        is_stop_task ctx asked asked_all
        || ctx.before_task && (if end_all then asked_all else not (is_empty key) && key == asked))
unfolding is_stop_task stop_task flag_name has_flag
is_stop_task-stop_task ctx [] end_all [] asked_all = ground arith
is_stop_task-stop_task ctx [] end_all (a ∷ asked) asked_all = ground arith
is_stop_task-stop_task ctx (k ∷ key) end_all [] asked_all = ground arith
is_stop_task-stop_task ctx (k ∷ key) end_all (a ∷ asked) asked_all = ground arith

-- Some hook stops the whole tree.
abbrev pub stops_tree : List (Text × Bool) → Bool
stops_tree [] = false
stops_tree ((key, end_all) ∷ stops) = end_all || stops_tree stops

abbrev pub any_stops : List TreeTask → Bool
any_stops [] = false
any_stops (t ∷ tasks) = stops_tree t.stops || any_stops tasks
