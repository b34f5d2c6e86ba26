-- ===== src/Trees/Samples.antt =====
-- A tree of two tasks, and a task that fails on its second item.
use smartlibs.Prelude.{ℕ, List, [], ◌∷◌, ◌++◌, ◌≡◌, true, false, none, Eq-nat, Eq-list}
use smartlibs.Text.{Text}
use smartlibs.Trees.{TreeContext, TreeTask, TreePod}
use smartlibs.Trees.Replay.{run_all, pending, run_all-pending}

abbrev key : Text
key = b'k' ∷ []

abbrev other : Text
other = b'o' ∷ []

abbrev ctx : TreeContext
ctx = record { before_task = true; flags = [] }

-- The second hook stops the first task, not the tree.
abbrev tasks : List TreeTask
tasks =
    record { task_key = key; stops = [] }
    ∷ record { task_key = other; stops = (key, false) ∷ [] }
    ∷ []

abbrev pod : TreePod
pod = record { started = false; context = ctx; deeds = [] }

abbrev left_over : List ℕ
left_over = let e = run_all 1 none (5 ∷ 6 ∷ 7 ∷ []) (1 ∷ 9 ∷ []) in e.0 ++ pending e.1.0 e.1.1

replay_example : left_over ≡ 5 ∷ 6 ∷ 7 ∷ []
replay_example = run_all-pending 1 (5 ∷ 6 ∷ 7 ∷ []) (1 ∷ 9 ∷ [])
