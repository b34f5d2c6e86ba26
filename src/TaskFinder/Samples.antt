-- ===== src/TaskFinder/Samples.antt =====
-- A small task map.
use smartlibs.Prelude.{ℕ, List, [], ◌∷◌, ◌≡◌, refl, true, none, some}
use smartlibs.Text.{Text}
use smartlibs.Dict.{Dict}
use smartlibs.TaskFinder.{TaskDict, load_task_map, find_task_dict}
use smartlibs.TaskFinder.Load.{entry_of}
use smartlibs.TaskFinder.Find.{policy, is_some, find_task_dict-policy, find_task_dict_sound}

abbrev t : Text
t = b't' ∷ []

abbrev u : Text
u = b'u' ∷ []

abbrev nt : Text
nt = b'n' ∷ b'.' ∷ b't' ∷ []

abbrev task_dict : List Text → ℕ → TaskDict ℕ
task_dict alias content = record { class_path = b'C' ∷ []; alias = alias; content = content }

-- "n.t" with the alias "u", and "x" without a class.
abbrev tasks : Dict Text (TaskDict ℕ)
tasks =
    (nt, task_dict (u ∷ []) 1)
    ∷ (b'x' ∷ [], record { class_path = []; alias = []; content = 2 })
    ∷ []

by_alias : find_task_dict (load_task_map tasks) u ≡ some (some (task_dict (u ∷ []) 1), nt)
unfolding find_task_dict load_task_map
by_alias = refl

by_base : find_task_dict (load_task_map tasks) t ≡ some (some (task_dict (u ∷ []) 1), nt)
unfolding find_task_dict load_task_map
by_base = refl

no_class : find_task_dict (load_task_map tasks) (b'x' ∷ []) ≡ none
unfolding find_task_dict load_task_map
no_class = refl

policy_example : find_task_dict (load_task_map tasks) t ≡ policy tasks t (entry_of tasks t)
policy_example = find_task_dict-policy tasks t

sound_example :
    (some (task_dict (u ∷ []) 1) ≡ entry_of tasks nt)
    × (is_some (some (task_dict (u ∷ []) 1)) ≡ true)
sound_example = find_task_dict_sound tasks t nt (some (task_dict (u ∷ []) 1)) by_base
