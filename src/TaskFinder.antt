-- ===== src/TaskFinder.antt =====
-- smart/auto/parser/tools.py: `TaskFinder`, which finds a task by its name, an alias or its base name.
pub mod Load
pub mod Find
pub mod Method
mod Samples
use smartlibs.Prelude.{
  ℕ, List, [], ◌∷◌, ◌++◌, Bool, true, false, not, ◌&&◌, ◌||◌, Option, none, some, ◌==◌,
  if◌then◌else◌, Eq-nat, Eq-list, is_empty, contains,
}
use smartlibs.Text.{Text, rsplit_once, starts_with}
use smartlibs.Dict.{Dict, get, set, has}

-- What the finder reads of a task's dictionary: its `class`, empty where there is none, and its
-- `alias` (one name is a list of one). What else it holds has the type D.
pub record TaskDict (D : Type 0) : Type 0 where
  pub class_path : Text
  pub alias : List Text
  pub content : D

pub record Finder (D : Type 0) : Type 0 where
  pub task_map : Dict Text (TaskDict D)
  pub task_base_name_map : Dict Text (List Text)
  pub task_alias_map : Dict Text Text

unfoldable pub ends_with_two : Text → Bool
ends_with_two [] = false
ends_with_two (a ∷ []) = false
ends_with_two (a ∷ b ∷ []) = a == b'_' && b == b'_'
ends_with_two (a ∷ b ∷ c ∷ t) = ends_with_two (b ∷ c ∷ t)

-- `key.startswith('__') and key.endswith('__')`
unfoldable pub is_private_key : Text → Bool
unfolding starts_with ends_with_two
is_private_key key = starts_with (b'_' ∷ b'_' ∷ []) key && ends_with_two key

unfoldable pub add_aliases : Text → List Text → Dict Text Text → Dict Text Text
unfolding set
add_aliases name [] m = m
add_aliases name (alias ∷ aliases) m =
    add_aliases name aliases (if is_empty alias then m else set m alias name)

-- The namespace and the base name: `name.rsplit('.', 1)`, padded on the left.
unfoldable pub base_names : Text → Text × Text
unfolding rsplit_once
base_names name = elim (rsplit_once b'.' name) [ none ↦ ([], name) | some pair ↦ pair ]

-- `m[base].append(name)`, on a new list where there is none.
unfoldable pub append_name : Dict Text (List Text) → Text → Text → Dict Text (List Text)
unfolding get set
append_name m base name = elim (get m base) [
  | none ↦ set m base (name ∷ [])
  | some names ↦ set m base (names ++ name ∷ [])
]

unfoldable pub add_base_name : Text → Dict Text (List Text) → Dict Text (List Text)
unfolding append_name base_names
add_base_name name m =
    let (ns, base) = base_names name in if is_empty ns then m else append_name m base name

-- What is found: the dictionary, as `task_map.get` gives it, and the full name.
abbrev pub Found : Type 0 → Type 0
Found D = Option (Option (TaskDict D) × Text)

-- `parse_task_method`: what is found, with the task name and the method name.
abbrev pub Parsed : Type 0 → Type 0
Parsed D = Found D × Text × Option Text

module _ {D : Type 0} where
  -- The entries that the load keeps.
  unfoldable pub is_task : Text → TaskDict D → Bool
  unfolding is_private_key
  is_task name task_dict = not (is_private_key name || is_empty task_dict.class_path)

  unfoldable pub add_task : Finder D → Text × TaskDict D → Finder D
  unfolding is_task add_aliases add_base_name set
  add_task f (name, task_dict) =
      if is_task name task_dict
      then record {
        task_map = set f.task_map name task_dict;
        task_base_name_map = add_base_name name f.task_base_name_map;
        task_alias_map = add_aliases name task_dict.alias f.task_alias_map;
      }
      else f

  unfoldable pub add_tasks : Finder D → Dict Text (TaskDict D) → Finder D
  unfolding add_task
  add_tasks f [] = f
  add_tasks f (entry ∷ entries) = add_tasks (add_task f entry) entries

  abbrev pub empty_finder : Finder D
  empty_finder = record { task_map = []; task_base_name_map = []; task_alias_map = [] }

  unfoldable pub load_task_map : Dict Text (TaskDict D) → Finder D
  unfolding add_tasks
  load_task_map task_map = add_tasks empty_finder task_map

  unfoldable pub by_base_name : Finder D → Option (List Text) → Found D
  unfolding get
  by_base_name f (some (name ∷ [])) = some (get f.task_map name, name)
  by_base_name f _ = none

  unfoldable pub by_alias : Finder D → Text → Option Text → Found D
  unfolding by_base_name get
  by_alias f task_name (some name) = some (get f.task_map name, name)
  by_alias f task_name none = by_base_name f (get f.task_base_name_map task_name)

  unfoldable pub find_task_dict : Finder D → Text → Found D
  unfolding by_alias get
  find_task_dict f task_name = elim (get f.task_map task_name) [
    | some task_dict ↦ some (some task_dict, task_name)
    | none ↦ by_alias f task_name (get f.task_alias_map task_name)
  ]

  -- The second try, with the whole key as the name of a task.
  abbrev pub whole_key : Text → Text → Text → Found D → Parsed D
  whole_key task_key task_name func_name none = (none, task_name, some func_name)
  whole_key task_key task_name func_name (some (d, [])) = (some (d, []), task_name, some func_name)
  whole_key task_key task_name func_name (some (d, c ∷ cs)) = (some (d, c ∷ cs), task_key, none)

  abbrev pub first_try : Finder D → Text → Text → Text → Found D → Parsed D
  first_try f task_key task_name func_name none =
      whole_key task_key task_name func_name (find_task_dict f task_key)
  first_try f task_key task_name func_name (some found) = (some found, task_name, some func_name)

  unfoldable pub parse_task_method : Finder D → Text → Parsed D
  unfolding find_task_dict rsplit_once
  parse_task_method f task_key = elim (rsplit_once b'.' task_key) [
    | none ↦ (find_task_dict f task_key, task_key, none)
    | some (task_name, func_name) ↦
        first_try f task_key task_name func_name (find_task_dict f task_name)
  ]
