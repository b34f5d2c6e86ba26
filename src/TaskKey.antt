-- ===== src/TaskKey.antt =====
-- smart/auto/meta.py (`TaskKeyInfo`) and smart/auto/parser/task.py (`parse_task_key_info`): the parts of
-- a task key, which are the key of a class, a function of it or, behind `.@`, an extension, and a tail
-- such as `$2` that tells apart the tasks of a tree with one function.
pub mod Parts
mod Samples
use smartlibs.Prelude.{
  ℕ, List, [], ◌∷◌, ◌++◌, Bool, true, false, not, ◌&&◌, ◌||◌, Option, none, some, ◌==◌,
  if◌then◌else◌, Eq-nat, Eq-list, is_empty,
}
use smartlibs.Text.{Text, rsplit_once}
use smartlibs.TaskFinder.{TaskDict, Finder, Found, find_task_dict}

-- The parts of a text in two, the first of them with another character in front.
abbrev pub cons_first : ℕ → Option (Text × Text) → Option (Text × Text)
cons_first c none = none
cons_first c (some (a, b)) = some (c ∷ a, b)

-- `text.split('.@', 1)`, where there is a `.@`.
unfoldable pub split_ext : Text → Option (Text × Text)
split_ext [] = none
split_ext (c ∷ []) = none
split_ext (c ∷ d ∷ t) =
    let rest = split_ext (d ∷ t) in
    if c == b'.' && d == b'@' then some ([], t) else cons_first c rest

abbrev pub or_none : Option Text → Text
or_none none = []
or_none (some t) = t

-- Which characters `\d` matches is an argument.
module _ (is_digit : ℕ → Bool) where
  -- `\d*$`: digits to the end, or to a line feed that ends the text.
  unfoldable pub digits_end : Text → Bool
  digits_end [] = true
  digits_end (c ∷ t) = let rest = digits_end t in (is_digit c && rest) || (c == b'\n' && is_empty t)

  -- `\$\d+$` at the beginning of a text.
  unfoldable pub is_tail : Text → Bool
  unfolding digits_end
  is_tail [] = false
  is_tail (c ∷ []) = false
  is_tail (c ∷ d ∷ t) = c == b'$' && is_digit d && digits_end t

  -- Where the search finds a tail: what stands before it, and the tail.
  unfoldable pub find_tail : Text → Option (Text × Text)
  unfolding is_tail
  find_tail [] = none
  find_tail (c ∷ t) =
      let rest = find_tail t in if is_tail (c ∷ t) then some ([], c ∷ t) else cons_first c rest

  abbrev pub with_tail : Text → Option (Text × Text) → Text × Option Text
  with_tail func_key none = (func_key, none)
  with_tail func_key (some (name, tail)) = (name, some tail)

  -- `parse_func_name_tail`
  unfoldable pub parse_func_name_tail : Text → Text × Option Text
  unfolding find_tail
  parse_func_name_tail func_key = with_tail func_key (find_tail func_key)

-- The fields of a TaskKeyFullInfo: `is_ext` is the `func_key_type` that is `@`.
pub record KeyInfo (D : Type 0) : Type 0 where
  pub cls_key : Text
  pub func_name : Option Text
  pub func_name_tail : Option Text
  pub is_ext : Bool
  pub task : Option (TaskDict D × Text)

-- The property `func_key`.
unfoldable pub func_key : {D : Type 0} → KeyInfo D → Text
func_key info = or_none info.func_name ++ or_none info.func_name_tail

module _ {D : Type 0} (f : Finder D) where
  abbrev pub with_class : Found D → Option (TaskDict D × Text)
  with_class none = none
  with_class (some (none, name)) = none
  with_class (some (some task_dict, name)) =
      if is_empty task_dict.class_path then none else some (task_dict, name)

  -- `__find_task_info_tuple`, without the load of the class.
  unfoldable pub find_task_info : Text → Option (TaskDict D × Text)
  unfolding find_task_dict
  find_task_info task_name = with_class (find_task_dict f task_name)

  -- Python's truth value of the name.
  abbrev pub has_name : Option (TaskDict D × Text) → Bool
  has_name none = false
  has_name (some (task_dict, name)) = not (is_empty name)

  -- The branch of a key without an extension, by its last dot.
  unfoldable pub by_last_dot : Text → Option Text → Option (Text × Text) → KeyInfo D
  unfolding find_task_info
  by_last_dot base tail none = record {
    cls_key = base;
    func_name = none;
    func_name_tail = tail;
    is_ext = false;
    task = find_task_info base;
  }
  by_last_dot base tail (some (cls_key, func_name)) =
      let first = find_task_info cls_key in
      let second = find_task_info base in
      if has_name first || base == cls_key
      then record {
        cls_key = cls_key;
        func_name = some func_name;
        func_name_tail = tail;
        is_ext = false;
        task = first;
      }
      else if has_name second
      then record {
        cls_key = base;
        func_name = none;
        func_name_tail = tail;
        is_ext = false;
        task = second;
      }
      else record {
        cls_key = cls_key;
        func_name = some func_name;
        func_name_tail = tail;
        is_ext = false;
        task = second;
      }

  module _ (is_digit : ℕ → Bool) where
    unfoldable pub plain_key : Text → KeyInfo D
    unfolding by_last_dot parse_func_name_tail rsplit_once
    plain_key task_key =
        let (base, tail) = parse_func_name_tail is_digit task_key in
        by_last_dot base tail (rsplit_once b'.' base)

    abbrev pub by_ext : Text → Option (Text × Text) → KeyInfo D
    by_ext task_key none = plain_key task_key
    by_ext task_key (some (base, [])) = plain_key base
    by_ext task_key (some (base, c ∷ ext)) =
        let (func_name, tail) = parse_func_name_tail is_digit (c ∷ ext) in
        record {
          cls_key = base;
          func_name = some func_name;
          func_name_tail = tail;
          is_ext = true;
          task = find_task_info base;
        }

    unfoldable pub parse_task_key_info : Text → KeyInfo D
    unfolding plain_key split_ext parse_func_name_tail find_task_info
    parse_task_key_info task_key = by_ext task_key (split_ext task_key)
