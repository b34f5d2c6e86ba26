-- ===== src/TaskKey/Samples.antt =====
-- The keys of a task `t` with a method `m`.
use smartlibs.Prelude.{
  ℕ, [], ◌∷◌, ◌++◌, ◌≡◌, ◌⊎◌, refl, Bool, true, false, ◌&&◌, none, some, leb, Eq-nat, Eq-list,
}
use smartlibs.Text.{Text}
use smartlibs.TaskFinder.{TaskDict, Finder, load_task_map}
use smartlibs.TaskKey.{parse_task_key_info, has_name, find_task_info}
use smartlibs.TaskKey.Parts.{render, ext_mark, parse_task_key_info-render}

abbrev is_digit : ℕ → Bool
is_digit c = leb b'0' c && leb c b'9'

abbrev t : Text
t = b't' ∷ []

abbrev the_task : TaskDict ℕ
the_task = record { class_path = b'C' ∷ []; alias = []; content = 1 }

abbrev finder : Finder ℕ
finder = load_task_map ((t, the_task) ∷ [])

-- `t.m$2`
abbrev method_key : Text
method_key = b't' ∷ b'.' ∷ b'm' ∷ b'$' ∷ b'2' ∷ []

method_parts : parse_task_key_info finder is_digit method_key ≡ record {
  cls_key = t;
  func_name = some (b'm' ∷ []);
  func_name_tail = some (b'$' ∷ b'2' ∷ []);
  is_ext = false;
  task = some (the_task, t);
}
unfolding parse_task_key_info load_task_map
method_parts = refl

-- `t.@x`
ext_parts : parse_task_key_info finder is_digit (b't' ∷ b'.' ∷ b'@' ∷ b'x' ∷ []) ≡ record {
  cls_key = t;
  func_name = some (b'x' ∷ []);
  func_name_tail = none;
  is_ext = true;
  task = some (the_task, t);
}
unfolding parse_task_key_info load_task_map
ext_parts = refl

key_example :
    let info = parse_task_key_info finder is_digit method_key in
    ((render info ≡ method_key) ⊎ (render info ++ ext_mark ≡ method_key))
    × (has_name finder info.task ≡ true → find_task_info finder info.cls_key ≡ info.task)
key_example = parse_task_key_info-render finder is_digit method_key
