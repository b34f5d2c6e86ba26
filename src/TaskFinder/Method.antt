-- ===== src/TaskFinder/Method.antt =====
-- `parse_task_method`: a task key is a task and a method of it, or a task alone.
use smartlibs.Prelude.{
  [], ◌∷◌, ◌++◌, ◌≡◌, refl, false, Option, none, some, Eq-nat, is_empty, contains,
}
use smartlibs.Text.{Text, rsplit_once-append}
use smartlibs.TaskFinder.{TaskDict, Finder, Found, find_task_dict, whole_key, parse_task_method}

module _ {D : Type 0} where
  dotted :
      (f : Finder D) (task method : Text) (r : Found D) (w : Found D)
      → contains b'.' method ≡ false
      → find_task_dict f task ≡ r
      → find_task_dict f (task ++ b'.' ∷ method) ≡ w
      → parse_task_method f (task ++ b'.' ∷ method) ≡ elim r [
        | none ↦ whole_key (task ++ b'.' ∷ method) task method w
        | some found ↦ (some found, task, some method)
      ]
  unfolding parse_task_method
  dotted f task method none w h e k =
      rw (parse_task_method, rsplit_once-append b'.' task method h, e, k) refl
  dotted f task method (some r) w h e k =
      rw (parse_task_method, rsplit_once-append b'.' task method h, e) refl

  -- A key that is a task name and a method name without a dot: where the task name is found, the
  -- method is that of the task found; where it is not, a task that is found by the whole key under a
  -- name that is not empty stands alone, without a method; and where neither is found, nothing is.
  pub parse_task_method-cases :
      (f : Finder D) (task method : Text)
      → contains b'.' method ≡ false
      → ((o : Option (TaskDict D)) (name : Text)
          → find_task_dict f task ≡ some (o, name)
          → parse_task_method f (task ++ b'.' ∷ method) ≡ (some (o, name), task, some method))
        × ((o : Option (TaskDict D)) (name : Text)
            → find_task_dict f task ≡ none
            → find_task_dict f (task ++ b'.' ∷ method) ≡ some (o, name)
            → is_empty name ≡ false
            → parse_task_method f (task ++ b'.' ∷ method)
              ≡ (some (o, name), task ++ b'.' ∷ method, none))
        × (find_task_dict f task ≡ none
            → find_task_dict f (task ++ b'.' ∷ method) ≡ none
            → parse_task_method f (task ++ b'.' ∷ method) ≡ (none, task, some method))
  parse_task_method-cases f task method h = (
    λ o name e. dotted f task method (some (o, name)) _ h e refl,
    alone,
    λ e k. dotted f task method none none h e k,
  )
    where
      alone :
          (o : Option (TaskDict D)) (name : Text)
          → find_task_dict f task ≡ none
          → find_task_dict f (task ++ b'.' ∷ method) ≡ some (o, name)
          → is_empty name ≡ false
          → parse_task_method f (task ++ b'.' ∷ method)
            ≡ (some (o, name), task ++ b'.' ∷ method, none)
      alone o [] e k q = cc
      alone o (c ∷ cs) e k q = dotted f task method none (some (o, c ∷ cs)) h e k
