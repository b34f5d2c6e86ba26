-- ===== src/TaskFinder/Load.antt =====
-- What the three maps of a loaded finder hold, by a description of the task map alone.
use smartlibs.Prelude.{
  List, [], ◌∷◌, ◌++◌, ◌≡◌, refl, sym, ap, ◌∙◌, Bool, not, ◌&&◌, Option, none, some, ◌==◌,
  if◌then◌else◌, Eq-nat, Eq-list, list_eq_iff, is_empty, contains, arith, append-nil, append_assoc,
}
use smartlibs.Text.{Text}
use smartlibs.Dict.{Dict, get, set, get-set}
use smartlibs.TaskFinder.{
  TaskDict, Finder, is_task, add_aliases, base_names, append_name, add_base_name, add_task,
  add_tasks, load_task_map, empty_finder,
}

-- The last entry wins.
abbrev pub or_before {ℓ} : {A : Type ℓ} → Option A → Option A → Option A
or_before (some a) before = some a
or_before none before = before

or_before_assoc {ℓ} :
    {A : Type ℓ} (a b c : Option A) → or_before (or_before a b) c ≡ or_before a (or_before b c)
or_before_assoc (some a) b c = refl
or_before_assoc none b c = refl

-- The full names that a base name stands for.
abbrev pub names_at : Option (List Text) → List Text
names_at none = []
names_at (some names) = names

get-add_aliases :
    (name : Text) (aliases : List Text) (m : Dict Text Text) (a : Text)
    → get (add_aliases name aliases m) a
      ≡ (if contains a aliases && not (is_empty a) then some name else get m a)
unfolding add_aliases
get-add_aliases name [] m a = ground arith
get-add_aliases name (b ∷ bs) m a = ground (
  arith,
  get-add_aliases name bs m a,
  get-add_aliases name bs (set m b name) a,
  get-set m b a name,
  list_eq_iff b a,
  list_eq_iff a b,
)

-- Whether a name has a namespace and this base name.
unfoldable pub has_base : Text → Text → Bool
has_base name base = not (is_empty (base_names name).0) && (base_names name).1 == base

names_at-append_name :
    (m : Dict Text (List Text)) (base name b : Text)
    → names_at (get (append_name m base name) b)
      ≡ (if base == b then names_at (get m b) ++ name ∷ [] else names_at (get m b))
unfolding append_name
names_at-append_name m base name b = chosen (get m base) refl
  where
    chosen :
        (o : Option (List Text))
        → get m base ≡ o
        → names_at (
            get
              (elim o [
                | none ↦ set m base (name ∷ [])
                | some names ↦ set m base (names ++ name ∷ [])
              ])
              b)
          ≡ (if base == b then names_at (get m b) ++ name ∷ [] else names_at (get m b))
    chosen none e = ground (arith, get-set m base b (name ∷ []), list_eq_iff base b)
    chosen (some names) e =
        ground (arith, get-set m base b (names ++ name ∷ []), list_eq_iff base b)

names_at-add_base_name :
    (m : Dict Text (List Text)) (name b : Text)
    → names_at (get (add_base_name name m) b)
      ≡ (if has_base name b then names_at (get m b) ++ name ∷ [] else names_at (get m b))
unfolding add_base_name has_base
names_at-add_base_name m name b = ground (arith, names_at-append_name m (base_names name).1 name b)

module _ {D : Type 0} where
  abbrev pub entry_of : Dict Text (TaskDict D) → Text → Option (TaskDict D)
  entry_of [] n = none
  entry_of ((name, d) ∷ tm) n =
      or_before (entry_of tm n) (if is_task name d && name == n then some d else none)

  abbrev pub takes_alias : TaskDict D → Text → Bool
  takes_alias d a = contains a d.alias && not (is_empty a)

  abbrev pub alias_of : Dict Text (TaskDict D) → Text → Option Text
  alias_of [] a = none
  alias_of ((name, d) ∷ tm) a =
      or_before (alias_of tm a) (if is_task name d && takes_alias d a then some name else none)

  abbrev pub named_of : Dict Text (TaskDict D) → Text → List Text
  named_of [] b = []
  named_of ((name, d) ∷ tm) b =
      let rest = named_of tm b in if is_task name d && has_base name b then name ∷ rest else rest

  -- The maps after some entries hold what those entries say, and else what they held before.
  pub record Holds (before after : Finder D) (tm : Dict Text (TaskDict D)) : Type 0 where
    pub tasks :
        (n : Text) → get after.task_map n ≡ or_before (entry_of tm n) (get before.task_map n)
    pub aliases :
        (a : Text)
        → get after.task_alias_map a ≡ or_before (alias_of tm a) (get before.task_alias_map a)
    pub names :
        (b : Text)
        → names_at (get after.task_base_name_map b)
          ≡ names_at (get before.task_base_name_map b) ++ named_of tm b

  add_task-Holds :
      (f : Finder D) (name : Text) (d : TaskDict D)
      → Holds f (add_task f (name, d)) ((name, d) ∷ [])
  unfolding add_task
  add_task-Holds f name d = record {
    tasks = λ n. ground (arith, get-set f.task_map name n d, list_eq_iff name n);
    aliases = λ a. ground (arith, get-add_aliases name d.alias f.task_alias_map a);
    names = λ b. ground (
      arith,
      names_at-add_base_name f.task_base_name_map name b,
      append-nil (names_at (get f.task_base_name_map b)),
    );
  }

  add_tasks-Holds : (f : Finder D) (tm : Dict Text (TaskDict D)) → Holds f (add_tasks f tm) tm
  unfolding add_tasks
  add_tasks-Holds f [] = record {
    tasks = λ n. refl;
    aliases = λ a. refl;
    names = λ b. sym (append-nil _);
  }
  add_tasks-Holds f ((name, d) ∷ tm) =
      let one = add_task-Holds f name d in
      let rest = add_tasks-Holds (add_task f (name, d)) tm in
      record {
        tasks = λ n.
            rest.tasks n
            ∙ (ap (or_before (entry_of tm n)) (one.tasks n)
                ∙ sym (or_before_assoc (entry_of tm n) _ _));
        aliases = λ a.
            rest.aliases a
            ∙ (ap (or_before (alias_of tm a)) (one.aliases a)
                ∙ sym (or_before_assoc (alias_of tm a) _ _));
        names = λ b. ground (
          arith,
          rest.names b,
          one.names b,
          append_assoc (names_at (get f.task_base_name_map b)) (name ∷ []) (named_of tm b),
          append-nil (names_at (get f.task_base_name_map b)),
        );
      }

  pub load_task_map-Holds : (tm : Dict Text (TaskDict D)) → Holds empty_finder (load_task_map tm) tm
  unfolding load_task_map
  load_task_map-Holds tm = add_tasks-Holds empty_finder tm
