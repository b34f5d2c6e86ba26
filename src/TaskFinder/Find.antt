-- ===== src/TaskFinder/Find.antt =====
-- What a loaded finder finds, for every name.
use smartlibs.Prelude.{
  List, [], ◌∷◌, ◌≡◌, refl, sym, ap, ◌∙◌, Bool, true, false, Option, none, some, Eq-nat, Eq-list,
  list_eq_iff, contains, arith,
}
use smartlibs.Text.{Text}
use smartlibs.Dict.{Dict, get}
use smartlibs.TaskFinder.{
  TaskDict, Finder, load_task_map, Found, by_base_name, by_alias, find_task_dict,
}
use smartlibs.TaskFinder.Load.{
  or_before, names_at, entry_of, alias_of, named_of, load_task_map-Holds,
}

or_before-none {ℓ} : {A : Type ℓ} (a : Option A) → or_before a none ≡ a
or_before-none (some a) = refl
or_before-none none = refl

abbrev pub is_some {ℓ} : {A : Type ℓ} → Option A → Bool
is_some none = false
is_some (some a) = true

module _ {D : Type 0} where
  -- The policy: a task of that name, else the task with that alias, else the only task with that
  -- base name.
  abbrev pub the_only : Dict Text (TaskDict D) → List Text → Found D
  the_only tm [] = none
  the_only tm (name ∷ []) = some (entry_of tm name, name)
  the_only tm (name ∷ other ∷ names) = none

  abbrev pub policy_alias : Dict Text (TaskDict D) → Text → Option Text → Found D
  policy_alias tm n (some name) = some (entry_of tm name, name)
  policy_alias tm n none = the_only tm (named_of tm n)

  abbrev pub policy : Dict Text (TaskDict D) → Text → Option (TaskDict D) → Found D
  policy tm n (some d) = some (some d, n)
  policy tm n none = policy_alias tm n (alias_of tm n)

  by_base_name-the_only :
      (f : Finder D) (tm : Dict Text (TaskDict D)) (o : Option (List Text)) (names : List Text)
      → ((n : Text) → get f.task_map n ≡ entry_of tm n)
      → names_at o ≡ names
      → by_base_name f o ≡ the_only tm names
  unfolding by_base_name
  by_base_name-the_only f tm none [] h e = refl
  by_base_name-the_only f tm (some []) [] h e = refl
  by_base_name-the_only f tm none (n ∷ names) h e = cc
  by_base_name-the_only f tm (some []) (n ∷ names) h e = cc
  by_base_name-the_only f tm (some (m ∷ ms)) [] h e = cc
  by_base_name-the_only f tm (some (m ∷ [])) (n ∷ []) h e = ground (arith, h m, h n)
  by_base_name-the_only f tm (some (m ∷ [])) (n ∷ p ∷ names) h e = cc
  by_base_name-the_only f tm (some (m ∷ k ∷ ms)) (n ∷ []) h e = cc
  by_base_name-the_only f tm (some (m ∷ k ∷ ms)) (n ∷ p ∷ names) h e = refl

  by_alias-policy :
      (f : Finder D) (tm : Dict Text (TaskDict D)) (n : Text) (a : Option Text)
      → ((m : Text) → get f.task_map m ≡ entry_of tm m)
      → names_at (get f.task_base_name_map n) ≡ named_of tm n
      → by_alias f n a ≡ policy_alias tm n a
  unfolding by_alias
  by_alias-policy f tm n (some name) h e = ap (λ o. some (o, name)) (h name)
  by_alias-policy f tm n none h e =
      by_base_name-the_only f tm (get f.task_base_name_map n) (named_of tm n) h e

  find_cases :
      (f : Finder D) (tm : Dict Text (TaskDict D)) (n : Text) (o : Option (TaskDict D))
      → get f.task_map n ≡ o
      → by_alias f n (get f.task_alias_map n) ≡ policy_alias tm n (alias_of tm n)
      → find_task_dict f n ≡ policy tm n o
  unfolding find_task_dict
  find_cases f tm n (some d) e h = rw (find_task_dict, e) refl
  find_cases f tm n none e h = rw (find_task_dict, e) h

  -- For every name, a loaded finder finds what the policy says of the task map: the task of that
  -- name, else the last task with that alias, else the one task with that base name; and none where
  -- several tasks have the base name.
  pub find_task_dict-policy :
      (tm : Dict Text (TaskDict D)) (n : Text)
      → find_task_dict (load_task_map tm) n ≡ policy tm n (entry_of tm n)
  unfolding get
  find_task_dict-policy tm n =
      let f = load_task_map tm in
      let held = load_task_map-Holds tm in
      let tasks : (m : Text) → get f.task_map m ≡ entry_of tm m =
        λ m. held.tasks m ∙ or_before-none (entry_of tm m) in
      let alias : get f.task_alias_map n ≡ alias_of tm n =
        held.aliases n ∙ or_before-none (alias_of tm n) in
      let rest = by_alias-policy f tm n (alias_of tm n) tasks (held.names n) in
      find_cases f tm n (entry_of tm n) (tasks n) (ap (by_alias f n) alias ∙ rest)

  alias-known :
      (tm : Dict Text (TaskDict D)) (a name : Text)
      → alias_of tm a ≡ some name
      → is_some (entry_of tm name) ≡ true
  alias-known [] a name h = cc
  alias-known ((m, d) ∷ tm) a name h = ground (arith, alias-known tm a name, list_eq_iff m name)

  names-known :
      (tm : Dict Text (TaskDict D)) (b name : Text)
      → contains name (named_of tm b) ≡ true
      → is_some (entry_of tm name) ≡ true
  names-known [] b name h = cc
  names-known ((m, d) ∷ tm) b name h =
      ground (arith, names-known tm b name, list_eq_iff m name, list_eq_iff name m)

  -- Whatever name is looked up, a full name that is found is the name of a task of the map, and the
  -- dictionary beside it is that task's.
  pub find_task_dict_sound :
      (tm : Dict Text (TaskDict D)) (n name : Text) (o : Option (TaskDict D))
      → find_task_dict (load_task_map tm) n ≡ some (o, name)
      → (o ≡ entry_of tm name) × (is_some o ≡ true)
  find_task_dict_sound tm n name o h =
      sound (entry_of tm n) refl (sym (find_task_dict-policy tm n) ∙ h)
    where
      only :
          (names : List Text)
          → ((m : Text) → contains m names ≡ true → is_some (entry_of tm m) ≡ true)
          → the_only tm names ≡ some (o, name)
          → (o ≡ entry_of tm name) × (is_some o ≡ true)
      only [] known e = cc
      only (m ∷ []) known e = ground (arith, known m, list_eq_iff m m)
      only (m ∷ p ∷ names) known e = cc

      by :
          (a : Option Text)
          → alias_of tm n ≡ a
          → policy_alias tm n a ≡ some (o, name)
          → (o ≡ entry_of tm name) × (is_some o ≡ true)
      by (some m) f e = ground (arith, alias-known tm n m)
      by none f e = only (named_of tm n) (names-known tm n) e

      sound :
          (d : Option (TaskDict D))
          → entry_of tm n ≡ d
          → policy tm n d ≡ some (o, name)
          → (o ≡ entry_of tm name) × (is_some o ≡ true)
      sound (some d) f e = ground arith
      sound none f e = by (alias_of tm n) refl e
