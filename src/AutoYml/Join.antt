-- ===== src/AutoYml/Join.antt =====
-- smart/auto/parser/auto_yml.py: parse_join_node, and how the joins of a task's expression and those
-- under its `join` come together in normalize_tree_task.
mod Samples
use smartlibs.Prelude.{
  List, [], ◌∷◌, ◌++◌, ◌≡◌, refl, sym, ap, inl, inr, Bool-cases, ◌∙◌, map, Bool, true, false, not,
  Option, none, some, arith, if◌then◌else◌, Eq-nat, Eq-list, is_empty, contains, select,
}
use smartlibs.Text.{Text, split_on, split_on-append}
use smartlibs.Dict.{update}
use smartlibs.Dag.{or_empty}
use smartlibs.TaskExp.{Methods, TaskObj, parse, main_method, head_parse, parse_task_exp}

-- An item of a list under `join`.
pub data JoinItem (D : Type 0) : Type 0 where
  join_dict : D → JoinItem D
  join_text : Text → JoinItem D
  join_texts : List Text → JoinItem D
  join_other : JoinItem D

-- What stands under `join`.
pub data JoinNode (D : Type 0) : Type 0 where
  exp_node : Text → JoinNode D
  list_node : List (JoinItem D) → JoinNode D
  other_node : JoinNode D

-- The joins that say something.
abbrev pub kept : List Methods → List Methods
kept joins = select (λ join_obj. not (is_empty join_obj)) joins

unfoldable pub update_all : Methods → List Text → Methods
unfolding parse update
update_all join_obj [] = join_obj
update_all join_obj (sub_join_exp ∷ more) = update_all (update join_obj (parse sub_join_exp)) more

-- How parsed methods are read as a dictionary of the configuration is an argument.
module _ {D : Type 0} (as_dict : Methods → D) where
  unfoldable pub join_item : JoinItem D → List D
  unfolding parse update_all
  join_item (join_dict join_obj) = join_obj ∷ []
  join_item (join_text join_exp) = map as_dict (kept (parse join_exp ∷ []))
  join_item (join_texts join_exp) = as_dict (update_all [] join_exp) ∷ []
  join_item join_other = []

  unfoldable pub join_items : List (JoinItem D) → List D
  unfolding join_item
  join_items [] = []
  join_items (join_exp ∷ join_list) = join_item join_exp ++ join_items join_list

  -- `parse_join_node`: an empty text or list is no join node, nor is anything else.
  unfoldable pub parse_join_node : JoinNode D → Option (List D)
  unfolding join_items split_on
  parse_join_node (exp_node []) = none
  parse_join_node (exp_node (c ∷ t)) = some (join_items (map join_text (split_on b'~' (c ∷ t))))
  parse_join_node (list_node []) = none
  parse_join_node (list_node (join_exp ∷ join_list)) = some (join_items (join_exp ∷ join_list))
  parse_join_node other_node = none

  -- The entry `join` of a normal form, which may be missing.
  unfoldable pub normalize_join : List Methods → Option (JoinNode D) → Option (Option (List D))
  unfolding parse_join_node
  normalize_join [] none = none
  normalize_join [] (some join_node) = some (parse_join_node join_node)
  normalize_join (exp_join ∷ exp_joins) none = some (some (map as_dict (exp_join ∷ exp_joins)))
  normalize_join (exp_join ∷ exp_joins) (some join_node) =
      some (some (map as_dict (exp_join ∷ exp_joins) ++ or_empty (parse_join_node join_node)))

  join_items-kept :
      (l : List Text) → join_items (map join_text l) ≡ map as_dict (kept (map parse l))
  unfolding join_items join_item
  join_items-kept [] = refl
  join_items-kept (t ∷ l) = elim (Bool-cases (is_empty (parse t))) [
    | inl e ↦ rw (e) (join_items-kept l)
    | inr e ↦ rw (e) (ap (λ rest. as_dict (parse t) ∷ rest) (join_items-kept l))
  ]

  main_method-join :
      (m : Methods) (joins : List Text) (exp_obj : TaskObj)
      → main_method m joins ≡ some exp_obj
      → exp_obj.join ≡ map parse joins
  unfolding main_method
  main_method-join [] joins exp_obj h = absurd (cc h)
  main_method-join ((key, config) ∷ others) joins exp_obj h =
      ap (λ o. elim o [ none ↦ [] | some obj ↦ obj.join ]) (sym h)

  -- Joins that are written under `join`, as one text, are those that an expression has which is
  -- written with them behind its task, but for the ones that name no method, which the text drops.
  pub parse_join_node-parse_task_exp :
      (task_key t : Text) (exp_obj : TaskObj)
      → contains b'~' task_key ≡ false
      → is_empty t ≡ false
      → parse_task_exp (task_key ++ b'~' ∷ t) ≡ some exp_obj
      → parse_join_node (exp_node t) ≡ some (map as_dict (kept exp_obj.join))
  unfolding parse_join_node parse_task_exp main_method
  parse_join_node-parse_task_exp task_key [] exp_obj free full h = absurd (cc full)
  parse_join_node-parse_task_exp task_key (c ∷ t) exp_obj free full h =
      let joins =
        main_method-join (parse task_key) (split_on b'~' (c ∷ t)) exp_obj
          (sym (ap head_parse (split_on-append b'~' task_key (c ∷ t) free)) ∙ h) in
      ap (λ l. some l) (join_items-kept (split_on b'~' (c ∷ t)))
      ∙ ap (λ l. some (map as_dict (kept l))) (sym joins)
