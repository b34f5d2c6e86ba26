-- ===== src/AutoYml/TaskTree.antt =====
-- smart/auto/parser/auto_yml.py: the nodes of a tree of tasks: `__flow__`, the normal form, and the
-- order. A task is a record of its `prev`, its `next` and its other options.
pub mod Links
pub mod Normal
pub mod Order
use smartlibs.Prelude.{
  ℕ, List, [], ◌∷◌, ◌++◌, map, Bool, true, false, ◌&&◌, not, Option, none, some, ◌==◌,
  if◌then◌else◌, Eq-nat, Eq-list, is_empty,
}
use smartlibs.Text.{Text, starts_with, non_empty}
use smartlibs.Dict.{Dict, get, set}
use smartlibs.TaskFinder.{is_private_key}
use smartlibs.TaskExp.{TaskObj, parse_task_exp, base_task_key}
use smartlibs.Dag.{Item, DagItemsTool, add_pair}
use smartlibs.Dag.Sort.{SortEnd, sorted}
use smartlibs.Dag.Items.{sort_item_dict}

-- `prev` where it is a text, `next` as the list of its items, and the options besides.
pub record RunObj (O : Type 0) : Type 0 where
  pub prev : Option Text
  pub next : List Text
  pub opts : O

-- A node: its tasks and its private nodes, and its lists `__flow__` and `__dependance__`.
pub record TreeNode (O : Type 0) : Type 0 where
  pub tasks : Dict Text (RunObj O)
  pub flow : List Text
  pub dependance : List (Text × Text)

abbrev pub base_prev : Option Text → Option Text
unfolding base_task_key
base_prev none = none
base_prev (some []) = none
base_prev (some (c ∷ t)) = some (base_task_key (c ∷ t))

abbrev pub unlinked : {O : Type 0} → RunObj O → RunObj O
unlinked run_obj = record run_obj { prev = none; next = [] }

-- Pairs that are added one after the other.
unfoldable pub add_next_keys : Text → List Text → List (Text × Text) → List (Text × Text)
unfolding add_pair
add_next_keys task_key [] dependance = dependance
add_next_keys task_key (next_task_key ∷ next) dependance =
    add_next_keys task_key next (add_pair dependance task_key next_task_key)

abbrev pub add_prev : Option Text → Text → List (Text × Text) → List (Text × Text)
add_prev none task_key dependance = dependance
add_prev (some prev_task_key) task_key dependance = add_pair dependance prev_task_key task_key

-- A set made of a list.
unfoldable pub add_all : List (Text × Text) → List (Text × Text) → List (Text × Text)
unfolding add_pair
add_all [] dependance = dependance
add_all ((prev_key, next_key) ∷ l) dependance = add_all l (add_pair dependance prev_key next_key)

-- Options that are empty are an argument.
module _ {O : Type 0} (no_opts : O) where
  abbrev pub task_at : Dict Text (RunObj O) → Text → RunObj O
  task_at tree key = elim (get tree key) [
    | none ↦ record { prev = none; next = []; opts = no_opts }
    | some o ↦ o
  ]

  -- One dependence, in the second loop.
  unfoldable pub link : Dict Text (RunObj O) → Text → Text → Dict Text (RunObj O)
  unfolding get set
  link tree prev_key next_key =
      let prev_task = task_at tree prev_key in
      let tree2 = set tree prev_key (record prev_task { next = prev_task.next ++ next_key ∷ [] }) in
      set tree2 next_key (record (task_at tree2 next_key) { prev = some prev_key })

  -- The loop over the set, in some order of its pairs.
  unfoldable pub link_all : List (Text × Text) → Dict Text (RunObj O) → Dict Text (RunObj O)
  unfolding link
  link_all [] tree = tree
  link_all ((prev_key, next_key) ∷ dependance) tree =
      link_all dependance (link tree prev_key next_key)

-- How the options of an expression join those of a task is an argument.
module _ {O : Type 0} (merge_opts : TaskObj → O → O) where
  -- `normalize_tree_task`, its `prev` and `next`; none is the IndexError of an expression without a
  -- name.
  unfoldable pub normalize_tree_task : Text → RunObj O → Option (Text × RunObj O)
  unfolding parse_task_exp base_prev base_task_key
  normalize_tree_task task_key run_obj = elim (parse_task_exp task_key) [
    | none ↦ none
    | some exp_obj ↦
        (some (
          exp_obj.task_key,
          record {
            prev = base_prev run_obj.prev;
            next = map base_task_key (non_empty run_obj.next);
            opts = merge_opts exp_obj run_obj.opts;
          },
        ))
  ]

  -- The first loop of `normalize_tree_node`: the tasks under their keys, and the set of dependences.
  unfoldable pub gather_tasks :
      Dict Text (RunObj O)
      → Dict Text (RunObj O)
      → List (Text × Text)
      → Option (Dict Text (RunObj O) × List (Text × Text))
  unfolding normalize_tree_task is_private_key add_next_keys set
  gather_tasks [] tree dependance = some (tree, dependance)
  gather_tasks ((sub_key, run_obj) ∷ more) tree dependance =
      if is_private_key sub_key
      then gather_tasks more (set tree sub_key run_obj) dependance
      else elim (normalize_tree_task sub_key run_obj) [
        | none ↦ none
        | some (task_key, o) ↦
            (gather_tasks more (set tree task_key (unlinked o))
              (add_next_keys task_key o.next (add_prev o.prev task_key dependance)))
      ]

  unfoldable pub normalize_tree_node : O → TreeNode O → Option (Dict Text (RunObj O))
  unfolding add_all gather_tasks link_all
  normalize_tree_node no_opts tree_node =
      elim (gather_tasks tree_node.tasks [] (add_all tree_node.dependance [])) [
        | none ↦ none
        | some (tree, dependance) ↦ some (link_all no_opts dependance tree)
      ]

-- `(prev[0], next[0])` of each two neighbours.
unfoldable pub flow_pairs : List TaskObj → List (Text × Text)
flow_pairs [] = []
flow_pairs (t ∷ []) = []
flow_pairs (t ∷ u ∷ flow) = (t.task_key, u.task_key) ∷ flow_pairs (u ∷ flow)

unfoldable pub parse_flow : List Text → Option (List TaskObj)
unfolding parse_task_exp
parse_flow [] = some []
parse_flow (task_exp ∷ flow) = elim (parse_task_exp task_exp) [
  | none ↦ none
  | some t ↦ (elim (parse_flow flow) [ none ↦ none | some l ↦ some (t ∷ l) ])
]

-- The options of a task of the flow, merged with those that the task has, are an argument.
module _ {O : Type 0} (flow_opts : TaskObj → Option O → O) where
  abbrev pub merge_flow : TaskObj → Option (RunObj O) → RunObj O
  merge_flow t none = record { prev = none; next = []; opts = flow_opts t none }
  merge_flow t (some o) = record o { opts = flow_opts t (some o.opts) }

  unfoldable pub add_flow_tasks :
      List TaskObj → Dict Text (RunObj O) → Option (Dict Text (RunObj O))
  unfolding parse_task_exp get set
  add_flow_tasks [] tasks = some tasks
  add_flow_tasks (t ∷ flow) tasks = elim (parse_task_exp t.task_key) [
    | none ↦ none
    | some key ↦
        add_flow_tasks flow (set tasks key.task_key (merge_flow t (get tasks key.task_key)))
  ]

  unfoldable pub parse_syntax_flow : TreeNode O → Option (TreeNode O)
  unfolding parse_flow flow_pairs add_flow_tasks
  parse_syntax_flow node = elim (parse_flow node.flow) [
    | none ↦ none
    | some flow ↦ (elim (add_flow_tasks flow node.tasks) [
      | none ↦ none
      | some tasks ↦
          (some
            record { tasks = tasks; flow = []; dependance = node.dependance ++ flow_pairs flow })
    ])
  ]

-- The characters of a text, which is what a loop over it goes through.
abbrev pub characters : Text → List Text
characters [] = []
characters (c ∷ t) = (c ∷ []) ∷ characters t

abbrev pub prev_characters : Option Text → Option (List Text)
prev_characters none = none
prev_characters (some t) = some (characters t)

-- The items of a tree as DagItemsTool sees them: `obj.get('prev') or []` is a text, of which the loop
-- takes the characters.
unfoldable pub tree_items : {O : Type 0} → Dict Text (RunObj O) → List (Item Text)
tree_items [] = []
tree_items ((k, o) ∷ tree) =
    record { key = k; prev_keys = prev_characters o.prev; next_keys = some o.next }
    ∷ tree_items tree

abbrev pub tree_tool : DagItemsTool
tree_tool = record { prev_key_name = true; next_key_name = true }

-- `sort_tree_node`, up to the objects that the keys stand for.
unfoldable pub sort_tree_node :
    {O : Type 0} → Dict Text (RunObj O) → Option (SortEnd Text (Item Text))
unfolding tree_items sort_item_dict
sort_tree_node [] = some (sorted [])
sort_tree_node (kv ∷ tree) = sort_item_dict tree_tool (tree_items (kv ∷ tree)) true
