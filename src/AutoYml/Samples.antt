-- ===== src/AutoYml/Samples.antt =====
-- Small configurations: a node that extends another, siblings, a tree of tasks, and two files that
-- import each other.
use mathlib.Core.HLevel.{⊥_prop}
use mathlib.Core.Logic.Or
use mathlib.Core.List.{Nodup, Nodup-cons, Nodup-nil, not-mem-nil, mem-cons}
use smartlibs.Prelude.{
  ◌++◌, ℕ, ◌<◌, List, [], ◌∷◌, ◌≡◌, ◌||◌, refl, Bool, true, false, Option, none, some, arith,
  Eq-nat, Eq-list, contains, list_eq_iff, ◌==◌, if◌then◌else◌,
}
use smartlibs.Text.{Text}
use smartlibs.Dict.{keys}
use smartlibs.Nested.{holds, Tree, null, leaf, dict, Branches, end, entry, read, remove}
use smartlibs.Dag.{has_pair}
use smartlibs.Dag.Sort.{has_cycle}
use smartlibs.Dag.Items.{iter_items}
use smartlibs.TaskExp.{TaskObj}
use smartlibs.AutoYml.Extend.{
  Ref, dotted, or_else, parse_syntax_extend, parse_syntax_ref, parse_syntax_template,
}
use smartlibs.AutoYml.Extend.Laws.{parsed_at, inherited, parse_syntax_extend-read}
use smartlibs.AutoYml.Sibling.{parse_syntax_sibling}
use smartlibs.AutoYml.TaskTree.{
  RunObj, TreeNode, task_at, normalize_tree_node, parse_syntax_flow, sort_tree_node, tree_items,
}
use smartlibs.AutoYml.TaskTree.Normal.{stated, normalize_tree_node-links}
use smartlibs.AutoYml.TaskTree.Order.{leads, SortedTree, sort_tree_node-SortedTree}
use smartlibs.AutoYml.Flatten.{dict_flattern}
use smartlibs.AutoYml.Flatten.Paths.{Reaches, dict_flattern-Reaches}
use smartlibs.AutoYml.Import.{Files, parse_import_node, import_key}
use smartlibs.AutoYml.Import.Once.{Ends, parse_import_node-Ends}

abbrev a : Text
a = b'a' ∷ []

abbrev b : Text
b = b'b' ∷ []

abbrev ab : Text
ab = b'a' ∷ b'b' ∷ []

abbrev cd : Text
cd = b'c' ∷ b'd' ∷ []

abbrev plain : Text
plain = b'p' ∷ []

abbrev extends : Text
extends = b'x' ∷ []

abbrev is_true : Tree ℕ → Bool
is_true null = false
is_true (leaf v) = true
is_true (dict end) = false
is_true (dict (entry k v d)) = true

abbrev configs : Tree ℕ
configs = dict (entry ab (dict (entry a (leaf 2) (entry b (leaf 3) end))) end)

-- A path of any value is the one dictionary of the configuration.
abbrev to_base : Option (Tree ℕ) → List Ref
to_base none = []
to_base (some v) = dotted ab ∷ []

abbrev node : Branches ℕ
node = entry extends (leaf 0) (entry a (leaf 1) end)

abbrev extended : Branches ℕ
extended = entry a (leaf 1) (entry b (leaf 3) end)

extend_example :
    read extended b
    ≡ or_else
        (if extends == b
          then none
          else parsed_at is_true configs to_base plain extends true (read node b))
        (inherited is_true configs none (to_base (read node extends)) b)
unfolding parse_syntax_extend
extend_example =
    parse_syntax_extend-read is_true configs to_base plain extends true none node extended refl refl
      b

abbrev group : Branches ℕ
group =
    entry extends (dict (entry b (leaf 7) end))
      (entry ab (dict (entry a (leaf 1) end)) (entry cd null end))

abbrev after_siblings : Branches ℕ
after_siblings =
    entry ab (dict (entry a (leaf 1) (entry b (leaf 7) end)))
      (entry cd (dict (entry b (leaf 7) end)) end)

siblings_copied : parse_syntax_sibling (λ v. true) extends group ≡ some after_siblings
unfolding parse_syntax_sibling
siblings_copied = refl

-- A reference, and a template that evaluates to a number.
ref_replaced :
    parse_syntax_ref is_true configs
      (λ t. ab ∷ a ∷ [])
      extends
      (cd ∷ [])
      (entry cd (dict (entry extends null end)) end)
    ≡ entry cd (leaf 2) end
unfolding parse_syntax_ref
ref_replaced = refl

abbrev nine : Tree ℕ → Tree ℕ
nine t = leaf 9

template_set :
    parse_syntax_template nine extends (entry extends (dict (entry a null end)) (entry b null end))
    ≡ some (entry b null (entry a (leaf 9) end))
unfolding parse_syntax_template
template_set = refl

abbrev task : Option Text → List Text → RunObj ℕ
task prev next = record { prev = prev; next = next; opts = 0 }

abbrev merge : TaskObj → ℕ → ℕ
merge t n = n

-- `ab: {next: cd}`, with a flow.
abbrev tree : TreeNode ℕ
tree = record {
  tasks = (cd, task none []) ∷ (ab, task none (cd ∷ [])) ∷ [];
  flow = [];
  dependance = [];
}

abbrev normal : List (Text × RunObj ℕ)
normal = (cd, task (some ab) []) ∷ (ab, task none (cd ∷ [])) ∷ []

links_example :
    (contains cd (task_at 0 normal ab).next
      ≡ (has_pair tree.dependance ab cd || stated merge tree.tasks ab cd))
    × ((q : Text)
        → (task_at 0 normal ab).prev ≡ some q
        → (has_pair tree.dependance q ab || stated merge tree.tasks q ab) ≡ true)
unfolding normalize_tree_node
links_example = normalize_tree_node-links merge 0 tree normal refl ab cd refl

-- The flow `ab`, `a`, `b`.
abbrev flowing : TreeNode ℕ
flowing = record { tasks = []; flow = ab ∷ a ∷ b ∷ []; dependance = [] }

flow_links :
    parse_syntax_flow (λ t o. 0) flowing
    ≡ some record {
      tasks = (ab, task none []) ∷ (a, task none []) ∷ (b, task none []) ∷ [];
      flow = [];
      dependance = (ab, a) ∷ (a, b) ∷ [];
    }
unfolding parse_syntax_flow
flow_links = refl

abbrev short_names : List (Text × RunObj ℕ)
short_names = (ab, task none (a ∷ [])) ∷ (a, task (some ab) (b ∷ [])) ∷ (b, task (some a) []) ∷ []

short_names_normal :
    normalize_tree_node merge 0 (record {
      tasks = (ab, task none []) ∷ (a, task none []) ∷ (b, task none []) ∷ [];
      flow = [];
      dependance = (ab, a) ∷ (a, b) ∷ [];
    })
    ≡ some short_names
unfolding normalize_tree_node
short_names_normal = refl

-- The characters of the `prev` that is `ab` are taken for the tasks `a` and `b`, and a flow without a
-- cycle is refused.
short_names_cycle : sort_tree_node short_names ≡ some (has_cycle (a ∷ b ∷ a ∷ []))
unfolding sort_tree_node
short_names_cycle = refl

abbrev rank : Text → ℕ
rank t = if t == ab then 0 else 1

normal_distinct : Nodup (keys (iter_items (tree_items normal)))
unfolding tree_items
normal_distinct = Nodup-cons.1 (
  λ m.
      Or.elim ⊥_prop (mem-cons.0 m) (λ (e : cd ≡ ab). absurd (ground (arith, list_eq_iff cd ab, e)))
        not-mem-nil,
  Nodup-cons.1 (not-mem-nil, Nodup-nil),
)

normal_rises : (p k : Text) → leads normal p k ≡ true → rank p < rank k
normal_rises p k h =
    ground (arith, list_eq_iff p ab, list_eq_iff ab p, list_eq_iff k cd, list_eq_iff cd p, h)

sorted_example : SortedTree normal
sorted_example = sort_tree_node-SortedTree normal rank normal_distinct (omega arith) normal_rises

abbrev imports : Option (Tree ℕ) → List Text
imports none = []
imports (some null) = []
imports (some (leaf n)) = if n == 1 then a ∷ [] else b ∷ []
imports (some (dict d)) = []

-- Two files that import each other.
abbrev both_files : Files ℕ Text
both_files = record {
  load_file = λ path.
      if path == a
      then dict (entry import_key (leaf 2) end)
      else dict (entry import_key (leaf 1) (entry b (leaf 5) end));
  imports_of = imports;
  locate = λ ctx f. (some (if f == a then a else b), f);
  eval_path = λ configs f. f;
  truthy_value = λ v. true;
}

abbrev start : Branches ℕ
start = entry import_key (leaf 1) end

imports_done :
    parse_import_node both_files 3 [] (cd ∷ []) start ≡ some (cd ∷ a ∷ b ∷ [], entry b (leaf 5) end)
unfolding parse_import_node
imports_done = refl

both_within :
    (ctx i_ctx : Text) (f path : Text)
    → both_files.locate ctx f ≡ (some path, i_ctx)
    → contains path (a ∷ b ∷ []) ≡ true
both_within ctx i_ctx f path h = ground (arith, h, list_eq_iff path a, list_eq_iff path b)

import_example :
    Ends both_files
      (a ∷ b ∷ [])
      []
      none
      (a ∷ [])
      (cd ∷ [])
      (parse_import_node both_files 3 [] (cd ∷ []) start)
unfolding read remove
import_example =
    parse_import_node-Ends both_files (a ∷ b ∷ []) 3 [] (cd ∷ []) start both_within (omega arith)
      (refl, tt)

-- The node `a.: {b: 1}, cd: 2`, flattened.
abbrev dotted_key : Text
dotted_key = b'a' ∷ b'.' ∷ []

abbrev dotted_node : Branches ℕ
dotted_node = entry dotted_key (dict (entry b (leaf 1) end)) (entry cd (leaf 2) end)

flattened :
    dict_flattern (b'.' ∷ []) dotted_node
    ≡ entry (b'a' ∷ b'.' ∷ b'b' ∷ []) (leaf 1) (entry cd (leaf 2) end)
unfolding dict_flattern
flattened = refl

flatten_example :
    (read (dict_flattern (b'.' ∷ []) dotted_node) (dotted_key ++ b) ≡ some (leaf 1)
      → Reaches (b'.' ∷ []) dotted_node (dotted_key ++ b) (leaf 1))
    × (Reaches (b'.' ∷ []) dotted_node (dotted_key ++ b) (leaf 1)
        → holds (dict_flattern (b'.' ∷ []) dotted_node) (dotted_key ++ b) ≡ true)
flatten_example = dict_flattern-Reaches (b'.' ∷ []) dotted_node (dotted_key ++ b) (leaf 1)
