-- ===== src/AutoYml/Extend.antt =====
-- smart/auto/parser/auto_yml.py: `__extend__`, which copies what a node lacks from nodes of the
-- configuration, and `__ref__`. None is an exception.
pub mod Laws
use mathlib.Core.Option
use smartlibs.Prelude.{
  List, [], ◌∷◌, ◌≡◌, refl, ◌⊎◌, inl, inr, Bool, true, false, Option, none, some, Option-cases,
  Bool-cases, ◌==◌, arith, if◌then◌else◌, list_eq_iff, Eq-nat, Eq-list,
}
use smartlibs.Text.{Text, split_on}
use smartlibs.KeyPath.{resolve_key_path, dot}
use smartlibs.Nested.{
  Tree, null, leaf, dict, Branches, end, entry, read, write, remove, holds, read-write, read-remove,
}
use smartlibs.Nested.Access.{dict_safe_get}

-- One of the paths that a node extends: a list of keys, or a text; None is as the empty text.
pub data Ref : Type 0 where
  key_list : List Text → Ref
  dotted : Text → Ref

-- The keys of a path; without a context `.` has none.
abbrev pub resolve_with : Option (List Text) → Text → Option (List Text)
resolve_with none key_path = if key_path == dot ∷ [] then none else resolve_key_path key_path []
resolve_with (some context_path) key_path = resolve_key_path key_path context_path

abbrev pub or_else : {A : Type 0} → Option A → Option A → Option A
or_else (some v) w = some v
or_else none w = w

-- An entry, if its value and the rest could be made.
abbrev pub and_sub :
    {V : Type 0} → Text → Option (Tree V) → Option (Branches V) → Option (Branches V)
and_sub k none rest = none
and_sub k (some v) none = none
and_sub k (some v) (some rest) = some (entry k v rest)

-- The items that the node does not have.
unfoldable pub add_missing : {V : Type 0} → Branches V → Branches V → Branches V
unfolding holds write
add_missing node end = node
add_missing node (entry p_key p_val more) =
    add_missing (if holds node p_key then node else write node p_key p_val) more

module _ {V : Type 0} (truthy : Tree V → Bool) (configs : Tree V)
    (context_path : Option (List Text)) where
  -- What a path is resolved to: a dictionary of the configuration, or else nothing to copy.
  abbrev pub as_dict : Tree V → Branches V
  as_dict null = end
  as_dict (leaf v) = end
  as_dict (dict d) = d

  abbrev pub to_extend_dict : Ref → Option (Branches V)
  to_extend_dict (key_list keys) = some (as_dict (dict_safe_get truthy configs keys null))
  to_extend_dict (dotted t) = elim (resolve_with context_path t) [
    | none ↦ none
    | some keys ↦ some (as_dict (dict_safe_get truthy configs keys null))
  ]

  unfoldable pub add_extends : List Ref → Branches V → Option (Branches V)
  unfolding add_missing dict_safe_get resolve_key_path
  add_extends [] node = some node
  add_extends (r ∷ refs) node = elim (to_extend_dict r) [
    | none ↦ none
    | some d ↦ add_extends refs (add_missing node d)
  ]

  module _ (refs_of : Option (Tree V) → List Ref) (plain_key extend_key : Text) where
    -- What is left to do with a node whose subnodes are done.
    unfoldable pub extend_rest : Branches V → Option (Branches V) → Option (Branches V)
    unfolding add_extends remove holds read
    extend_rest node subs =
        if holds node plain_key then some (remove node plain_key) else elim subs [
          | none ↦ none
          | some done ↦ add_extends (refs_of (read node extend_key)) done
        ]

module _ {V : Type 0} (truthy : Tree V → Bool) (configs : Tree V)
    (refs_of : Option (Tree V) → List Ref) (plain_key extend_key : Text) where
  -- The subnodes of a node without its `__extend__`, each parsed by itself.
  unfoldable mutual
    unfolding extend_rest

    pub extend_sub : Tree V → Option (Tree V)
    extend_sub null = some null
    extend_sub (leaf v) = some (leaf v)
    extend_sub (dict node) =
        Option.map dict
          (extend_rest truthy configs none refs_of plain_key extend_key node (extend_subs node))

    pub extend_subs : Branches V → Option (Branches V)
    extend_subs end = some end
    extend_subs (entry k v more) =
        let rest = extend_subs more in
        if k == extend_key then rest else and_sub k (extend_sub v) rest

  -- `parse_syntax_extend`
  unfoldable pub parse_syntax_extend : Bool → Option (List Text) → Branches V → Option (Branches V)
  unfolding extend_rest extend_subs
  parse_syntax_extend deep_parse context_path node =
      extend_rest truthy configs context_path refs_of plain_key extend_key node
        (if deep_parse then extend_subs node else some (remove node extend_key))

-- `parse_syntax_ref`; the paths that `__ref__` stands for are an argument.
module _ {V : Type 0} (truthy : Tree V → Bool) (configs : Tree V) (keys_of : Tree V → List Text)
    (ref_key : Text) where
  -- None where the value of the key has no `__ref__`.
  abbrev pub referred : Option (Tree V) → Option (Tree V)
  referred (some (dict node)) =
      Option.map (λ to_ref. dict_safe_get truthy configs (keys_of to_ref) null) (read node ref_key)
  referred _ = none

  unfoldable pub parse_syntax_ref : List Text → Branches V → Branches V
  unfolding read write dict_safe_get
  parse_syntax_ref [] parent_node = parent_node
  parse_syntax_ref (key ∷ node_keys) parent_node =
      parse_syntax_ref node_keys (elim (referred (read parent_node key)) [
        | none ↦ parent_node
        | some to ↦ write parent_node key to
      ])

-- `parse_syntax_template`; `template_str_eval` with its arguments is an argument.
unfoldable pub eval_templates :
    {V : Type 0} → (Tree V → Tree V) → Branches V → Branches V → Branches V
unfolding write
eval_templates eval end node = node
eval_templates eval (entry key templ more) node =
    eval_templates eval more (write node key (eval templ))

-- None is the AttributeError of templates that are no dictionary.
unfoldable pub parse_syntax_template :
    {V : Type 0} → (Tree V → Tree V) → Text → Branches V → Option (Branches V)
unfolding eval_templates read remove
parse_syntax_template eval template_key node = elim (read node template_key) [
  | none ↦ some node
  | some (dict templates) ↦ some (eval_templates eval templates (remove node template_key))
  | some _ ↦ none
]

pub and_sub-eq-some :
    {V : Type 0} (k : Text) (o : Option (Tree V)) (rest : Option (Branches V)) {d : Branches V}
    → and_sub k o rest ≡ some d
    → (v : Tree V) × (more : Branches V) × (o ≡ some v) × (rest ≡ some more) × (d ≡ entry k v more)
and_sub-eq-some k none rest h = absurd (cc h)
and_sub-eq-some k (some v) none h = absurd (cc h)
and_sub-eq-some k (some v) (some more) h = (v, more, refl, refl, ground (arith, h))
