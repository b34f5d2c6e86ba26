-- ===== src/AutoYml/Import.antt =====
-- smart/auto/parser/auto_yml.py: parse_import_node, which loads the files that a file imports, each once,
-- and merges what it has under what is there. What the files hold, where a path leads from a context,
-- what a template of a path evaluates to and which plain values are true are arguments.
pub mod Once
use smartlibs.Prelude.{
  ℕ, zero, suc, List, [], ◌∷◌, ◌++◌, Bool, ◌||◌, Option, none, some, Eq-nat, Eq-list, contains,
  is_empty, if◌then◌else◌,
}
use smartlibs.Text.{Text}
use smartlibs.Nested.{Tree, null, leaf, dict, Branches, end, entry, read, remove}
use smartlibs.Nested.Merge.{deep_merge}

pub record Files (V Ctx : Type 0) : Type 0 where
  pub load_file : Text → Tree V
  pub imports_of : Option (Tree V) → List Text
  pub locate : Ctx → Text → Option Text × Ctx
  pub eval_path : Option (Tree V) → Text → Text
  pub truthy_value : V → Bool

abbrev pub import_key : Text
import_key = b'i' ∷ b'm' ∷ b'p' ∷ b'o' ∷ b'r' ∷ b't' ∷ []

abbrev pub configs_key : Text
configs_key = b'c' ∷ b'o' ∷ b'n' ∷ b'f' ∷ b'i' ∷ b'g' ∷ b's' ∷ []

-- `import_yml_file`: a file without a dictionary is as an empty one.
abbrev pub dict_or_empty : {V : Type 0} → Tree V → Branches V
dict_or_empty null = end
dict_or_empty (leaf v) = end
dict_or_empty (dict d) = d

-- A path that is empty or has been imported is passed over.
abbrev pub to_load : {Ctx : Type 0} → List Text → Option Text × Ctx → Option (Text × Ctx)
to_load imported (none, ctx) = none
to_load imported (some path, ctx) =
    if is_empty path || contains path imported then none else some (path, ctx)

module _ {V Ctx : Type 0} (fs : Files V Ctx) where
  open fs use {load_file, imports_of, locate, eval_path, truthy_value}

  -- The set of the imported files, in order, and the object.
  abbrev pub Imported : Type 0
  Imported = List Text × Branches V

  abbrev pub merge_under : Branches V → Branches V → Branches V
  unfolding deep_merge
  merge_under i_auto_obj auto_obj =
      dict_or_empty (deep_merge truthy_value (dict i_auto_obj) (dict auto_obj))

  -- The loop over the imports, with the parse of the node of a loaded file as `node`.
  unfoldable pub import_all :
      (Ctx → List Text → Branches V → Option Imported)
      → Ctx
      → Option (Tree V)
      → List Text
      → List Text
      → Branches V
      → Option Imported
  unfolding merge_under deep_merge
  import_all node ctx configs [] imported auto_obj = some (imported, auto_obj)
  import_all node ctx configs (i_file ∷ i_files) imported auto_obj =
      elim (to_load imported (locate ctx (eval_path configs i_file))) [
        | none ↦ import_all node ctx configs i_files imported auto_obj
        | some (path, i_ctx) ↦
            (elim (node i_ctx (imported ++ path ∷ []) (dict_or_empty (load_file path))) [
              | none ↦ none
              | some (more, i_auto_obj) ↦
                  (import_all node ctx configs i_files more (merge_under i_auto_obj auto_obj))
            ])
      ]

  -- `parse_import_node`; none is out of fuel.
  unfoldable pub parse_import_node : ℕ → Ctx → List Text → Branches V → Option Imported
  unfolding import_all read remove
  parse_import_node zero ctx imported auto_obj = none
  parse_import_node (suc fuel) ctx imported auto_obj =
      let rest = remove auto_obj import_key in
      import_all (parse_import_node fuel) ctx (read rest configs_key)
        (imports_of (read auto_obj import_key)) imported rest
