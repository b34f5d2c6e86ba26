-- ===== src/AutoYml/Flatten.antt =====
-- smart/auto/parser/auto_yml.py: dict_flattern, which puts the items below keys that end with a dot
-- beside them, under their joined keys.
pub mod Paths
use smartlibs.Prelude.{ℕ, [], ◌∷◌, ◌++◌, List, Bool, true, false, Eq-nat, contains, if◌then◌else◌}
use smartlibs.Text.{Text}
use smartlibs.Nested.{Tree, null, leaf, dict, Branches, end, entry, write}

-- `len(sub_key) and sub_key[-1] in flattern_end`
unfoldable pub ends_in : List ℕ → Text → Bool
ends_in flattern_end [] = false
ends_in flattern_end (c ∷ []) = contains c flattern_end
ends_in flattern_end (c ∷ d ∷ t) = ends_in flattern_end (d ∷ t)

module _ {V : Type 0} where
  -- `updated_node[sub_key+k] = v` for the items of a node.
  unfoldable pub put_below : Text → Branches V → Branches V → Branches V
  unfolding write
  put_below sub_key end updated_node = updated_node
  put_below sub_key (entry k v more) updated_node =
      put_below sub_key more (write updated_node (sub_key ++ k) v)

  -- The loop over the items of a node; a plain value below a key that ends so is dropped.
  unfoldable pub flatten_from : List ℕ → Branches V → Branches V → Branches V
  unfolding put_below ends_in write
  flatten_from flattern_end end updated_node = updated_node
  flatten_from flattern_end (entry k null more) updated_node =
      flatten_from flattern_end more
        (if ends_in flattern_end k then updated_node else write updated_node k null)
  flatten_from flattern_end (entry k (leaf v) more) updated_node =
      flatten_from flattern_end more
        (if ends_in flattern_end k then updated_node else write updated_node k (leaf v))
  flatten_from flattern_end (entry k (dict sub) more) updated_node =
      let below = flatten_from flattern_end sub end in
      flatten_from flattern_end more (
        if ends_in flattern_end k
        then put_below k below updated_node
        else write updated_node k (dict sub))

  -- `dict_flattern` at one key, from its node to the updated node.
  unfoldable pub dict_flattern : List ℕ → Branches V → Branches V
  unfolding flatten_from
  dict_flattern flattern_end node = flatten_from flattern_end node end
