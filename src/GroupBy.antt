-- ===== src/GroupBy.antt =====
-- smart/utils/item.py: `ItemGroupBy`, which groups dictionaries by the values of some keys. The items
-- are copied (`copy_item`), so a group key that is popped stays in the caller's item.
pub mod Groups
mod Samples
use smartlibs.Prelude.{
  List, [], ◌∷◌, ◌++◌, map, Bool, true, false, Option, none, some, Comparable, if◌then◌else◌,
  Eq-list, contains,
}
use smartlibs.Dict.{Dict, get, set, del}

module _ {K V : Type 0} ⦃e : Comparable K⦄ where
  -- `item.get(key, default)` for each key.
  unfoldable pub get_values : Dict K V → List (K × V) → List V
  unfolding get
  get_values item [] = []
  get_values item ((key, default) ∷ keys) =
      elim (get item key) [ none ↦ default | some v ↦ v ] ∷ get_values item keys

  -- `item.pop(key, default)` for each key, one after the other.
  unfoldable pub pop_values : Dict K V → List (K × V) → List V × Dict K V
  unfolding get del
  pop_values item [] = ([], item)
  pop_values item ((key, default) ∷ keys) =
      let (values, rest) = pop_values (del item key) keys in
      (elim (get item key) [ none ↦ default | some v ↦ v ] ∷ values, rest)

  unfoldable pub parse_item : Bool → List (K × V) → Dict K V → List V × Dict K V
  unfolding get_values pop_values
  parse_item true keys item = (get_values item keys, item)
  parse_item false keys item = pop_values item keys

module _ {G A : Type 0} ⦃e : Comparable G⦄ where
  -- `group[group_key].append(other)`, on a new list where there is none.
  unfoldable pub append_at : Dict G (List A) → G → A → Dict G (List A)
  unfolding get set
  append_at group key other = elim (get group key) [
    | none ↦ set group key (other ∷ [])
    | some items ↦ set group key (items ++ other ∷ [])
  ]

  -- The loop of `__iter_group`, on the parsed items.
  unfoldable pub group_pairs : Dict G (List A) → List (G × A) → Dict G (List A)
  unfolding append_at
  group_pairs group [] = group
  group_pairs group ((key, other) ∷ pairs) = group_pairs (append_at group key other) pairs

  -- The loop of `__iter_only_group_val`: `all_key` is the set of the keys that were yielded.
  unfoldable pub new_keys : List G → List (G × A) → List G
  new_keys all_key [] = []
  new_keys all_key ((key, other) ∷ pairs) =
      let later = new_keys (all_key ++ key ∷ []) pairs in
      let same = new_keys all_key pairs in if contains key all_key then same else key ∷ later

module _ {K V : Type 0} ⦃e : Comparable K⦄ ⦃d : Comparable V⦄ where
  -- `ItemGroupBy(items, keys)()`
  unfoldable pub iter_group :
      Bool → List (K × V) → List (Dict K V) → Dict (List V) (List (Dict K V))
  unfolding group_pairs parse_item
  iter_group no_pop_group_key keys items =
      group_pairs [] (map (parse_item no_pop_group_key keys) items)

  -- `ItemGroupBy(items, keys, only_group_val=True)()`
  unfoldable pub iter_only_group_val : Bool → List (K × V) → List (Dict K V) → List (List V)
  unfolding new_keys parse_item
  iter_only_group_val no_pop_group_key keys items =
      new_keys [] (map (parse_item no_pop_group_key keys) items)
