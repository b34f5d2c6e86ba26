-- ===== src/Dag/Items.antt =====
-- smart/utils/dag.py: DagItemsTool.sort_items and sort_item_dict.
pub mod Order
pub mod Ordered
use smartlibs.Prelude.{
  List, [], ◌∷◌, Bool, true, false, Option, none, some, Comparable, if◌then◌else◌, is_empty,
}
use smartlibs.Dict.{Dict, update}
use smartlibs.Dag.{Item, DagItemsTool, get_dependance_set}
use smartlibs.Dag.Sort.{SortEnd, sorted, has_cycle, no_key, no_fuel, dag_sort}

module _ {K : Type 0} ⦃e : Comparable K⦄ where
  -- `__iter_items`
  abbrev pub iter_items : List (Item K) → List (K × Item K)
  iter_items [] = []
  iter_items (item ∷ items) = (item.key, item) ∷ iter_items items

  -- None is the AssertionError of get_dependance_set.
  unfoldable pub sort_items : DagItemsTool → List (Item K) → Bool → Option (SortEnd K (Item K))
  unfolding get_dependance_set dag_sort
  sort_items tool items raise = elim (get_dependance_set tool items) [
    | none ↦ none
    | some dependance_set ↦ some (dag_sort (iter_items items) dependance_set raise)
  ]

  -- `OrderedDict` of the sorted pairs.
  unfoldable pub ordered_dict : {V : Type 0} → SortEnd K V → SortEnd K V
  unfolding update
  ordered_dict (sorted out) = sorted (update [] out)
  ordered_dict (has_cycle c) = has_cycle c
  ordered_dict no_key = no_key
  ordered_dict no_fuel = no_fuel

  -- The dictionary `item_dict` is the list of its items, each with its key.
  unfoldable pub sort_item_dict : DagItemsTool → List (Item K) → Bool → Option (SortEnd K (Item K))
  unfolding get_dependance_set dag_sort ordered_dict
  sort_item_dict tool item_dict raise = elim (get_dependance_set tool item_dict) [
    | none ↦ none
    | some dependance_set ↦
        (some (
          if is_empty dependance_set
          then sorted (iter_items item_dict)
          else ordered_dict (dag_sort (iter_items item_dict) dependance_set raise)))
  ]
