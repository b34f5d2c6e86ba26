-- ===== src/Items.antt =====
-- smart/evals/core/item.py: `ItemList` and its table, `ItemMatrix`. What an item is does not matter.
pub mod Filters
pub mod Grouping
pub mod Matrix
mod Samples
use smartlibs.Prelude.{
  ℕ, List, [], ◌∷◌, ◌++◌, map, Bool, true, false, not, ◌&&◌, ◌||◌, Option, none, some, Comparable,
  if◌then◌else◌, all, any, select,
}
use smartlibs.Dict.{Dict, get, set}

module _ {A : Type 0} where
  unfoldable pub filter : (A → Bool) → List A → List A
  filter fn values = select fn values

  unfoldable pub filter_not : (A → Bool) → List A → List A
  filter_not fn values = select (λ item. not (fn item)) values

  unfoldable pub filter_all : List (A → Bool) → List A → List A
  filter_all fn_list values = select (λ item. all (λ fn. fn item) fn_list) values

  unfoldable pub filter_any : List (A → Bool) → List A → List A
  filter_any fn_list values = select (λ item. any (λ fn. fn item) fn_list) values

module _ {A G : Type 0} ⦃e : Comparable G⦄ where
  -- The groups that are there from the start, each empty.
  unfoldable pub given_groups : List G → Dict G (List A) → Dict G (List A)
  unfolding set
  given_groups [] all_group = all_group
  given_groups (key ∷ keys) all_group = given_groups keys (set all_group key [])

  -- One item into one group, which is made where it is not there.
  unfoldable pub add_to_group : Dict G (List A) → G → A → Dict G (List A)
  unfolding get set
  add_to_group all_group group_name item = elim (get all_group group_name) [
    | none ↦ set all_group group_name (item ∷ [])
    | some items ↦ set all_group group_name (items ++ item ∷ [])
  ]

  unfoldable pub add_to_groups : Dict G (List A) → List G → A → Dict G (List A)
  unfolding add_to_group
  add_to_groups all_group [] item = all_group
  add_to_groups all_group (name ∷ names) item =
      add_to_groups (add_to_group all_group name item) names item

  unfoldable pub group_items : (A → List G) → List A → Dict G (List A) → Dict G (List A)
  unfolding add_to_groups
  group_items fn [] all_group = all_group
  group_items fn (item ∷ values) all_group =
      group_items fn values (add_to_groups all_group (fn item) item)

  -- `multi_group`, where a name that is no list is a list of one.
  unfoldable pub multi_group : (A → List G) → List G → List A → Dict G (List A)
  unfolding group_items given_groups
  multi_group fn group_keys values = group_items fn values (given_groups group_keys [])

  -- The loop of `group`.
  unfoldable pub group_each : (A → G) → List A → Dict G (List A) → Dict G (List A)
  unfolding add_to_group
  group_each fn [] all_group = all_group
  group_each fn (item ∷ values) all_group =
      group_each fn values (add_to_group all_group (fn item) item)

  unfoldable pub group : (A → G) → List G → List A → Dict G (List A)
  unfolding group_each given_groups
  group fn group_keys values = group_each fn values (given_groups group_keys [])

  -- The pairs that `multi_group_item_iter_fn` yields.
  unfoldable pub multi_group_item_iter_fn : (A → List G) → List A → List (G × A)
  multi_group_item_iter_fn group_fn [] = []
  multi_group_item_iter_fn group_fn (item ∷ values) =
      map (λ name. (name, item)) (group_fn item) ++ multi_group_item_iter_fn group_fn values
