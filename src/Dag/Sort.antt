-- ===== src/Dag/Sort.antt =====
-- smart/utils/dag.py: dag_sort. The sort keys of the items, `with_sort_key_list[i][0]`, are a
-- dictionary from the place of an item, in which a key that is still None is missing.
pub mod Lex
pub mod Chains
pub mod Visits
pub mod Runs
pub mod Insertion
pub mod Places
pub mod Result
pub mod Acyclic
use smartlibs.Prelude.{
  ℕ, zero, suc, ◌+◌, List, [], ◌∷◌, ◌++◌, Bool, true, false, ◌&&◌, ◌||◌, Option, none, some,
  Comparable, ◌==◌, Eq-nat, if◌then◌else◌, contains, length, ltb, get_elem?, is_empty,
}
use smartlibs.Dict.{Dict, get, set}
use smartlibs.Dag.{dag_dependance_set2dict}

-- A sort key is a tuple of places.
abbrev pub SortKey : Type 0
SortKey = List ℕ

-- The order of tuples.
unfoldable pub key_lt : SortKey → SortKey → Bool
key_lt [] [] = false
key_lt [] (b ∷ m) = true
key_lt (a ∷ l) [] = false
key_lt (a ∷ l) (b ∷ m) = ltb a b || a == b && key_lt l m

-- `max` keeps the first of the greatest.
unfoldable pub max_from : SortKey → List SortKey → SortKey
unfolding key_lt
max_from m [] = m
max_from m (k ∷ ks) = max_from (if key_lt m k then k else m) ks

-- `tuple()` where there is no key.
unfoldable pub max_key : List SortKey → SortKey
unfolding max_from
max_key [] = []
max_key (k ∷ ks) = max_from k ks

abbrev pub SortKeys : Type 0
SortKeys = Dict ℕ SortKey

-- How a call of `__set_sort_key` ends: with the sort keys; by DagCycleErr, with the places on the
-- cycle; by a TypeError, since the key of an earlier item is None; or out of fuel.
pub data Visit : Type 0 where
  keyed : SortKeys → Visit
  cycle : List ℕ → Visit
  unset : Visit
  too_deep : Visit

abbrev pub visit_then : Visit → (SortKeys → Visit) → Visit
visit_then (keyed sort_keys) f = f sort_keys
visit_then (cycle c) f = cycle c
visit_then unset f = unset
visit_then too_deep f = too_deep

-- What the loop does about one earlier key.
pub data Turn : Type 0 where
  skip : Turn
  on_chain : ℕ → Turn
  follow : ℕ → Turn

abbrev pub turn_at : ℕ → List ℕ → Option ℕ → Turn
turn_at i chain none = skip
turn_at i chain (some prev_i) =
    if prev_i == i then skip else if contains prev_i chain then on_chain prev_i else follow prev_i

module _ {K : Type 0} ⦃e : Comparable K⦄ (raise : Bool) (key_idx_map : Dict K ℕ) where
  -- The loop over `prev_keys`, with the calls on the earlier items as `visit`.
  unfoldable pub add_prev_keys :
      (ℕ → List ℕ → SortKeys → Visit) → ℕ → List ℕ → List K → SortKeys → List SortKey → Visit
  unfolding max_key get set
  add_prev_keys visit i chain [] sort_keys found = keyed (set sort_keys i (max_key found ++ i ∷ []))
  add_prev_keys visit i chain (prev_key ∷ prev_keys) sort_keys found =
      elim (turn_at i chain (get key_idx_map prev_key)) [
        | skip ↦ add_prev_keys visit i chain prev_keys sort_keys found
        | on_chain prev_i ↦
            (let rest = add_prev_keys visit i chain prev_keys sort_keys found in
              if raise then cycle (chain ++ prev_i ∷ []) else rest)
        | follow prev_i ↦
            (visit_then (visit prev_i chain sort_keys) λ more. elim (get more prev_i) [
              | none ↦ unset
              | some k ↦ add_prev_keys visit i chain prev_keys more (found ++ k ∷ [])
            ])
      ]

  module _ (prev_keys_at : ℕ → Option (List K)) where
    -- `__set_sort_key`
    unfoldable pub set_sort_key : ℕ → ℕ → List ℕ → SortKeys → Visit
    unfolding add_prev_keys get set
    set_sort_key zero i chain sort_keys = too_deep
    set_sort_key (suc fuel) i chain sort_keys = elim (get sort_keys i) [
      | some _ ↦ keyed sort_keys
      | none ↦ (elim (prev_keys_at i) [
        | none ↦ keyed (set sort_keys i (i ∷ []))
        | some prev_keys ↦
            (add_prev_keys (set_sort_key fuel) i (chain ++ i ∷ []) prev_keys sort_keys [])
      ])
    ]

    -- `for i in range(len(with_sort_key_list))`, from place `i` on.
    unfoldable pub set_sort_keys : ℕ → ℕ → ℕ → SortKeys → Visit
    unfolding set_sort_key
    set_sort_keys fuel zero i sort_keys = keyed sort_keys
    set_sort_keys fuel (suc more) i sort_keys =
        visit_then (set_sort_key fuel i [] sort_keys) (set_sort_keys fuel more (i + 1))

module _ {A : Type 0} where
  -- `sorted` keeps the order of equal keys.
  unfoldable pub insert_by : SortKey → A → List (SortKey × A) → List (SortKey × A)
  unfolding key_lt
  insert_by k x [] = (k, x) ∷ []
  insert_by k x ((j, y) ∷ l) = if key_lt j k then (j, y) ∷ insert_by k x l else (k, x) ∷ (j, y) ∷ l

  unfoldable pub sorted_by : List (SortKey × A) → List (SortKey × A)
  unfolding insert_by
  sorted_by [] = []
  sorted_by ((k, x) ∷ l) = insert_by k x (sorted_by l)

  abbrev pub objects : List (SortKey × A) → List A
  objects [] = []
  objects ((k, x) ∷ l) = x ∷ objects l

  -- `with_sort_key_list` as the loop leaves it; none where a key is None.
  unfoldable pub with_sort_keys : SortKeys → ℕ → List A → Option (List (SortKey × A))
  unfolding get
  with_sort_keys sort_keys i [] = some []
  with_sort_keys sort_keys i (x ∷ xs) = elim (get sort_keys i) [
    | none ↦ none
    | some k ↦ (elim (with_sort_keys sort_keys (i + 1) xs) [
      | none ↦ none
      | some l ↦ some ((k, x) ∷ l)
    ])
  ]

module _ {K V : Type 0} ⦃e : Comparable K⦄ where
  -- `key_idx_map`: the last place of a key.
  unfoldable pub index_keys : ℕ → List (K × V) → Dict K ℕ → Dict K ℕ
  unfolding set
  index_keys i [] m = m
  index_keys i ((k, _) ∷ l) m = index_keys (i + 1) l (set m k i)

  -- `dep_dict.get(key_obj[0])` at a place.
  unfoldable pub prev_keys_of : List (K × V) → Dict K (List K) → ℕ → Option (List K)
  unfolding get
  prev_keys_of l dep_dict i = elim (get_elem? l i) [ none ↦ none | some (k, _) ↦ get dep_dict k ]

  -- `idx_key_map.get(idx, idx)` of each place, all of which are in the list.
  unfoldable pub key_names : List (K × V) → List ℕ → List K
  key_names l [] = []
  key_names l (i ∷ places) =
      let rest = key_names l places in elim (get_elem? l i) [ none ↦ rest | some (k, _) ↦ k ∷ rest ]

-- The list in its new order, DagCycleErr, a TypeError, or out of fuel.
pub data SortEnd (K V : Type 0) : Type 0 where
  sorted : List (K × V) → SortEnd K V
  has_cycle : List K → SortEnd K V
  no_key : SortEnd K V
  no_fuel : SortEnd K V

abbrev pub sort_end : {K V : Type 0} → Option (List (SortKey × (K × V))) → SortEnd K V
unfolding sorted_by
sort_end none = no_key
sort_end (some l) = sorted (objects (sorted_by l))

module _ {K V : Type 0} ⦃e : Comparable K⦄ where
  unfoldable pub all_sort_keys : Bool → List (K × V) → List (K × K) → Visit
  unfolding index_keys prev_keys_of set_sort_keys dag_dependance_set2dict
  all_sort_keys raise l dependance_set =
      set_sort_keys raise (index_keys 0 l [])
        (prev_keys_of l (dag_dependance_set2dict dependance_set true)) (length l) (length l) 0 []

  unfoldable pub after_keys : List (K × V) → Visit → SortEnd K V
  unfolding with_sort_keys sort_end key_names
  after_keys l (keyed sort_keys) = sort_end (with_sort_keys sort_keys 0 l)
  after_keys l (cycle c) = has_cycle (key_names l c)
  after_keys l unset = no_key
  after_keys l too_deep = no_fuel

  unfoldable pub dag_sort : List (K × V) → List (K × K) → Bool → SortEnd K V
  unfolding all_sort_keys after_keys
  dag_sort l dependance_set raise =
      if is_empty l || is_empty dependance_set
      then sorted l
      else after_keys l (all_sort_keys raise l dependance_set)
