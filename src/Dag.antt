-- ===== src/Dag.antt =====
-- smart/utils/dag.py: how the dependences of items are collected and looked up. A set of pairs is the
-- list of its pairs, each once, in the order in which they were added.
pub mod Declared
pub mod Sort
pub mod Items
pub mod Cycle
mod Samples
use smartlibs.Prelude.{
  List, [], ◌∷◌, ◌++◌, Bool, true, false, ◌&&◌, ◌||◌, Option, none, some, Comparable, ◌==◌,
  if◌then◌else◌,
}
use smartlibs.Dict.{Dict, get, set}

-- An item with the lists under `prev_key_name` and `next_key_name`, which may be missing.
pub record Item (K : Type 0) : Type 0 where
  pub key : K
  pub prev_keys : Option (List K)
  pub next_keys : Option (List K)

-- Which of the two names `DagItemsTool` has.
pub record DagItemsTool : Type 0 where
  pub prev_key_name : Bool
  pub next_key_name : Bool

-- `obj.get(name) or []`
abbrev pub or_empty : {A : Type 0} → Option (List A) → List A
or_empty none = []
or_empty (some xs) = xs

module _ {K : Type 0} ⦃e : Comparable K⦄ where
  abbrev pub has_pair : List (K × K) → K → K → Bool
  has_pair [] p k = false
  has_pair ((i, j) ∷ s) p k = i == p && j == k || has_pair s p k

  -- `dependance_set.add((p, k))`
  unfoldable pub add_pair : List (K × K) → K → K → List (K × K)
  add_pair s p k = if has_pair s p k then s else s ++ (p, k) ∷ []

  unfoldable pub add_prevs : K → List K → List (K × K) → List (K × K)
  unfolding add_pair
  add_prevs key [] s = s
  add_prevs key (prev_key ∷ prevs) s = add_prevs key prevs (add_pair s prev_key key)

  unfoldable pub add_nexts : K → List K → List (K × K) → List (K × K)
  unfolding add_pair
  add_nexts key [] s = s
  add_nexts key (next_key ∷ nexts) s = add_nexts key nexts (add_pair s key next_key)

  -- The loop of `get_dependance_set`.
  unfoldable pub add_items : DagItemsTool → List (Item K) → List (K × K) → List (K × K)
  unfolding add_prevs add_nexts
  add_items tool [] s = s
  add_items tool (item ∷ items) s =
      let s1 = if tool.prev_key_name then add_prevs item.key (or_empty item.prev_keys) s else s in
      let s2 = if tool.next_key_name then add_nexts item.key (or_empty item.next_keys) s1 else s1 in
      add_items tool items s2

  -- None is the AssertionError of a tool without names, which items of none do not meet.
  unfoldable pub get_dependance_set : DagItemsTool → List (Item K) → Option (List (K × K))
  unfolding add_items
  get_dependance_set tool [] = some []
  get_dependance_set tool (item ∷ items) =
      if tool.prev_key_name || tool.next_key_name
      then some (add_items tool (item ∷ items) [])
      else none

  unfoldable pub append_dep : Dict K (List K) → K → K → Dict K (List K)
  unfolding get set
  append_dep dep_dict key dep = set dep_dict key (or_empty (get dep_dict key) ++ dep ∷ [])

  unfoldable pub set2dict_from : Bool → List (K × K) → Dict K (List K) → Dict K (List K)
  unfolding append_dep
  set2dict_from next_as_key [] dep_dict = dep_dict
  set2dict_from next_as_key ((prev_key, next_key) ∷ s) dep_dict =
      let more =
        if next_as_key
        then append_dep dep_dict next_key prev_key
        else append_dep dep_dict prev_key next_key in
      set2dict_from next_as_key s more

  unfoldable pub dag_dependance_set2dict : List (K × K) → Bool → Dict K (List K)
  unfolding set2dict_from
  dag_dependance_set2dict dependance_set next_as_key = set2dict_from next_as_key dependance_set []
