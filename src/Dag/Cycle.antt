-- ===== src/Dag/Cycle.antt =====
-- smart/utils/dag.py: dag_find_cycle and dag_assert_no_cycle.
pub mod Walks
pub mod Decides
pub mod Result
use mathlib.Core.List.{reverse}
use smartlibs.Prelude.{
  ℕ, zero, suc, ◌+◌, List, [], ◌∷◌, ◌++◌, Bool, true, false, Option, none, some, Comparable, ◌==◌,
  if◌then◌else◌, contains, length,
}
use smartlibs.Dict.{Dict, get, keys}
use smartlibs.Dag.{dag_dependance_set2dict}

-- How a search ends: with a cycle, or with the keys that are safe; or out of fuel.
pub data Search (K : Type 0) : Type 0 where
  found : List K → Search K
  clean : List K → Search K
  too_deep : Search K

module _ {K : Type 0} ⦃e : Comparable K⦄ where
  -- `key_chain[key_chain.index(dep_key):]`
  unfoldable pub drop_to : K → List K → List K
  drop_to k [] = []
  drop_to k (x ∷ chain) = let rest = drop_to k chain in if x == k then x ∷ chain else rest

  abbrev pub add_safe : List K → K → List K
  add_safe safe_keys k = if contains k safe_keys then safe_keys else safe_keys ++ k ∷ []

  abbrev pub unless_found : Search K → (List K → Search K) → Search K
  unless_found (found c) f = found c
  unless_found (clean safe_keys) f = f safe_keys
  unless_found too_deep f = too_deep

  -- The loop over the keys before `curr_key`, with the calls on them as `visit`.
  unfoldable pub find_among :
      (K → List K → List K → Search K) → K → List K → List K → List K → Search K
  unfolding drop_to
  find_among visit curr_key key_chain [] safe_keys = clean safe_keys
  find_among visit curr_key key_chain (dep_key ∷ deps) safe_keys =
      let rest =
        unless_found (visit dep_key (key_chain ++ curr_key ∷ []) safe_keys)
          (find_among visit curr_key key_chain deps) in
      if contains dep_key key_chain
      then found (reverse (drop_to dep_key key_chain ++ (curr_key ∷ dep_key ∷ [])))
      else rest

  module _ (dep_dict : Dict K (List K)) where
    -- `find_cycle`
    unfoldable pub find_cycle : ℕ → K → List K → List K → Search K
    unfolding find_among get
    find_cycle zero curr_key key_chain safe_keys = too_deep
    find_cycle (suc fuel) curr_key key_chain safe_keys = elim (get dep_dict curr_key) [
      | none ↦ clean (add_safe safe_keys curr_key)
      | some deps ↦ find_among (find_cycle fuel) curr_key key_chain deps safe_keys
    ]

    -- The loop over the keys of the dictionary.
    unfoldable pub find_from : ℕ → List K → List K → Search K
    unfolding find_cycle
    find_from fuel [] safe_keys = clean safe_keys
    find_from fuel (key ∷ more) safe_keys =
        let searched = unless_found (find_cycle fuel key [] safe_keys) (find_from fuel more) in
        let rest = find_from fuel more safe_keys in
        if contains key safe_keys then rest else searched

  -- A search goes at most twice as deep as there are keys with dependences.
  unfoldable pub dag_find_cycle : List (K × K) → Search K
  unfolding find_from dag_dependance_set2dict
  dag_find_cycle dependance_set =
      let dep_dict = dag_dependance_set2dict dependance_set true in
      let all_keys = keys dep_dict in
      find_from dep_dict (suc (length all_keys + length all_keys)) all_keys []

  -- The cycle of the DagCycleErr, if there is one.
  abbrev pub raised : Search K → Option (List K)
  raised (found c) = some c
  raised (clean safe_keys) = none
  raised too_deep = none

  unfoldable pub dag_assert_no_cycle : List (K × K) → Option (List K)
  unfolding dag_find_cycle
  dag_assert_no_cycle dependance_set = raised (dag_find_cycle dependance_set)
