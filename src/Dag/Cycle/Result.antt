-- ===== src/Dag/Cycle/Result.antt =====
-- dag_find_cycle as a decision: all keys are searched, and a cycle does not escape the search.
use mathlib.Core.List.{reverse}
use smartlibs.Prelude.{
  ℕ, suc, ◌+◌, ◌<◌, List, [], ◌∷◌, ◌≡◌, refl, inl, inr, true, false, Option, none, some, Comparable,
  ◌==◌, arith, contains, missing, length, Bool-cases, Option-cases,
}
use smartlibs.Dict.{Dict, get, keys}
use smartlibs.Dag.{or_empty, has_pair, dag_dependance_set2dict}
use smartlibs.Dag.Declared.{set2dict_from_lem}
use smartlibs.Dag.Sort.Places.{IsNamedCycle}
use smartlibs.Dag.Cycle.{
  Search, found, clean, too_deep, unless_found, find_from, dag_find_cycle, raised,
  dag_assert_no_cycle,
}
use smartlibs.Dag.Cycle.Decides.{AreSafe, EndsWell, find_cycle-EndsWell, get-has_pair, get-contains}
use smartlibs.Dag.Cycle.Walks.{Closes, at_once, onwards, cycle-Closes}

missing-none :
    {K : Type 0} ⦃e : Comparable K⦄ (all_keys : List K) → missing [] all_keys ≡ length all_keys
missing-none [] = refl
missing-none (k ∷ all_keys) = ground (arith, missing-none all_keys)

module _ {K : Type 0} ⦃e : Comparable K⦄ (s : List (K × K)) where
  -- What a search for a cycle is to give: a cycle, from its last key back to its first, or the keys
  -- that were found safe, where there is none.
  abbrev pub Decides : Search K → Type 0
  Decides (found c) = IsNamedCycle s (reverse c)
  Decides (clean safe_keys) = (names : List K) → ¬ IsNamedCycle s names
  Decides too_deep = ⊥

  module _ (dep_dict : Dict K (List K))
      (lists : (k p : K) → contains p (or_empty (get dep_dict k)) ≡ has_pair s p k) where
    abbrev FromEnds : List K → Search K → Type 0
    FromEnds more (found c) = IsNamedCycle s (reverse c)
    FromEnds more (clean safe_keys) = (x : K) → contains x more ≡ true → Closes s x [] → ⊥
    FromEnds more too_deep = ⊥

    FromEnds-next :
        (key : K) (more : List K) (r : Search K)
        → (Closes s key [] → ⊥)
        → FromEnds more r
        → FromEnds (key ∷ more) r
    FromEnds-next key more (found c) h k = k
    FromEnds-next key more too_deep h k = k
    FromEnds-next key more (clean safe_keys) h k = λ x m w. elim (Bool-cases (x == key)) [
      | inl same ↦ h (rw ((e.is_same_iff x key).0 same) at w)
      | inr other ↦ k x (ground (arith, m, other)) w
    ]

    unless_found-FromEnds :
        (key : K) (more : List K) (r : Search K) (f : List K → Search K)
        → EndsWell s dep_dict lists key [] r
        → ((safe_keys : List K) → AreSafe s dep_dict lists safe_keys → FromEnds more (f safe_keys))
        → FromEnds (key ∷ more) (unless_found r f)
    unless_found-FromEnds key more (found c) f h rest = h
    unless_found-FromEnds key more too_deep f h rest = h
    unless_found-FromEnds key more (clean safe_keys) f h rest =
        FromEnds-next key more (f safe_keys) h.1 (rest safe_keys h.0)

    safe-open : (x : K) → ((y : K) → has_pair s y x ≡ false) → Closes s x [] → ⊥
    safe-open x safe (at_once y link on) = let b = safe y in cc
    safe-open x safe (onwards y link rest) = let b = safe y in cc

    find_from-FromEnds :
        (fuel : ℕ)
        → length (keys dep_dict) + length (keys dep_dict) < fuel
        → (more safe_keys : List K) → AreSafe s dep_dict lists safe_keys
        → FromEnds more (find_from dep_dict fuel more safe_keys)
    unfolding find_from
    find_from-FromEnds fuel lt [] safe_keys safe = λ x m. absurd (cc m)
    find_from-FromEnds fuel lt (key ∷ more) safe_keys safe =
        elim (Bool-cases (contains key safe_keys)) [
          | inl old ↦
              rw (old, find_from)
                (FromEnds-next key more _ (safe-open key (safe key old))
                  (find_from-FromEnds fuel lt more safe_keys safe))
          | inr new ↦
              rw (new, find_from)
                (unless_found-FromEnds key more _ _
                  (find_cycle-EndsWell s dep_dict lists fuel key [] safe_keys
                    (let full = missing-none (keys dep_dict) in ground arith) tt safe)
                  (λ safe2 ok. find_from-FromEnds fuel lt more safe2 ok))
        ]

    find_from-Decides : (r : Search K) → FromEnds (keys dep_dict) r → Decides r
    find_from-Decides (found c) h = h
    find_from-Decides too_deep h = h
    find_from-Decides (clean safe_keys) h = λ names cycle.
        let walk =
          cycle-Closes s cycle.front cycle.last (rw cycle.parts at cycle.linked) cycle.closed in
        elim (Option-cases (get dep_dict cycle.last)) [
          | inl missed ↦
              safe-open cycle.last (λ y. get-has_pair s dep_dict lists cycle.last y none missed)
                walk
          | inr (deps, there) ↦
              h cycle.last (get-contains s dep_dict lists dep_dict cycle.last deps there) walk
        ]

  -- dag_find_cycle comes to an end, with a cycle where there is one.
  pub dag_find_cycle-Decides : Decides (dag_find_cycle s)
  unfolding dag_find_cycle dag_dependance_set2dict get
  dag_find_cycle-Decides =
      let dep_dict = dag_dependance_set2dict s true in
      let lists : (k p : K) → contains p (or_empty (get dep_dict k)) ≡ has_pair s p k =
        λ k p. set2dict_from_lem true s [] k p in
      find_from-Decides dep_dict lists _ (
        find_from-FromEnds dep_dict lists (suc (length (keys dep_dict) + length (keys dep_dict)))
          (omega arith) (keys dep_dict) [] (λ x m. absurd (cc m)))

  -- What dag_assert_no_cycle is to give: the cycle that it raises, or none where there is no cycle.
  abbrev pub Asserts : Option (List K) → Type 0
  Asserts (some c) = IsNamedCycle s (reverse c)
  Asserts none = (names : List K) → ¬ IsNamedCycle s names

  Decides-Asserts : (r : Search K) → Decides r → Asserts (raised r)
  Decides-Asserts (found c) h = h
  Decides-Asserts (clean safe_keys) h = h
  Decides-Asserts too_deep h = absurd h

  -- dag_assert_no_cycle, with the search of dag_find_cycle, decides whether the dependences have a
  -- cycle: what it raises is a list of keys that, read backwards, goes from each key to one that comes
  -- before it and ends at a key that it has met; where it raises nothing, no list of keys is such a
  -- cycle.
  pub dag_assert_no_cycle-Asserts : Asserts (dag_assert_no_cycle s)
  unfolding dag_assert_no_cycle
  dag_assert_no_cycle-Asserts = Decides-Asserts (dag_find_cycle s) dag_find_cycle-Decides
