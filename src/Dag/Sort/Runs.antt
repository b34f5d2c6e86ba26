-- ===== src/Dag/Sort/Runs.antt =====
-- All items get their keys, or the run stops at a cycle; a run that meets no cycle does not depend on
-- `raise_err_on_cycle`.
use smartlibs.Prelude.{
  ℕ, zero, suc, ◌+◌, ◌<◌, List, [], ◌∷◌, ◌++◌, ◌≡◌, refl, Bool, true, false, Option, some,
  Comparable, Eq-nat, arith, Option-cases, Bool-cases, nat_eq, inl, inr, ◌⊎◌, nat_eq_iff,
}
use smartlibs.Dict.{Dict, get}
use smartlibs.Dag.Sort.{
  SortKey, SortKeys, Visit, keyed, cycle, unset, too_deep, visit_then, Turn, skip, on_chain, follow,
  turn_at, add_prev_keys, set_sort_key, set_sort_keys,
}
use smartlibs.Dag.Sort.Chains.{Ordered, IsCycle, free}
use smartlibs.Dag.Sort.Visits.{Visited, EndsWell, set_sort_key-EndsWell}

Turn-cases : (t : Turn) → (t ≡ skip) ⊎ (((j : ℕ) × (t ≡ on_chain j)) ⊎ ((j : ℕ) × (t ≡ follow j)))
Turn-cases skip = inl refl
Turn-cases (on_chain j) = inr (inl (j, refl))
Turn-cases (follow j) = inr (inr (j, refl))

keyed_so :
    (r : Visit)
    → (f : SortKeys → Visit) {last : SortKeys} → visit_then r f ≡ keyed last
    → (more : SortKeys) × (r ≡ keyed more) × (f more ≡ keyed last)
keyed_so (keyed more) f h = (more, refl, h)
keyed_so (cycle c) f h = cc
keyed_so unset f h = cc
keyed_so too_deep f h = cc

free-nil : (n : ℕ) → free [] n ≡ n
free-nil zero = refl
free-nil (suc n) = omega (arith, free-nil n)

module _ {K : Type 0} ⦃e : Comparable K⦄ (key_idx_map : Dict K ℕ) where
  add_prev_keys-same :
      (visit lenient : ℕ → List ℕ → SortKeys → Visit)
      → ((j : ℕ) (chain : List ℕ) (sort_keys more : SortKeys)
          → visit j chain sort_keys ≡ keyed more
          → lenient j chain sort_keys ≡ keyed more)
      → (i : ℕ) (chain : List ℕ) (prev_keys : List K) (sort_keys : SortKeys) (found : List SortKey)
        (last : SortKeys)
      → add_prev_keys true key_idx_map visit i chain prev_keys sort_keys found ≡ keyed last
      → add_prev_keys false key_idx_map lenient i chain prev_keys sort_keys found ≡ keyed last
  unfolding add_prev_keys
  add_prev_keys-same visit lenient same i chain [] sort_keys found last h = h
  add_prev_keys-same visit lenient same i chain (p ∷ ps) sort_keys found last h =
      elim (Turn-cases (turn_at i chain (get key_idx_map p))) [
        | inl t ↦
            rw (t, add_prev_keys)
              (add_prev_keys-same visit lenient same i chain ps sort_keys found last
                (rw (t, add_prev_keys) at h))
        | inr (inl (j, t)) ↦ let bad = rw (t, add_prev_keys) at h in absurd (cc bad)
        | inr (inr (j, t)) ↦
            (let h' = rw (t, add_prev_keys) at h in
              let (more, visited, after) = keyed_so _ _ h' in
              rw (t, same j chain sort_keys more visited, add_prev_keys, visit_then)
                (elim (Option-cases (get more j)) [
                  | inl missing ↦ let bad = rw missing at after in absurd (cc bad)
                  | inr (k, at_j) ↦
                      rw (at_j, visit_then)
                        (add_prev_keys-same visit lenient same i chain ps more (found ++ k ∷ [])
                          last (rw at_j at after))
                ]))
      ]

  module _ (prev_keys_at : ℕ → Option (List K)) where
    set_sort_key-same :
        (fuel i : ℕ) (chain : List ℕ) (sort_keys last : SortKeys)
        → set_sort_key true key_idx_map prev_keys_at fuel i chain sort_keys ≡ keyed last
        → set_sort_key false key_idx_map prev_keys_at fuel i chain sort_keys ≡ keyed last
    unfolding set_sort_key
    set_sort_key-same zero i chain sort_keys last h = cc
    set_sort_key-same (suc fuel) i chain sort_keys last h = elim (Option-cases (get sort_keys i)) [
      | inr (k, old) ↦ rw (old, set_sort_key) (rw (old, set_sort_key) at h)
      | inl new ↦ elim (Option-cases (prev_keys_at i)) [
        | inl nothing ↦ rw (new, nothing, set_sort_key) (rw (new, nothing, set_sort_key) at h)
        | inr (ps, listed) ↦
            rw (new, listed, set_sort_key)
              (add_prev_keys-same (set_sort_key true key_idx_map prev_keys_at fuel)
                (set_sort_key false key_idx_map prev_keys_at fuel) (set_sort_key-same fuel) i
                (chain ++ i ∷ []) ps sort_keys [] last (rw (new, listed, set_sort_key) at h))
      ]
    ]

    pub set_sort_keys-same :
        (fuel more i : ℕ) (sort_keys last : SortKeys)
        → set_sort_keys true key_idx_map prev_keys_at fuel more i sort_keys ≡ keyed last
        → set_sort_keys false key_idx_map prev_keys_at fuel more i sort_keys ≡ keyed last
    unfolding set_sort_keys
    set_sort_keys-same fuel zero i sort_keys last h = h
    set_sort_keys-same fuel (suc more) i sort_keys last h =
        let (mid, first, rest) = keyed_so _ _ h in
        rw (set_sort_key-same fuel i [] sort_keys mid first)
          (set_sort_keys-same fuel more (i + 1) mid last rest)

    module _ (raise : Bool) (n : ℕ)
        (bounded : (p : K) (j : ℕ) → get key_idx_map p ≡ some j → j < n) where
      -- How the whole loop ends.
      abbrev pub RunEnds : Visit → Type 0
      RunEnds (keyed sort_keys) =
          ((i : ℕ) → i < n → (k : SortKey) × (get sort_keys i ≡ some k))
          × (raise ≡ true → Ordered key_idx_map prev_keys_at sort_keys)
      RunEnds (cycle c) = (raise ≡ true) × IsCycle key_idx_map prev_keys_at c
      RunEnds unset = ⊥
      RunEnds too_deep = ⊥

      visit_then-RunEnds :
          (sort_keys : SortKeys) (i : ℕ) (r : Visit) (f : SortKeys → Visit)
          → EndsWell key_idx_map prev_keys_at raise sort_keys [] i r
          → ((more : SortKeys)
              → Visited key_idx_map prev_keys_at raise sort_keys [] i more
              → RunEnds (f more))
          → RunEnds (visit_then r f)
      visit_then-RunEnds sort_keys i (keyed more) f h then_f = then_f more h
      visit_then-RunEnds sort_keys i (cycle c) f h then_f = h
      visit_then-RunEnds sort_keys i unset f h then_f = h
      visit_then-RunEnds sort_keys i too_deep f h then_f = h

      pub set_sort_keys-RunEnds :
          (more i : ℕ) (sort_keys : SortKeys)
          → i + more ≡ n
          → ((x : ℕ) → x < i → (k : SortKey) × (get sort_keys x ≡ some k))
          → (raise ≡ true → Ordered key_idx_map prev_keys_at sort_keys)
          → RunEnds (set_sort_keys raise key_idx_map prev_keys_at n more i sort_keys)
      unfolding set_sort_keys
      set_sort_keys-RunEnds zero i sort_keys all so_far ord = (λ x lt. so_far x (omega arith), ord)
      set_sort_keys-RunEnds (suc more) i sort_keys all so_far ord =
          visit_then-RunEnds sort_keys i _ _
            (set_sort_key-EndsWell key_idx_map prev_keys_at raise n bounded n i [] sort_keys
              (omega (arith, free-nil n)) (omega arith) refl tt)
            λ next v.
              set_sort_keys-RunEnds more (i + 1) next (omega arith)
                (λ x lt. elim (Bool-cases (nat_eq x i)) [
                  | inl same ↦ rw ((nat_eq_iff x i).0 same) v.own
                  | inr less ↦
                      (let (k, old) = so_far x (ground (arith, lt, less)) in (k, v.kept x k old))
                ])
                (λ h. v.ordered h (ord h))
