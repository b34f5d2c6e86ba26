-- ===== src/Dag/Sort/Acyclic.antt =====
-- dag_sort where no key comes before itself.
use mathlib.Core.List.{Perm}
use smartlibs.Prelude.{
  ℕ, ◌<◌, List, [], ◌∷◌, ◌++◌, ◌≡◌, refl, sym, ap, ◌∙◌, Bool, true, false, Comparable, ◌==◌, arith,
  contains, Bool-cases, inl, inr, length,
}
use smartlibs.Dag.{has_pair, dag_dependance_set2dict}
use smartlibs.Dag.Sort.{
  Visit, keyed, cycle, unset, too_deep, SortEnd, sorted, has_cycle, no_key, no_fuel, all_sort_keys,
  after_keys, dag_sort, index_keys, prev_keys_of, SortKeys,
}
use smartlibs.Dag.Sort.Runs.{set_sort_keys-same}
use smartlibs.Dag.Sort.Places.{LinkedNames, IsNamedCycle}
use smartlibs.Dag.Sort.Result.{InOrder, SortEnds, dag_sort-SortEnds}

module _ {K : Type 0} ⦃e : Comparable K⦄ (s : List (K × K)) (rank : K → ℕ)
    (rises : (p k : K) → has_pair s p k ≡ true → rank p < rank k) where
  rank-linked :
      (front : List K) (last x : K)
      → LinkedNames s (front ++ last ∷ [])
      → contains x front ≡ true
      → rank last < rank x
  rank-linked [] last x h m = cc
  rank-linked (a ∷ []) last x h m =
      let same : x ≡ a = ground (arith, m, e.is_same_iff x a) in rw same (rises last a h.0)
  rank-linked (a ∷ b ∷ front) last x h m = elim (Bool-cases (x == a)) [
    | inl same ↦
        (let lt = rises b a h.0 in
          let more = rank-linked (b ∷ front) last b h.1 (ground (arith, e.is_same_iff b b)) in
          rw ((e.is_same_iff x a).0 same) (omega arith))
    | inr other ↦ rank-linked (b ∷ front) last x h.1 (ground (arith, m, other))
  ]

  no_cycle : (names : List K) → IsNamedCycle s names → ⊥
  no_cycle names c =
      let lt = rank-linked c.front c.last c.last (rw c.parts at c.linked) c.closed in omega arith

-- What dag_sort promises where there is no cycle.
pub record SortsWell {K V : Type 0} ⦃e : Comparable K⦄ (l : List (K × V)) (s : List (K × K))
    (r : SortEnd K V) : Type 0 where
  pub out : List (K × V)
  pub result : r ≡ sorted out
  pub same_items : Perm out l
  pub in_order : InOrder l s out

module _ {K V : Type 0} ⦃e : Comparable K⦄ where
  sort_keys_of :
      (l : List (K × V)) (r : Visit) {out : List (K × V)}
      → after_keys l r ≡ sorted out
      → (sort_keys : SortKeys) × (r ≡ keyed sort_keys)
  unfolding after_keys
  sort_keys_of l (keyed sort_keys) h = (sort_keys, refl)
  sort_keys_of l (cycle c) h = absurd (cc h)
  sort_keys_of l unset h = absurd (cc h)
  sort_keys_of l too_deep h = absurd (cc h)

  all_sort_keys-same :
      (l : List (K × V)) (s : List (K × K)) (sort_keys : SortKeys)
      → all_sort_keys true l s ≡ keyed sort_keys
      → all_sort_keys false l s ≡ keyed sort_keys
  unfolding all_sort_keys
  all_sort_keys-same l s sort_keys h =
      set_sort_keys-same (index_keys 0 l []) (prev_keys_of l (dag_dependance_set2dict s true))
        (length l) (length l) 0 [] sort_keys h

  -- A list that is sorted where a cycle would raise is sorted so in any case.
  dag_sort-same :
      (l : List (K × V)) (s : List (K × K)) (out : List (K × V))
      → dag_sort l s true ≡ sorted out
      → dag_sort l s false ≡ sorted out
  unfolding dag_sort
  dag_sort-same [] s out h = h
  dag_sort-same (z ∷ l) [] out h = h
  dag_sort-same (z ∷ l) (p ∷ s) out h =
      let (sort_keys, e1) = sort_keys_of (z ∷ l) (all_sort_keys true (z ∷ l) (p ∷ s)) h in
      ap (after_keys (z ∷ l)) (all_sort_keys-same (z ∷ l) (p ∷ s) sort_keys e1)
      ∙ (sym (ap (after_keys (z ∷ l)) e1) ∙ h)

  strict_sorts :
      (l : List (K × V)) (s : List (K × K)) (rank : K → ℕ)
      → ((p k : K) → has_pair s p k ≡ true → rank p < rank k)
      → (r : SortEnd K V) → SortEnds true l s r
      → SortsWell l s r
  strict_sorts l s rank rises (sorted out) h = record {
    out = out;
    result = refl;
    same_items = h.0;
    in_order = h.1 refl;
  }
  strict_sorts l s rank rises (has_cycle names) h = absurd (no_cycle s rank rises names h.1)
  strict_sorts l s rank rises no_key h = elim h [ ]
  strict_sorts l s rank rises no_fuel h = elim h [ ]

  -- If no key comes before itself over any number of steps, as shown by a number that rises with every
  -- dependence, then dag_sort gives back the same items, each after those that come before it,
  -- whether or not it is asked to raise at a cycle.
  pub dag_sort-SortsWell :
      (l : List (K × V)) (s : List (K × K)) (raise : Bool) (rank : K → ℕ)
      → ((p k : K) → has_pair s p k ≡ true → rank p < rank k)
      → SortsWell l s (dag_sort l s raise)
  dag_sort-SortsWell l s true rank rises =
      strict_sorts l s rank rises (dag_sort l s true) (dag_sort-SortEnds l s true)
  dag_sort-SortsWell l s false rank rises =
      let r = strict_sorts l s rank rises (dag_sort l s true) (dag_sort-SortEnds l s true) in
      record {
        out = r.out;
        result = dag_sort-same l s r.out r.result;
        same_items = r.same_items;
        in_order = r.in_order;
      }
