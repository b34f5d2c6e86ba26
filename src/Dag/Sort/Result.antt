-- ===== src/Dag/Sort/Result.antt =====
-- What dag_sort returns: the list in an order that respects the dependences, or a cycle.
use mathlib.Core.List.{Perm}
use mathlib.Core.List.Perm
use smartlibs.Prelude.{
  ℕ, ◌+◌, ◌<◌, List, [], ◌∷◌, ◌++◌, ◌≡◌, ◌≢◌, refl, sym, ap, ◌∙◌, Bool, true, Option, some,
  Comparable, ◌==◌, Eq-nat, arith, contains, Bool-cases, Option-cases, inl, inr, get_elem?, length,
  nat_eq_iff,
}
use smartlibs.Dict.{Dict, get}
use smartlibs.Dag.{or_empty, has_pair, dag_dependance_set2dict}
use smartlibs.Dag.Declared.{set2dict_from_lem}
use smartlibs.Dag.Sort.{
  SortKey, SortKeys, Visit, keyed, cycle, unset, too_deep, sorted_by, objects, index_keys,
  prev_keys_of, key_names, SortEnd, sorted, has_cycle, no_key, no_fuel, all_sort_keys, after_keys,
  dag_sort,
}
use smartlibs.Dag.Sort.Chains.{Needs, Linked, Ordered, IsCycle}
use smartlibs.Dag.Sort.Runs.{RunEnds, set_sort_keys-RunEnds}
use smartlibs.Dag.Sort.Insertion.{
  Precedes, Keyed, with_sort_keys-Keyed, sorted_by-perm, sorted_by-Precedes,
}
use smartlibs.Dag.Sort.Places.{
  Indexed, index_keys-Indexed, get_elem?-lt-length, LinkedNames, IsNamedCycle,
}

module _ {K V : Type 0} ⦃e : Comparable K⦄ where
  -- Every item stands after the items that come before it, the last of each key.
  abbrev pub InOrder : List (K × V) → List (K × K) → List (K × V) → Type 0
  InOrder l s out =
      (i j : ℕ) (x y : K × V)
      → get_elem? l i ≡ some x
      → get_elem? l j ≡ some y
      → get (index_keys 0 l []) y.0 ≡ some j
      → j ≢ i
      → has_pair s y.0 x.0 ≡ true
      → Precedes y x out

  -- How dag_sort may end.
  abbrev pub SortEnds : Bool → List (K × V) → List (K × K) → SortEnd K V → Type 0
  SortEnds raise l s (sorted out) = Perm out l × (raise ≡ true → InOrder l s out)
  SortEnds raise l s (has_cycle names) = (raise ≡ true) × IsNamedCycle s names
  SortEnds raise l s no_key = ⊥
  SortEnds raise l s no_fuel = ⊥

  module _ (l : List (K × V)) (s : List (K × K)) where
    abbrev places : Dict K ℕ
    places = index_keys 0 l []

    abbrev deps_at : ℕ → Option (List K)
    deps_at = prev_keys_of l (dag_dependance_set2dict s true)

    places-Indexed : (p : K) (j : ℕ) → get places p ≡ some j → Indexed 0 l p j
    unfolding get
    places-Indexed p j h = elim (index_keys-Indexed 0 l [] p j h) [
      | inl r ↦ r
      | inr bad ↦ absurd (cc bad)
    ]

    places-lt-length : (p : K) (j : ℕ) → get places p ≡ some j → j < length l
    places-lt-length p j h =
        let r = places-Indexed p j h in
        omega (arith, r.counted, get_elem?-lt-length l r.place (p, r.value) r.there)

    listed-has_pair :
        (i : ℕ) (k : K) (v : V) (p : K)
        → get_elem? l i ≡ some (k, v)
        → contains p (or_empty (deps_at i)) ≡ has_pair s p k
    unfolding prev_keys_of dag_dependance_set2dict get
    listed-has_pair i k v p at_i =
        rw (at_i, prev_keys_of, contains) (set2dict_from_lem true s [] k p)

    -- The keys of two places of which one needs the other.
    record NamesOf (i j : ℕ) : Type 0 where
      key_i : K
      value_i : V
      key_j : K
      value_j : V
      at_i : get_elem? l i ≡ some (key_i, value_i)
      at_j : get_elem? l j ≡ some (key_j, value_j)
      pair : has_pair s key_j key_i ≡ true

    Needs-NamesOf : (i j : ℕ) → Needs places deps_at i j → NamesOf i j
    unfolding prev_keys_of
    Needs-NamesOf i j d = elim (Option-cases (get_elem? l i)) [
      | inl nothing ↦ let bad = rw (nothing, prev_keys_of) at d.listed in absurd (cc bad)
      | inr ((k, v), at_i) ↦
          (let r = places-Indexed d.key j d.found in
            record {
              key_i = k;
              value_i = v;
              key_j = d.key;
              value_j = r.value;
              at_i = at_i;
              at_j = let same : j ≡ r.place = omega (arith, r.counted) in rw same r.there;
              pair = sym (listed-has_pair i k v d.key at_i) ∙ d.listed;
            })
    ]

    key_names-cons :
        (i : ℕ) (c : List ℕ) (k : K) (v : V)
        → get_elem? l i ≡ some (k, v)
        → key_names l (i ∷ c) ≡ k ∷ key_names l c
    unfolding key_names
    key_names-cons i c k v at_i = rw (at_i, key_names)

    key_names-LinkedNames :
        (a b : ℕ) (c : List ℕ)
        → Linked places deps_at (a ∷ b ∷ c)
        → LinkedNames s (key_names l (a ∷ b ∷ c))
    unfolding key_names
    key_names-LinkedNames a b [] h =
        let n = Needs-NamesOf a b h.0 in rw (n.at_i, n.at_j, key_names, LinkedNames) (n.pair, tt)
    key_names-LinkedNames a b (d ∷ c) h =
        let n = Needs-NamesOf a b h.0 in
        let rest = key_names-LinkedNames b d c h.1 in
        rw (n.at_i, n.at_j, key_names, LinkedNames)
          (n.pair, rw (n.at_j, key_names, LinkedNames) at rest)

    Linked-at :
        (chain : List ℕ) (last x : ℕ)
        → Linked places deps_at (chain ++ last ∷ [])
        → contains x chain ≡ true
        → (k : K) × (v : V) × (get_elem? l x ≡ some (k, v))
    Linked-at [] last x h m = cc
    Linked-at (a ∷ []) last x h m =
        let n = Needs-NamesOf a last h.0 in
        (n.key_i, n.value_i, ground (arith, m, nat_eq_iff x a, n.at_i))
    Linked-at (a ∷ b ∷ chain) last x h m = elim (Bool-cases (x == a)) [
      | inl same ↦
          (let n = Needs-NamesOf a b h.0 in
            (n.key_i, n.value_i, rw ((nat_eq_iff x a).0 same) n.at_i))
      | inr other ↦ Linked-at (b ∷ chain) last x h.1 (ground (arith, m, other))
    ]

    key_names-append : (c d : List ℕ) → key_names l (c ++ d) ≡ key_names l c ++ key_names l d
    unfolding key_names
    key_names-append [] d = refl
    key_names-append (i ∷ c) d = ground (arith, key_names-append c d)

    contains-key_names :
        (c : List ℕ) (i : ℕ) (k : K) (v : V)
        → get_elem? l i ≡ some (k, v)
        → contains i c ≡ true
        → contains k (key_names l c) ≡ true
    unfolding key_names
    contains-key_names [] i k v at_i m = cc
    contains-key_names (j ∷ c) i k v at_i m =
        ground (arith, nat_eq_iff i j, at_i, m, e.is_same_iff k k, contains-key_names c i k v)

    linked_names :
        (chain : List ℕ) (last : ℕ)
        → contains last chain ≡ true
        → Linked places deps_at (chain ++ last ∷ [])
        → LinkedNames s (key_names l (chain ++ last ∷ []))
    linked_names [] last m h = cc
    linked_names (a ∷ []) last m h = key_names-LinkedNames a last [] h
    linked_names (a ∷ b ∷ chain) last m h = key_names-LinkedNames a b (chain ++ last ∷ []) h

    cycle-IsNamedCycle : (c : List ℕ) → IsCycle places deps_at c → IsNamedCycle s (key_names l c)
    unfolding key_names
    cycle-IsNamedCycle c h =
        let linked = rw h.parts at h.linked in
        let (k, v, at_last) = Linked-at h.chain h.last h.last linked h.closed in
        record {
          front = key_names l h.chain;
          last = k;
          parts =
              ap (key_names l) h.parts
              ∙ (key_names-append h.chain (h.last ∷ [])
                  ∙ ap (λ t. key_names l h.chain ++ t) (key_names-cons h.last [] k v at_last));
          linked = rw h.parts (linked_names h.chain h.last h.closed linked);
          closed = contains-key_names h.chain h.last k v at_last h.closed;
        }

    Ordered-InOrder :
        (sort_keys : SortKeys) (r : Keyed sort_keys 0 l)
        → ((i : ℕ) → i < length l → (k : SortKey) × (get sort_keys i ≡ some k))
        → Ordered places deps_at sort_keys
        → InOrder l s (objects (sorted_by r.entries))
    Ordered-InOrder sort_keys r all ord i j x y at_i at_j placed other pair =
        let (k, own) = all i (get_elem?-lt-length l i x at_i) in
        let needs : Needs places deps_at i j = record {
          key = y.0;
          listed = listed-has_pair i x.0 x.1 y.0 at_i ∙ pair;
          found = placed;
          other = other;
        } in
        let earlier = ord i k own j needs in
        let at_zero : (p : ℕ) → 0 + p ≡ p = λ p. omega arith in
        sorted_by-Precedes earlier.sort_key k y x r.entries earlier.smaller
          (r.at_place j earlier.sort_key y at_j (rw (at_zero j) earlier.keyed_so))
          (r.at_place i k x at_i (rw (at_zero i) own))

    after_keys-SortEnds :
        (raise : Bool) (r : Visit)
        → RunEnds places deps_at raise (length l) places-lt-length r
        → SortEnds raise l s (after_keys l r)
    unfolding after_keys
    after_keys-SortEnds raise (keyed sort_keys) h =
        let k =
          with_sort_keys-Keyed sort_keys 0 l
            (λ p lt. let z : 0 + p ≡ p = omega arith in rw z (h.0 p lt)) in
        rw (k.made, SortEnds)
          (
            rw k.same at (sorted_by-perm k.entries),
            λ raises. Ordered-InOrder sort_keys k h.0 (h.1 raises),
          )
    after_keys-SortEnds raise (cycle c) h = (h.0, cycle-IsNamedCycle c h.1)
    after_keys-SortEnds raise unset h = h
    after_keys-SortEnds raise too_deep h = h

  -- dag_sort returns: by DagCycleErr, if it is asked to, with a cycle of the dependences; or with the
  -- same items, and, if it is asked to raise, each after the items that come before it.
  pub dag_sort-SortEnds :
      (l : List (K × V)) (s : List (K × K)) (raise : Bool) → SortEnds raise l s (dag_sort l s raise)
  unfolding dag_sort get all_sort_keys
  dag_sort-SortEnds [] s raise = (Perm.rfl, λ _ i j x y h. cc h)
  dag_sort-SortEnds (z ∷ l) [] raise = (Perm.rfl, λ _ i j x y a b c d h. cc h)
  dag_sort-SortEnds (z ∷ l) (p ∷ s) raise = after_keys-SortEnds (z ∷ l) (p ∷ s) raise _ (
      set_sort_keys-RunEnds (places (z ∷ l) (p ∷ s)) (deps_at (z ∷ l) (p ∷ s)) raise
        (length (z ∷ l)) (places-lt-length (z ∷ l) (p ∷ s)) (length (z ∷ l)) 0 [] (omega arith)
        (λ x lt. absurd (omega (arith, lt))) (λ _ i k h. cc h))
