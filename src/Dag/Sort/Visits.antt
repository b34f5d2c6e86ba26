-- ===== src/Dag/Sort/Visits.antt =====
-- A visit gives its item a key after those of the items before it, or finds a cycle.
use smartlibs.Prelude.{
  ℕ, zero, suc, ◌≤◌, ◌<◌, List, [], ◌∷◌, ◌++◌, ◌≡◌, refl, ◌∙◌, Bool, true, false, Option, none,
  some, Comparable, ◌==◌, Eq-nat, Eq-list, list_eq_iff, arith, if◌then◌else◌, contains,
  contains-append, Bool-cases, Option-cases, inl, inr, ◌⊎◌, nat_eq_iff,
}
use smartlibs.Dict.{Dict, get, set, get-set}
use smartlibs.Dag.{or_empty}
use smartlibs.Dag.Sort.{
  SortKey, SortKeys, Visit, keyed, cycle, unset, too_deep, visit_then, max_key, add_prev_keys,
  set_sort_key,
}
use smartlibs.Dag.Sort.Lex.{key_lt-append, UpTo-max_key}
use smartlibs.Dag.Sort.Chains.{free, free-append, Needs, Linked, Linked-append, IsCycle, Ordered}

if_cases :
    (P : Visit → Type 0) (b : Bool) (x y : Visit)
    → (b ≡ true → P x)
    → (b ≡ false → P y)
    → P (if b then x else y)
if_cases P true x y on off = on refl
if_cases P false x y on off = off refl

module _ {K : Type 0} ⦃e : Comparable K⦄ (key_idx_map : Dict K ℕ)
    (prev_keys_at : ℕ → Option (List K)) where
  module _ (raise : Bool) where
    pub record Visited (sort_keys : SortKeys) (chain : List ℕ) (i : ℕ) (more : SortKeys)
        : Type 0 where
      pub kept : (x : ℕ) (k : SortKey) → get sort_keys x ≡ some k → get more x ≡ some k
      pub frame : (x : ℕ) → contains x chain ≡ true → get more x ≡ get sort_keys x
      pub own : (k : SortKey) × (get more i ≡ some k)
      pub ordered :
          raise ≡ true
          → Ordered key_idx_map prev_keys_at sort_keys
          → Ordered key_idx_map prev_keys_at more

    -- What a visit may end with.
    abbrev pub EndsWell : SortKeys → List ℕ → ℕ → Visit → Type 0
    EndsWell sort_keys chain i (keyed more) = Visited sort_keys chain i more
    EndsWell sort_keys chain i (cycle c) = (raise ≡ true) × IsCycle key_idx_map prev_keys_at c
    EndsWell sort_keys chain i unset = ⊥
    EndsWell sort_keys chain i too_deep = ⊥

    -- What the loop has found of the keys that its item needs.
    abbrev Settled : ℕ → SortKeys → List SortKey → List K → Type 0
    Settled i sort_keys found prev_keys =
        (j : ℕ) (d : Needs key_idx_map prev_keys_at i j)
        → (contains d.key prev_keys ≡ true)
          ⊎ ((k : SortKey) × (get sort_keys j ≡ some k) × (contains k found ≡ true))

    set-Ordered :
        (i : ℕ) (sort_keys : SortKeys) (found : List SortKey)
        → get sort_keys i ≡ none
        → Settled i sort_keys found []
        → Ordered key_idx_map prev_keys_at sort_keys
        → Ordered key_idx_map prev_keys_at (set sort_keys i (max_key found ++ i ∷ []))
    set-Ordered i sort_keys found new settled ord x k h j d =
        let last = max_key found ++ i ∷ [] in
        elim (Bool-cases (i == x)) [
          | inl same ↦
              (let is_x : i ≡ x = ground (arith, same) in
                let is_k : last ≡ k = ground (arith, h, same, get-set sort_keys i x last) in
                let d' : Needs key_idx_map prev_keys_at i j = rw is_x d in
                elim (settled j d') [
                  | inl impossible ↦ absurd (ground (arith, impossible))
                  | inr (kj, at_j, in_found) ↦ (record {
                    sort_key = kj;
                    keyed_so = ground (arith, at_j, get-set sort_keys i j last, d'.other);
                    smaller =
                        rw (← is_k)
                          (key_lt-append kj (max_key found) i (UpTo-max_key found kj in_found));
                  })
                ])
          | inr differs ↦
              (let old : get sort_keys x ≡ some k =
                  ground (arith, h, differs, get-set sort_keys i x last) in
                let r = ord x k old j d in
                record {
                  sort_key = r.sort_key;
                  keyed_so = ground (arith, r.keyed_so, new, get-set sort_keys i j last);
                  smaller = r.smaller;
                })
        ]

    Settled-next :
        (i : ℕ) (sort_keys : SortKeys) (found : List SortKey) (p : K) (prev_keys : List K)
        → ((j : ℕ) (d : Needs key_idx_map prev_keys_at i j)
            → d.key ≡ p
            → (k : SortKey) × (get sort_keys j ≡ some k) × (contains k found ≡ true))
        → Settled i sort_keys found (p ∷ prev_keys)
        → Settled i sort_keys found prev_keys
    Settled-next i sort_keys found p prev_keys now settled j d = elim (settled j d) [
      | inr done ↦ inr done
      | inl listed ↦ (elim (Bool-cases (d.key == p)) [
        | inl same ↦ inr (now j d ((e.is_same_iff d.key p).0 same))
        | inr other ↦ inl (ground (arith, listed, other))
      ])
    ]

    Settled-more :
        (i : ℕ) (sort_keys more : SortKeys) (found : List SortKey) (k : SortKey)
        (prev_keys : List K)
        → ((x : ℕ) (l : SortKey) → get sort_keys x ≡ some l → get more x ≡ some l)
        → Settled i sort_keys found prev_keys
        → Settled i more (found ++ k ∷ []) prev_keys
    Settled-more i sort_keys more found k prev_keys kept settled j d = elim (settled j d) [
      | inl listed ↦ inl listed
      | inr (l, at_j, in_found) ↦
          (inr (l, kept j l at_j, ground (arith, in_found, contains-append found k l)))
    ]

    visit_then-EndsWell :
        (sort_keys : SortKeys) (chain' chain : List ℕ) (j i : ℕ) (r : Visit) (f : SortKeys → Visit)
        → EndsWell sort_keys chain' j r
        → ((more : SortKeys)
            → Visited sort_keys chain' j more
            → EndsWell sort_keys chain i (f more))
        → EndsWell sort_keys chain i (visit_then r f)
    visit_then-EndsWell sort_keys chain' chain j i (keyed more) f h then_f = then_f more h
    visit_then-EndsWell sort_keys chain' chain j i (cycle c) f h then_f = h
    visit_then-EndsWell sort_keys chain' chain j i unset f h then_f = h
    visit_then-EndsWell sort_keys chain' chain j i too_deep f h then_f = h

    -- What holds of the keys after an earlier visit holds of those before it.
    EndsWell-key_lt :
        (sort_keys more : SortKeys) (chain : List ℕ) (j i : ℕ) (r : Visit)
        → Visited sort_keys (chain ++ i ∷ []) j more
        → EndsWell more chain i r
        → EndsWell sort_keys chain i r
    EndsWell-key_lt sort_keys more chain j i (keyed last) v w = record {
      kept = λ x k h. w.kept x k (v.kept x k h);
      frame = λ x h. w.frame x h ∙ v.frame x (ground (arith, h, contains-append chain i x));
      own = w.own;
      ordered = λ h o. w.ordered h (v.ordered h o);
    }
    EndsWell-key_lt sort_keys more chain j i (cycle c) v w = w
    EndsWell-key_lt sort_keys more chain j i unset v w = w
    EndsWell-key_lt sort_keys more chain j i too_deep v w = w

    set-Visited :
        (sort_keys : SortKeys) (chain : List ℕ) (i : ℕ) (k : SortKey)
        → get sort_keys i ≡ none
        → contains i chain ≡ false
        → (raise ≡ true
            → Ordered key_idx_map prev_keys_at sort_keys
            → Ordered key_idx_map prev_keys_at (set sort_keys i k))
        → Visited sort_keys chain i (set sort_keys i k)
    set-Visited sort_keys chain i k new fresh ord = record {
      kept = λ x l h. ground (arith, h, new, get-set sort_keys i x k);
      frame = λ x h. ground (arith, h, fresh, get-set sort_keys i x k);
      own = (k, ground (arith, get-set sort_keys i i k));
      ordered = ord;
    }

    module _ (n : ℕ) (bounded : (p : K) (j : ℕ) → get key_idx_map p ≡ some j → j < n) where
      -- A visit to a place that the chain leads to, and that is not on it, ends well.
      abbrev Visits : (ℕ → List ℕ → SortKeys → Visit) → List ℕ → Type 0
      Visits visit chain =
          (j : ℕ) (sort_keys : SortKeys)
          → j < n
          → contains j chain ≡ false
          → Linked key_idx_map prev_keys_at (chain ++ j ∷ [])
          → EndsWell sort_keys chain j (visit j chain sort_keys)

      add_prev_keys-EndsWell :
          (visit : ℕ → List ℕ → SortKeys → Visit) (i : ℕ) (chain : List ℕ)
          → Visits visit (chain ++ i ∷ [])
          → Linked key_idx_map prev_keys_at (chain ++ i ∷ [])
          → contains i chain ≡ false
          → (prev_keys : List K) (sort_keys : SortKeys) (found : List SortKey)
          → get sort_keys i ≡ none
          → ((p : K) → contains p prev_keys ≡ true → contains p (or_empty (prev_keys_at i)) ≡ true)
          → (raise ≡ true → Settled i sort_keys found prev_keys)
          → EndsWell sort_keys chain i
              (add_prev_keys raise key_idx_map visit i (chain ++ i ∷ []) prev_keys sort_keys found)
      unfolding add_prev_keys
      add_prev_keys-EndsWell visit i chain ok linked fresh [] sort_keys found new listed settled =
          set-Visited sort_keys chain i (max_key found ++ i ∷ []) new fresh
            λ h o. set-Ordered i sort_keys found new (settled h) o
      add_prev_keys-EndsWell visit i chain ok linked fresh (p ∷ ps) sort_keys found new listed
            settled =
          let rest : (raise ≡ true → Settled i sort_keys found ps)
              → EndsWell sort_keys chain i
                  (add_prev_keys raise key_idx_map visit i (chain ++ i ∷ []) ps sort_keys found) =
            add_prev_keys-EndsWell visit i chain ok linked fresh ps sort_keys found new
              (λ q h. listed q (ground (arith, h))) in
          let listed' : (q : K)
              → contains q ps ≡ true
              → contains q (or_empty (prev_keys_at i)) ≡ true =
            λ q h. listed q (ground (arith, h)) in
          elim (Option-cases (get key_idx_map p)) [
            | inl missing ↦
                (rw (missing, add_prev_keys, EndsWell)
                  (rest λ h.
                    Settled-next i sort_keys found p ps
                      (λ j d same. absurd (cc (d.found, same, missing))) (settled h)))
            | inr (j, at_p) ↦ (elim (Bool-cases (j == i)) [
              | inl self ↦
                  (rw (at_p, self, add_prev_keys, EndsWell)
                    (rest λ h.
                      Settled-next i sort_keys found p ps
                        (λ x d same.
                          absurd (d.other (cc (d.found, same, at_p, (nat_eq_iff j i).0 self))))
                        (settled h)))
              | inr other ↦
                  (let needs : Needs key_idx_map prev_keys_at i j = record {
                    key = p;
                    listed = listed p (ground (arith, e.is_same_iff p p));
                    found = at_p;
                    other = ground (arith, other, nat_eq_iff j i);
                  } in
                    let linked' = Linked-append key_idx_map prev_keys_at chain i j linked needs in
                    let next : (more : SortKeys)
                        → Visited sort_keys (chain ++ i ∷ []) j more
                        → EndsWell sort_keys chain i (elim (get more j) [
                          | none ↦ unset
                          | some k ↦
                              add_prev_keys raise key_idx_map visit i (chain ++ i ∷ []) ps more
                                (found ++ k ∷ [])
                        ]) =
                      λ more v.
                        let (k, at_j) = v.own in
                        rw (at_j, EndsWell)
                          (EndsWell-key_lt sort_keys more chain j i _ v (
                            add_prev_keys-EndsWell visit i chain ok linked fresh ps more
                              (found ++ k ∷ [])
                              (v.frame i (ground (arith, contains-append chain i i)) ∙ new) listed'
                              λ h.
                                Settled-next i more (found ++ k ∷ []) p ps
                                  (λ x d same. (
                                    k,
                                    ground (arith, d.found, same, at_p, at_j),
                                    ground (arith, contains-append found k k, list_eq_iff k k),
                                  ))
                                  (Settled-more i sort_keys more found k (p ∷ ps) v.kept
                                    (settled h)))) in
                    elim (Bool-cases (contains j (chain ++ i ∷ []))) [
                      | inl on ↦
                          (rw (at_p, other, on, add_prev_keys, EndsWell)
                            (if_cases (EndsWell sort_keys chain i) raise _ _
                              (λ raises. (
                                raises,
                                record {
                                  chain = chain ++ i ∷ [];
                                  last = j;
                                  parts = refl;
                                  linked = linked';
                                  closed = on;
                                },
                              ))
                              (λ goes_on. rest (λ h. absurd (cc (h, goes_on))))))
                      | inr off ↦
                          (rw (at_p, other, off, add_prev_keys, EndsWell)
                            (visit_then-EndsWell sort_keys (chain ++ i ∷ []) chain j i _ _
                              (ok j sort_keys (bounded p j at_p) off linked')
                              λ more v. next more v))
                    ])
            ])
          ]

      -- With fuel for the places that are not on the chain.
      pub set_sort_key-EndsWell :
          (fuel i : ℕ) (chain : List ℕ) (sort_keys : SortKeys)
          → free chain n ≤ fuel
          → i < n
          → contains i chain ≡ false
          → Linked key_idx_map prev_keys_at (chain ++ i ∷ [])
          → EndsWell sort_keys chain i
              (set_sort_key raise key_idx_map prev_keys_at fuel i chain sort_keys)
      unfolding set_sort_key max_key
      set_sort_key-EndsWell zero i chain sort_keys enough lt fresh linked =
          absurd (omega (arith, free-append chain i n lt fresh))
      set_sort_key-EndsWell (suc fuel) i chain sort_keys enough lt fresh linked =
          elim (Option-cases (get sort_keys i)) [
            | inr (k, set_before) ↦
                rw (set_before, set_sort_key, EndsWell)
                  record {
                    kept = λ x l h. h;
                    frame = λ x h. refl;
                    own = (k, set_before);
                    ordered = λ h o. o;
                  }
            | inl new ↦ elim (Option-cases (prev_keys_at i)) [
              | inl nothing ↦
                  rw (new, nothing, set_sort_key, EndsWell)
                    (set-Visited sort_keys chain i (i ∷ []) new fresh λ h o.
                      set-Ordered i sort_keys [] new
                        (λ j d. let bad = rw nothing at d.listed in absurd (cc bad)) o)
              | inr (prev_keys, some_keys) ↦
                  rw (new, some_keys, set_sort_key, EndsWell)
                    (add_prev_keys-EndsWell (set_sort_key raise key_idx_map prev_keys_at fuel) i
                      chain
                      (λ j more lt' fresh' linked'.
                        set_sort_key-EndsWell fuel j (chain ++ i ∷ []) more
                          (omega (arith, free-append chain i n lt fresh)) lt' fresh' linked')
                      linked fresh prev_keys sort_keys [] new (λ p h. rw some_keys h)
                      (λ h j d. inl (rw some_keys at d.listed)))
            ]
          ]
