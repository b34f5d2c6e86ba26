-- ===== src/Dag/Declared.antt =====
-- The dependences that are looked up are those that the items declare.
use smartlibs.Prelude.{
  List, [], ◌∷◌, ◌++◌, ◌≡◌, ap, ◌∙◌, Bool, true, false, ◌&&◌, ◌||◌, some, Comparable, ◌==◌, arith,
  if◌then◌else◌, contains, contains-append,
}
use smartlibs.Dict.{Dict, get, get-set}
use smartlibs.Dag.{
  Item, DagItemsTool, or_empty, has_pair, add_pair, add_prevs, add_nexts, add_items,
  get_dependance_set, append_dep, set2dict_from, dag_dependance_set2dict,
}

module _ {K : Type 0} ⦃e : Comparable K⦄ where
  -- Some item says that `p` comes before `k`.
  abbrev pub declared : DagItemsTool → List (Item K) → K → K → Bool
  declared tool [] p k = false
  declared tool (item ∷ items) p k =
      (tool.prev_key_name && (item.key == k && contains p (or_empty item.prev_keys))
        || tool.next_key_name && (item.key == p && contains k (or_empty item.next_keys)))
      || declared tool items p k

  has_pair-append :
      (s : List (K × K)) (i j p k : K)
      → has_pair (s ++ (i, j) ∷ []) p k ≡ (has_pair s p k || i == p && j == k)
  has_pair-append [] i j p k = ground arith
  has_pair-append ((a, b) ∷ s) i j p k = ground (arith, has_pair-append s i j p k)

  pub has_pair-add_pair :
      (s : List (K × K)) (i j p k : K)
      → has_pair (add_pair s i j) p k ≡ (has_pair s p k || i == p && j == k)
  unfolding add_pair
  has_pair-add_pair s i j p k =
      ground (arith, has_pair-append s i j p k, e.is_same_iff i p, e.is_same_iff j k)

  has_pair-add_prevs :
      (key : K) (prevs : List K) (s : List (K × K)) (p k : K)
      → has_pair (add_prevs key prevs s) p k ≡ (has_pair s p k || key == k && contains p prevs)
  unfolding add_prevs
  has_pair-add_prevs key [] s p k = ground arith
  has_pair-add_prevs key (x ∷ prevs) s p k = ground (
    arith,
    has_pair-add_prevs key prevs (add_pair s x key) p k,
    has_pair-add_pair s x key p k,
    e.is_same_iff x p,
    e.is_same_iff p x,
  )

  has_pair-add_nexts :
      (key : K) (nexts : List K) (s : List (K × K)) (p k : K)
      → has_pair (add_nexts key nexts s) p k ≡ (has_pair s p k || key == p && contains k nexts)
  unfolding add_nexts
  has_pair-add_nexts key [] s p k = ground arith
  has_pair-add_nexts key (x ∷ nexts) s p k = ground (
    arith,
    has_pair-add_nexts key nexts (add_pair s key x) p k,
    has_pair-add_pair s key x p k,
    e.is_same_iff x k,
    e.is_same_iff k x,
  )

  has_pair-add_items :
      (tool : DagItemsTool) (items : List (Item K)) (s : List (K × K)) (p k : K)
      → has_pair (add_items tool items s) p k ≡ (has_pair s p k || declared tool items p k)
  unfolding add_items
  has_pair-add_items tool [] s p k = ground arith
  has_pair-add_items tool (item ∷ items) s p k =
      let prevs = or_empty item.prev_keys in
      let nexts = or_empty item.next_keys in
      let s1 = add_prevs item.key prevs s in
      ground (
        arith,
        has_pair-add_items tool items s p k,
        has_pair-add_items tool items s1 p k,
        has_pair-add_items tool items (add_nexts item.key nexts s) p k,
        has_pair-add_items tool items (add_nexts item.key nexts s1) p k,
        has_pair-add_nexts item.key nexts s p k,
        has_pair-add_nexts item.key nexts s1 p k,
        has_pair-add_prevs item.key prevs s p k,
      )

  pub get_dependance_set-declared :
      (tool : DagItemsTool) (items : List (Item K)) (s : List (K × K))
      → get_dependance_set tool items ≡ some s
      → (p k : K) → has_pair s p k ≡ declared tool items p k
  unfolding get_dependance_set
  get_dependance_set-declared tool [] s h p k = ground (arith, h)
  get_dependance_set-declared tool (item ∷ items) s h p k =
      let same : s ≡ add_items tool (item ∷ items) [] = ground (arith, h) in
      ap (λ l. has_pair l p k) same ∙ has_pair-add_items tool (item ∷ items) [] p k

  append_dep_lem :
      (d : Dict K (List K)) (i x k p : K)
      → contains p (or_empty (get (append_dep d i x) k))
        ≡ (contains p (or_empty (get d k)) || i == k && x == p)
  unfolding append_dep
  append_dep_lem d i x k p = ground (
    arith,
    get-set d i k (or_empty (get d i) ++ x ∷ []),
    contains-append (or_empty (get d i)) x p,
    e.is_same_iff i k,
  )

  pub set2dict_from_lem :
      (next_as_key : Bool) (s : List (K × K)) (d : Dict K (List K)) (k p : K)
      → contains p (or_empty (get (set2dict_from next_as_key s d) k)) ≡ (
          contains p (or_empty (get d k))
          || (if next_as_key then has_pair s p k else has_pair s k p))
  unfolding set2dict_from
  set2dict_from_lem true [] d k p = ground arith
  set2dict_from_lem false [] d k p = ground arith
  set2dict_from_lem true ((i, j) ∷ s) d k p =
      ground (arith, set2dict_from_lem true s (append_dep d j i) k p, append_dep_lem d j i k p)
  set2dict_from_lem false ((i, j) ∷ s) d k p =
      ground (arith, set2dict_from_lem false s (append_dep d i j) k p, append_dep_lem d i j k p)

  -- The dictionary of the dependences of some items lists, under a key, just the keys that some item
  -- declares to come before it, or after it where the dictionary has the earlier keys as its keys.
  pub dag_dependance_set2dict-declared :
      (tool : DagItemsTool) (items : List (Item K)) (dependance_set : List (K × K))
      → get_dependance_set tool items ≡ some dependance_set
      → (k p : K)
      → (contains p (or_empty (get (dag_dependance_set2dict dependance_set true) k))
          ≡ declared tool items p k)
        × (contains p (or_empty (get (dag_dependance_set2dict dependance_set false) k))
            ≡ declared tool items k p)
  unfolding dag_dependance_set2dict get
  dag_dependance_set2dict-declared tool items s h k p = (
    set2dict_from_lem true s [] k p ∙ get_dependance_set-declared tool items s h p k,
    set2dict_from_lem false s [] k p ∙ get_dependance_set-declared tool items s h k p,
  )
