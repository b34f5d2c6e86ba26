-- ===== src/Dag/Items/Order.antt =====
-- The items that a tool sorts stand after those that they, or the others, declare to come before them.
use mathlib.Core.List.{Perm}
use smartlibs.Prelude.{
  ℕ, ◌<◌, List, [], ◌∷◌, ◌≡◌, ◌≢◌, refl, sym, ◌∙◌, Bool, true, ◌||◌, some, Comparable, get_elem?,
}
use smartlibs.Dict.{get}
use smartlibs.Dag.{Item, DagItemsTool, add_items, get_dependance_set}
use smartlibs.Dag.Declared.{declared, get_dependance_set-declared}
use smartlibs.Dag.Sort.{sorted, index_keys}
use smartlibs.Dag.Sort.Insertion.{Precedes}
use smartlibs.Dag.Sort.Acyclic.{dag_sort-SortsWell}
use smartlibs.Dag.Items.{iter_items, sort_items}

module _ {K : Type 0} ⦃e : Comparable K⦄ where
  -- The same items; and each stands after the last item of every key that is declared to come before
  -- its own key, itself left aside.
  pub record SortedItems (tool : DagItemsTool) (items : List (Item K)) (raise : Bool) : Type 0 where
    pub out : List (K × Item K)
    pub result : sort_items tool items raise ≡ some (sorted out)
    pub same_items : Perm out (iter_items items)
    pub in_order :
        (i j : ℕ) (x y : K × Item K)
        → get_elem? (iter_items items) i ≡ some x
        → get_elem? (iter_items items) j ≡ some y
        → get (index_keys 0 (iter_items items) []) y.0 ≡ some j
        → j ≢ i
        → declared tool items y.0 x.0 ≡ true
        → Precedes y x out

  dependances :
      (tool : DagItemsTool) (items : List (Item K))
      → (tool.prev_key_name || tool.next_key_name) ≡ true
      → (s : List (K × K)) × (get_dependance_set tool items ≡ some s)
  unfolding get_dependance_set
  dependances tool [] named = ([], refl)
  dependances tool (item ∷ items) named =
      (add_items tool (item ∷ items) [], rw (named, get_dependance_set) refl)

  -- A tool with the name of a list of keys sorts any items of which none comes before itself, as shown
  -- by a number that rises with each declared dependence: it gives back the same items, each after
  -- those that are declared to come before it, whether or not it is asked to raise at a cycle.
  pub sort_items-SortedItems :
      (tool : DagItemsTool) (items : List (Item K)) (raise : Bool) (rank : K → ℕ)
      → (tool.prev_key_name || tool.next_key_name) ≡ true
      → ((p k : K) → declared tool items p k ≡ true → rank p < rank k)
      → SortedItems tool items raise
  unfolding sort_items
  sort_items-SortedItems tool items raise rank named rises =
      let (s, made) = dependances tool items named in
      let same = get_dependance_set-declared tool items s made in
      let r =
        dag_sort-SortsWell (iter_items items) s raise rank
          (λ p k h. rises p k (sym (same p k) ∙ h)) in
      record {
        out = r.out;
        result = rw (made, r.result, sort_items) refl;
        same_items = r.same_items;
        in_order = λ i j x y at_i at_j placed other h.
            r.in_order i j x y at_i at_j placed other (same y.0 x.0 ∙ h);
      }
