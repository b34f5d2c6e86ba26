-- ===== src/Items/Grouping.antt =====
-- What the groups of an item list hold.
use smartlibs.Prelude.{
  List, [], ◌∷◌, ◌++◌, ◌≡◌, refl, sym, ap, ◌∙◌, map, true, Option, none, some, Comparable, ◌==◌,
  arith, if◌then◌else◌, append_assoc, append-nil, contains,
}
use smartlibs.Dict.{Dict, get, set, get-set}
use smartlibs.Items.{
  given_groups, add_to_group, add_to_groups, group_items, multi_group, group_each, group,
  multi_group_item_iter_fn,
}

abbrev pub items_of : {A : Type 0} → Option (List A) → List A
items_of none = []
items_of (some items) = items

module _ {A G : Type 0} ⦃e : Comparable G⦄ where
  -- The items that are paired with a group name, in order.
  abbrev pub paired : G → List (G × A) → List A
  paired name [] = []
  paired name ((n, item) ∷ pairs) =
      let rest = paired name pairs in if n == name then item ∷ rest else rest

  paired-append :
      (name : G) (xs ys : List (G × A)) → paired name (xs ++ ys) ≡ paired name xs ++ paired name ys
  paired-append name [] ys = refl
  paired-append name ((n, item) ∷ xs) ys = ground (arith, paired-append name xs ys)

  add_to_group_lem :
      (g : Dict G (List A)) (n : G) (item : A) (name : G)
      → items_of (get (add_to_group g n item) name)
        ≡ items_of (get g name) ++ (if n == name then item ∷ [] else [])
  unfolding add_to_group
  add_to_group_lem g n item name = ground (
    arith,
    get-set g n name (item ∷ []),
    get-set g n name (items_of (get g n) ++ item ∷ []),
    e.is_same_iff n name,
    append-nil (items_of (get g name)),
  )

  add_to_groups_lem :
      (names : List G) (g : Dict G (List A)) (item : A) (name : G)
      → items_of (get (add_to_groups g names item) name)
        ≡ items_of (get g name) ++ paired name (map (λ n. (n, item)) names)
  unfolding add_to_groups
  add_to_groups_lem [] g item name = sym (append-nil _)
  add_to_groups_lem (n ∷ names) g item name = ground (
    arith,
    add_to_groups_lem names (add_to_group g n item) item name,
    add_to_group_lem g n item name,
    append_assoc (items_of (get g name)) (item ∷ []) (paired name (map (λ n. (n, item)) names)),
    append-nil (items_of (get g name)),
  )

  group_items_lem :
      (fn : A → List G) (values : List A) (g : Dict G (List A)) (name : G)
      → items_of (get (group_items fn values g) name)
        ≡ items_of (get g name) ++ paired name (multi_group_item_iter_fn fn values)
  unfolding group_items multi_group_item_iter_fn
  group_items_lem fn [] g name = sym (append-nil _)
  group_items_lem fn (item ∷ values) g name =
      let now = map (λ n. (n, item)) (fn item) in
      let later = multi_group_item_iter_fn fn values in
      group_items_lem fn values (add_to_groups g (fn item) item) name
      ∙ (ap (λ l. l ++ paired name later) (add_to_groups_lem (fn item) g item name)
          ∙ (append_assoc (items_of (get g name)) (paired name now) (paired name later)
              ∙ ap (λ l. items_of (get g name) ++ l) (sym (paired-append name now later))))

  given_groups_lem :
      (keys : List G) (g : Dict G (List A)) (name : G)
      → get (given_groups keys g) name ≡ (if contains name keys then some [] else get g name)
  unfolding given_groups
  given_groups_lem [] g name = refl
  given_groups_lem (k ∷ keys) g name = ground (
    arith,
    given_groups_lem keys (set g k []) name,
    get-set g k name [],
    e.is_same_iff k name,
    e.is_same_iff name k,
  )

  group_each-group_items :
      (fn : A → G) (values : List A) (g : Dict G (List A))
      → group_each fn values g ≡ group_items (λ item. fn item ∷ []) values g
  unfolding group_each group_items add_to_groups
  group_each-group_items fn [] g = refl
  group_each-group_items fn (item ∷ values) g =
      group_each-group_items fn values (add_to_group g (fn item) item)

  -- Under every name, a grouping holds the items that are paired with the name, in their order, and a
  -- group that was asked for is there even if it is empty; the grouping by one name for each item is
  -- the grouping by lists of one name.
  pub multi_group-group :
      (fn : A → List G) (one : A → G) (group_keys : List G) (values : List A) (name : G) (asked : G)
      → contains asked group_keys ≡ true
      → (items_of (get (multi_group fn group_keys values) name)
          ≡ paired name (multi_group_item_iter_fn fn values))
        × (get (multi_group fn group_keys []) asked ≡ some [])
        × (group one group_keys values ≡ multi_group (λ item. one item ∷ []) group_keys values)
  unfolding multi_group group get group_items
  multi_group-group fn one group_keys values name asked h =
      let nothing : items_of {A = A} (get (given_groups group_keys []) name) ≡ [] =
        ground (arith, given_groups_lem group_keys [] name) in
      (
        group_items_lem fn values (given_groups group_keys []) name
            ∙ ap (λ l. l ++ paired name (multi_group_item_iter_fn fn values)) nothing,
        given_groups_lem group_keys [] asked ∙ ap (λ b. if b then some [] else none) h,
        group_each-group_items one values (given_groups group_keys []),
      )
