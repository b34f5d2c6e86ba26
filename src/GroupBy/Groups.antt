-- ===== src/GroupBy/Groups.antt =====
-- What the groups hold, in which order, and that both modes agree.
use smartlibs.Prelude.{
  List, [], ◌∷◌, ◌++◌, ◌≡◌, refl, sym, ap, ◌∙◌, map, Bool, Option, none, some, Comparable, ◌==◌,
  arith, if◌then◌else◌, Eq-list, contains, append_assoc, append-nil,
}
use smartlibs.Dict.{Dict, get, set, has, keys, keys-set}
use smartlibs.GroupBy.{
  parse_item, append_at, group_pairs, new_keys, iter_group, iter_only_group_val,
}

abbrev pub members : {A : Type 0} → Option (List A) → List A
members none = []
members (some items) = items

module _ {G A : Type 0} ⦃e : Comparable G⦄ where
  -- What belongs to a key, in order.
  abbrev pub belonging : G → List (G × A) → List A
  belonging key [] = []
  belonging key ((k, a) ∷ pairs) =
      let rest = belonging key pairs in if k == key then a ∷ rest else rest

  append_at-cases :
      (group : Dict G (List A)) (k : G) (a : A)
      → append_at group k a ≡ set group k (members (get group k) ++ a ∷ [])
  unfolding append_at
  append_at-cases group k a = ground arith

  has-contains : (group : Dict G (List A)) (k : G) → has group k ≡ contains k (keys group)
  unfolding has get
  has-contains [] k = refl
  has-contains ((i, v) ∷ group) k =
      ground (arith, has-contains group k, e.is_same_iff i k, e.is_same_iff k i)

  keys-append_at :
      (group : Dict G (List A)) (k : G) (a : A)
      → keys (append_at group k a)
        ≡ (if contains k (keys group) then keys group else keys group ++ k ∷ [])
  keys-append_at group k a = rw (append_at-cases group k a) (
      keys-set group k (members (get group k) ++ a ∷ [])
      ∙ ap (λ b. if b then keys group else keys group ++ k ∷ []) (has-contains group k))

  keys-group_pairs :
      (pairs : List (G × A)) (group : Dict G (List A))
      → keys (group_pairs group pairs) ≡ keys group ++ new_keys (keys group) pairs
  unfolding group_pairs new_keys
  keys-group_pairs [] group = sym (append-nil _)
  keys-group_pairs ((k, a) ∷ pairs) group = ground (
    arith,
    keys-group_pairs pairs (append_at group k a),
    keys-append_at group k a,
    append_assoc (keys group) (k ∷ []) (new_keys (keys group ++ k ∷ []) pairs),
  )

module _ {K V : Type 0} ⦃e : Comparable K⦄ ⦃d : Comparable V⦄ where
  -- With `only_group_val` the same group keys come, in the same order, as with the groups.
  pub iter_only_group_val-iter_group :
      (no_pop : Bool) (ks : List (K × V)) (items : List (Dict K V))
      → iter_only_group_val no_pop ks items ≡ keys (iter_group no_pop ks items)
  unfolding iter_only_group_val iter_group
  iter_only_group_val-iter_group no_pop ks items =
      sym (keys-group_pairs (map (parse_item no_pop ks) items) [])
