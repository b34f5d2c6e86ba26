-- ===== src/AutoYml/Sibling.antt =====
-- smart/auto/parser/auto_yml.py: `__sibling__`, whose items go to all the other nodes beside it that
-- lack them. A plain value has no keys.
use smartlibs.Prelude.{
  ◌≡◌, refl, sym, inl, inr, Bool, false, Option, none, some, Bool-cases, ◌==◌, arith, if◌then◌else◌,
  list_eq_iff, Eq-nat, Eq-list,
}
use smartlibs.Text.{Text}
use smartlibs.TaskFinder.{is_private_key}
use smartlibs.Nested.{
  Tree, null, leaf, dict, Branches, end, entry, read, write, remove, holds, read-write, read-remove,
}
use smartlibs.AutoYml.Extend.{or_else, and_sub, and_sub-eq-some}

abbrev pub items_at : {V : Type 0} → Tree V → Branches V
items_at null = end
items_at (leaf v) = end
items_at (dict d) = d

module _ {V : Type 0} where
  -- None is the TypeError of a plain value, which is no container.
  abbrev pub with_key : Text → Tree V → Tree V → Option (Tree V)
  with_key extend_key extend_val null = some (dict (write end extend_key extend_val))
  with_key extend_key extend_val (leaf v) = none
  with_key extend_key extend_val (dict d) =
      some (dict (if holds d extend_key then d else write d extend_key extend_val))

  unfoldable pub copy_to_siblings : Text → Tree V → Branches V → Option (Branches V)
  unfolding holds write is_private_key
  copy_to_siblings extend_key extend_val end = some end
  copy_to_siblings extend_key extend_val (entry node_key node_dict more) =
      let rest = copy_to_siblings extend_key extend_val more in
      and_sub node_key
        (if is_private_key node_key
          then some node_dict
          else with_key extend_key extend_val node_dict)
        rest

  unfoldable pub copy_siblings : Branches V → Branches V → Option (Branches V)
  unfolding copy_to_siblings
  copy_siblings end node = some node
  copy_siblings (entry extend_key extend_val more) node =
      elim (copy_to_siblings extend_key extend_val node) [
        | none ↦ none
        | some node2 ↦ copy_siblings more node2
      ]

  -- `parse_syntax_sibling`; none is also the AttributeError of a value that is true and no dictionary.
  unfoldable pub parse_syntax_sibling : (V → Bool) → Text → Branches V → Option (Branches V)
  unfolding copy_siblings read remove
  parse_syntax_sibling truthy_value sibling_key node =
      let others = remove node sibling_key in
      elim (read node sibling_key) [
        | none ↦ some others
        | some null ↦ some others
        | some (leaf v) ↦ if truthy_value v then none else some others
        | some (dict d) ↦ copy_siblings d others
      ]

  with_key-read :
      (j : Text) (v w r : Tree V)
      → with_key j v w ≡ some r
      → (d : Branches V) × (r ≡ dict d)
        × ((i : Text) → read d i ≡ or_else (read (items_at w) i) (if j == i then some v else none))
  unfolding read holds
  with_key-read j v null r h =
      (write end j v, ground (arith, h), λ i. ground (arith, read-write end j v i))
  with_key-read j v (leaf x) r h = absurd (cc h)
  with_key-read j v (dict d) r h = (
    if holds d j then d else write d j v,
    ground (arith, h),
    λ i. ground (arith, read-write d j v i, list_eq_iff j i),
  )

  or_else-none : (o : Option (Tree V)) → or_else o none ≡ o
  or_else-none none = refl
  or_else-none (some v) = refl

  some_then :
      (o : Option (Branches V)) (f : Branches V → Option (Branches V)) {r : Branches V}
      → elim o [ none ↦ none | some a ↦ f a ] ≡ some r
      → (a : Branches V) × (o ≡ some a) × (f a ≡ some r)
  some_then none f h = absurd (cc h)
  some_then (some a) f h = (a, refl, h)

  copy_to_siblings-read :
      (j : Text) (v : Tree V) (node node2 : Branches V) (k : Text) (w : Tree V)
      → copy_to_siblings j v node ≡ some node2
      → is_private_key k ≡ false
      → read node k ≡ some w
      → (r : Tree V) × (read node2 k ≡ some r) × (with_key j v w ≡ some r)
  unfolding copy_to_siblings read
  copy_to_siblings-read j v end node2 k w h public at_k = absurd (cc at_k)
  copy_to_siblings-read j v (entry i x more) node2 k w h public at_k =
      let (y, rest, ey, er, ed) = and_sub-eq-some i _ _ h in
      elim (Bool-cases (i == k)) [
        | inl same ↦
            (y, ground (arith, ed, same), ground (arith, ey, same, list_eq_iff i k, public, at_k))
        | inr other ↦
            (let (r, e1, e2) =
                copy_to_siblings-read j v more rest k w er public (ground (arith, at_k, other)) in
              (r, ground (arith, ed, other, e1), e2))
      ]

  -- What every node beside the `__sibling__` node has afterwards.
  copy_siblings-read :
      (sib node node2 : Branches V) (k : Text) (w : Tree V)
      → copy_siblings sib node ≡ some node2
      → is_private_key k ≡ false
      → read node k ≡ some w
      → (r : Tree V) × (read node2 k ≡ some r)
        × ((i : Text) → read (items_at r) i ≡ or_else (read (items_at w) i) (read sib i))
  unfolding copy_siblings read
  copy_siblings-read end node node2 k w h public at_k =
      (w, ground (arith, h, at_k), λ i. sym (or_else-none (read (items_at w) i)))
  copy_siblings-read (entry j v more) node node2 k w h public at_k =
      let (mid, first, rest) = some_then _ _ h in
      let (r, at_mid, made) = copy_to_siblings-read j v node mid k w first public at_k in
      let (d, is_dict, reads) = with_key-read j v w r made in
      let (r2, at_2, reads2) = copy_siblings-read more mid node2 k r rest public at_mid in
      (r2, at_2, λ i. ground (arith, reads2 i, reads i, is_dict))

  -- Every node beside the `__sibling__` node that is not private has, when the copy has gone through,
  -- its own items and those of the `__sibling__` node under keys that it does not have itself.
  pub parse_syntax_sibling-read :
      (truthy_value : V → Bool) (sibling_key : Text) (node node2 sib : Branches V) (k : Text)
      (w : Tree V)
      → read node sibling_key ≡ some (dict sib)
      → parse_syntax_sibling truthy_value sibling_key node ≡ some node2
      → is_private_key k ≡ false
      → (k == sibling_key) ≡ false
      → read node k ≡ some w
      → (r : Tree V) × (read node2 k ≡ some r)
        × ((i : Text) → read (items_at r) i ≡ or_else (read (items_at w) i) (read sib i))
  unfolding parse_syntax_sibling
  parse_syntax_sibling-read truthy_value s node node2 sib k w has h public other at_k =
      copy_siblings-read sib (remove node s) node2 k w (rw (has, parse_syntax_sibling) at h) public
        (ground (arith, at_k, other, read-remove node s k, list_eq_iff k s, list_eq_iff s k))
