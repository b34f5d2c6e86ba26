-- ===== src/Nested/Merge.antt =====
-- smart/utils/dict.py: `deep_merge` of two nested dictionaries, with copies and without functions for
-- lists, which is `dict_deep_merge`. Which plain values count as true is an argument.
mod Samples
use smartlibs.Prelude.{
  List, [], ◌∷◌, ◌≡◌, refl, sym, ap, ◌∙◌, ◌⊎◌, inl, inr, Bool, true, false, not, ◌&&◌, Option, none,
  some, ◌==◌, arith, if◌then◌else◌, list_eq_iff, ==_refl, Eq-nat, Eq-list,
}
use smartlibs.Text.{Text}
use mathlib.Core.Path.{subst}
use smartlibs.Nested.{Tree, null, leaf, dict, Branches, end, entry, read, write, holds, read-write}
use smartlibs.Store.Paths.{read_path, tree_cases}

module _ {V : Type 0} (truthy_value : V → Bool) where
  unfoldable pub truthy : Tree V → Bool
  truthy null = false
  truthy (leaf v) = truthy_value v
  truthy (dict end) = false
  truthy (dict (entry k v obj)) = true

  -- `deep_merge` where both are true, given the merge of dictionaries.
  abbrev pub merge_true : Tree V → Tree V → (Branches V → Branches V) → Tree V
  merge_true (dict a) (dict b) merged = dict (merged a)
  merge_true a b merged = b

  unfoldable mutual
    unfolding truthy read write

    pub deep_merge : Tree V → Tree V → Tree V
    deep_merge a null = if truthy a then a else null
    deep_merge a (leaf v) = if truthy a && not (truthy_value v) then a else leaf v
    deep_merge a (dict b) =
        if truthy a
        then (if truthy (dict b) then merge_true a (dict b) (λ d. merge_items d b) else a)
        else dict b

    -- The loop over the second dictionary.
    pub merge_items : Branches V → Branches V → Branches V
    merge_items merged end = merged
    merge_items merged (entry k v b) =
        let both = λ (w : Tree V). deep_merge w v in
        merge_items (write merged k (elim (read merged k) [ none ↦ v | some w ↦ both w ])) b

  -- What the merge holds under one key.
  abbrev pub merged_value : Option (Tree V) → Option (Tree V) → Option (Tree V)
  merged_value old none = old
  merged_value none (some v) = some v
  merged_value (some w) (some v) = some (deep_merge w v)

  -- No key stands twice in one dictionary.
  abbrev pub Distinct : Branches V → Type 0
  Distinct end = Unit
  Distinct (entry k v b) = (read b k ≡ none) × Distinct b

  read-merge_items :
      (a b : Branches V) (k : Text)
      → Distinct b
      → read (merge_items a b) k ≡ merged_value (read a k) (read b k)
  unfolding merge_items read
  read-merge_items a end k h = ground arith
  read-merge_items a (entry i v b) k h = ground (
    arith,
    list_eq_iff i k,
    h.0,
    read-merge_items (write a i (elim (read a i) [ none ↦ v | some w ↦ deep_merge w v ])) b k h.1,
    read-write a i (elim (read a i) [ none ↦ v | some w ↦ deep_merge w v ]) k,
  )

  abbrev pub Under : (Branches V → Type 0) → Option (Tree V) → Type 0
  Under P (some (dict s)) = P s
  Under P _ = Unit

  abbrev pub DistinctAlong : Branches V → Text → List Text → Type 0
  DistinctAlong b k [] = Distinct b
  DistinctAlong b k (l ∷ p) = Distinct b × Under (λ s. DistinctAlong s l p) (read b k)

  Distinct-here : (b : Branches V) (k : Text) (p : List Text) → DistinctAlong b k p → Distinct b
  Distinct-here b k [] h = h
  Distinct-here b k (l ∷ p) h = h.0

  DistinctAlong-below :
      (b s : Branches V) (k l : Text) (p : List Text)
      → DistinctAlong b k (l ∷ p)
      → read b k ≡ some (dict s)
      → DistinctAlong s l p
  DistinctAlong-below b s k l p h e = subst (Under (λ t. DistinctAlong t l p)) e h.1

  truthy_dict :
      (s : Branches V) (l : Text) (p : List Text) (v : Tree V)
      → read_path s l p ≡ some v
      → truthy (dict s) ≡ true
  unfolding truthy read
  truthy_dict end l [] v h = cc
  truthy_dict end l (m ∷ p) v h = cc
  truthy_dict (entry i w s) l p v h = refl

  -- A true value of the second dictionary, at whatever depth, stands in the merge, if no key stands
  -- twice in the dictionaries on the way to it.
  pub merge-override :
      (a b : Branches V) (k : Text) (p : List Text) (v : V)
      → DistinctAlong b k p
      → read_path b k p ≡ some (leaf v)
      → truthy_value v ≡ true
      → read_path (merge_items a b) k p ≡ some (leaf v)
  unfolding deep_merge
  merge-override a b k [] v d h t = ground (arith, read-merge_items a b k d, h, t)
  merge-override a b k (l ∷ p) v d h t = elim (tree_cases (read b k)) [
    | inl e ↦ ground (arith, e, h)
    | inr (inl e) ↦ ground (arith, e, h)
    | inr (inr (inl (w, e))) ↦ ground (arith, e, h)
    | inr (inr (inr (s, e))) ↦
        let below = DistinctAlong-below b s k l p d e in
        let there : read_path s l p ≡ some (leaf v) = ground (arith, e, h) in
        elim (tree_cases (read a k)) [
          | inl f ↦ ground (arith, read-merge_items a b k d.0, e, f, there)
          | inr (inl f) ↦ ground (arith, read-merge_items a b k d.0, e, f, there)
          | inr (inr (inl (w, f))) ↦
              ground
                (arith, read-merge_items a b k d.0, e, f, there, truthy_dict s l p (leaf v) there)
          | inr (inr (inr (c, f))) ↦ ground (
            arith,
            read-merge_items a b k d.0,
            e,
            f,
            there,
            truthy_dict s l p (leaf v) there,
            merge-override c s l p v below there t,
          )
        ]
  ]

  -- A true value of the first dictionary stands in the merge against a value of the second that does
  -- not count as true, though the merge is said to let the second override the first.
  pub merge-keeps :
      (a b : Branches V) (k : Text) (w v : Tree V)
      → Distinct b
      → read a k ≡ some w
      → read b k ≡ some v
      → truthy w ≡ true
      → truthy v ≡ false
      → read (merge_items a b) k ≡ some w
  unfolding deep_merge truthy
  merge-keeps a b k w null d e f t u = ground (arith, read-merge_items a b k d, e, f, t)
  merge-keeps a b k w (leaf v) d e f t u = ground (arith, read-merge_items a b k d, e, f, t, u)
  merge-keeps a b k w (dict end) d e f t u = ground (arith, read-merge_items a b k d, e, f, t)
  merge-keeps a b k w (dict (entry i x s)) d e f t u = absurd (ground (arith, u))
