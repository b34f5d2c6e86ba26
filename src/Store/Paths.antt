-- ===== src/Store/Paths.antt =====
-- Paths of keys in nested dictionaries, and what a search along one reads and changes.
use smartlibs.Prelude.{
  List, [], ◌∷◌, ◌≡◌, refl, ◌⊎◌, inl, inr, Bool, true, false, Option, none, some, ◌==◌, arith,
  if◌then◌else◌, list_eq_iff, Eq-nat, Eq-list,
}
use smartlibs.Text.{Text}
use smartlibs.Nested.{
  Tree, null, leaf, dict, Branches, end, read, read-write-at, read-write-other, write-same,
}
use smartlibs.Store.{OnFound, sub_obj, find_in}

module _ {V : Type 0} where
  -- The value at the end of a path, if every key is there and all but the last hold dictionaries.
  abbrev pub read_path : Branches V → Text → List Text → Option (Tree V)
  read_path obj key [] = read obj key
  read_path obj key (sub_key ∷ path) = elim (read obj key) [
    | none ↦ none
    | some null ↦ none
    | some (leaf v) ↦ none
    | some (dict sub) ↦ read_path sub sub_key path
  ]

  -- Something that is no dictionary stands on the way.
  abbrev pub blocked : Branches V → Text → List Text → Bool
  blocked obj key [] = false
  blocked obj key (sub_key ∷ path) = elim (read obj key) [
    | none ↦ false
    | some null ↦ true
    | some (leaf v) ↦ true
    | some (dict sub) ↦ blocked sub sub_key path
  ]

  -- The dictionary that holds the last key, the empty one where it is not there.
  abbrev pub parent : Branches V → Text → List Text → Branches V
  parent obj key [] = obj
  parent obj key (sub_key ∷ path) = elim (read obj key) [
    | none ↦ end
    | some null ↦ end
    | some (leaf v) ↦ end
    | some (dict sub) ↦ parent sub sub_key path
  ]

abbrev pub last_key : Text → List Text → Text
last_key key [] = key
last_key key (sub_key ∷ path) = last_key sub_key path

-- Two paths that part at some key, so that none is the beginning of the other.
abbrev pub apart : Text → List Text → Text → List Text → Bool
apart k [] i [] = if k == i then false else true
apart k [] i (j ∷ q) = if k == i then false else true
apart k (l ∷ p) i [] = if k == i then false else true
apart k (l ∷ p) i (j ∷ q) = let rest = apart l p j q in if k == i then rest else true

blocked-end : (V : Type 0) (key : Text) (path : List Text) → blocked {V = V} end key path ≡ false
unfolding read
blocked-end V key [] = refl
blocked-end V key (sub_key ∷ path) = refl

read_path-end : (V : Type 0) (key : Text) (path : List Text) → read_path {V = V} end key path ≡ none
unfolding read
read_path-end V key [] = refl
read_path-end V key (sub_key ∷ path) = refl

parent-end : (V : Type 0) (key : Text) (path : List Text) → parent {V = V} end key path ≡ end
unfolding read
parent-end V key [] = refl
parent-end V key (sub_key ∷ path) = refl

module _ {V : Type 0} where
  -- What a key can hold.
  abbrev pub TreeCases : Option (Tree V) → Type 0
  TreeCases o =
      (o ≡ none)
      ⊎ ((o ≡ some null)
          ⊎ (((v : V) × (o ≡ some (leaf v))) ⊎ ((sub : Branches V) × (o ≡ some (dict sub)))))

  pub tree_cases : (o : Option (Tree V)) → TreeCases o
  tree_cases none = inl refl
  tree_cases (some null) = inr (inl refl)
  tree_cases (some (leaf v)) = inr (inr (inl (v, refl)))
  tree_cases (some (dict sub)) = inr (inr (inr (sub, refl)))

  pub read_path-parent :
      (obj : Branches V) (key : Text) (path : List Text)
      → read_path obj key path ≡ read (parent obj key path) (last_key key path)
  unfolding read
  read_path-parent obj key [] = refl
  read_path-parent obj key (sub_key ∷ path) = elim (tree_cases (read obj key)) [
    | inl e ↦ ground (arith, e)
    | inr (inl e) ↦ ground (arith, e)
    | inr (inr (inl (v, e))) ↦ ground (arith, e)
    | inr (inr (inr (sub, e))) ↦ ground (arith, e, read_path-parent sub sub_key path)
  ]

  blocked_sub :
      (obj : Branches V) (key l : Text) (p : List Text) (sub : Branches V)
      → read obj key ≡ some (dict sub)
      → blocked obj key (l ∷ p) ≡ false
      → blocked sub l p ≡ false
  blocked_sub obj key l p sub e h = ground (arith, e, h)

module _ {V R : Type 0} (on_found : OnFound V R) where
  -- A way that is blocked is left as it is.
  pub find_in-blocked :
      (on_no_sub : Bool) (obj : Branches V) (key : Text) (path : List Text)
      → blocked obj key path ≡ true
      → find_in on_found on_no_sub key path obj ≡ (obj, none)
  unfolding find_in sub_obj
  find_in-blocked b obj key [] h = cc
  find_in-blocked b obj key (sub_key ∷ path) h = elim (tree_cases (read obj key)) [
    | inl e ↦ ground (arith, e, h)
    | inr (inl e) ↦ ground (arith, e, h)
    | inr (inr (inl (v, e))) ↦ ground (arith, e, h)
    | inr (inr (inr (sub, e))) ↦
        ground (arith, e, h, find_in-blocked b sub sub_key path, write-same obj key (dict sub) e)
  ]

  -- A search that may make dictionaries, on a way that is not blocked, hits.
  pub find_in-hit :
      (obj : Branches V) (key : Text) (path : List Text)
      → blocked obj key path ≡ false
      → (find_in on_found true key path obj).1
        ≡ some (
          (on_found (parent obj key path) (last_key key path)).1,
          (on_found (parent obj key path) (last_key key path)).2,
        )
  unfolding find_in sub_obj
  find_in-hit obj key [] h = refl
  find_in-hit obj key (sub_key ∷ path) h = elim (tree_cases (read obj key)) [
    | inl e ↦ ground (
      arith,
      e,
      find_in-hit end sub_key path (blocked-end V sub_key path),
      parent-end V sub_key path,
    )
    | inr (inl e) ↦ ground (arith, e, h)
    | inr (inr (inl (v, e))) ↦ ground (arith, e, h)
    | inr (inr (inr (sub, e))) ↦ ground (arith, e, h, find_in-hit sub sub_key path)
  ]

  -- Then the last key holds what the search put there.
  pub find_in-read :
      (obj : Branches V) (key : Text) (path : List Text)
      → blocked obj key path ≡ false
      → read_path (find_in on_found true key path obj).0 key path
        ≡ read (on_found (parent obj key path) (last_key key path)).0 (last_key key path)
  unfolding find_in sub_obj
  find_in-read obj key [] h = refl
  find_in-read obj key (sub_key ∷ path) h = elim (tree_cases (read obj key)) [
    | inl e ↦ ground (
      arith,
      e,
      find_in-read end sub_key path (blocked-end V sub_key path),
      parent-end V sub_key path,
      read-write-at obj key (dict (find_in on_found true sub_key path end).0),
    )
    | inr (inl e) ↦ ground (arith, e, h)
    | inr (inr (inl (v, e))) ↦ ground (arith, e, h)
    | inr (inr (inr (sub, e))) ↦ ground (
      arith,
      e,
      h,
      find_in-read sub sub_key path,
      read-write-at obj key (dict (find_in on_found true sub_key path sub).0),
    )
  ]

  -- Along a path that parts from it, the search changes nothing, if `on_found` changes its own key only.
  pub find_in-apart :
      ((obj : Branches V) (k j : Text) → (k == j) ≡ false → read (on_found obj k).0 j ≡ read obj j)
      → (obj : Branches V) (key : Text) (path : List Text) → blocked obj key path ≡ false
      → (i : Text) (q : List Text) → apart key path i q ≡ true
      → read_path (find_in on_found true key path obj).0 i q ≡ read_path obj i q
  unfolding find_in sub_obj
  find_in-apart own obj key [] h i [] a = ground (arith, a, own obj key i)
  find_in-apart own obj key [] h i (j ∷ q) a = ground (arith, a, own obj key i)
  find_in-apart own obj key (l ∷ p) h i [] a = elim (tree_cases (read obj key)) [
    | inl e ↦
        ground (arith, e, a, read-write-other obj key (dict (find_in on_found true l p end).0) i)
    | inr (inl e) ↦ ground (arith, e, h)
    | inr (inr (inl (v, e))) ↦ ground (arith, e, h)
    | inr (inr (inr (sub, e))) ↦
        ground (arith, e, a, read-write-other obj key (dict (find_in on_found true l p sub).0) i)
  ]
  find_in-apart own obj key (l ∷ p) h i (j ∷ q) a = elim (tree_cases (read obj key)) [
    | inl e ↦ ground (
      arith,
      e,
      a,
      list_eq_iff key i,
      read-write-other obj key (dict (find_in on_found true l p end).0) i,
      read-write-at obj key (dict (find_in on_found true l p end).0),
      find_in-apart own end l p (blocked-end V l p) j q,
      read_path-end V j q,
    )
    | inr (inl e) ↦ ground (arith, e, h)
    | inr (inr (inl (v, e))) ↦ ground (arith, e, h)
    | inr (inr (inr (sub, e))) ↦ ground (
      arith,
      e,
      a,
      list_eq_iff key i,
      read-write-other obj key (dict (find_in on_found true l p sub).0) i,
      read-write-at obj key (dict (find_in on_found true l p sub).0),
      find_in-apart own sub l p (blocked_sub obj key l p sub e h) j q,
    )
  ]
