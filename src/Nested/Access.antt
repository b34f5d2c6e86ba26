-- ===== src/Nested/Access.antt =====
-- smart/utils/dict.py: reads and writes of nested dictionaries by lists of keys, where a plain value
-- has no keys.
mod Samples
use mathlib.Core.Option
use smartlibs.Prelude.{
  List, [], ◌∷◌, ◌≡◌, refl, sym, ap, ◌∙◌, ◌⊎◌, inl, inr, Bool, true, false, not, Option, none, some,
  Option-cases, ◌==◌, arith, if◌then◌else◌, list_eq_iff, ==_refl, Eq-nat, Eq-list,
}
use smartlibs.Text.{Text}
use smartlibs.Nested.{Tree, null, leaf, dict, Branches, end, entry, read, write, read-write-at}
use smartlibs.Store.Paths.{read_path, tree_cases}

module _ {V : Type 0} where
  -- The loop of `dict_safe_get`, and that of `dict_find`, which differs on lists only.
  unfoldable pub get_along : Tree V → List Text → Tree V → Tree V
  unfolding read
  get_along obj [] default_val = obj
  get_along null (k ∷ keys) default_val = default_val
  get_along (leaf v) (k ∷ keys) default_val = default_val
  get_along (dict d) (k ∷ keys) default_val = elim (read d k) [
    | none ↦ default_val
    | some sub ↦ get_along sub keys default_val
  ]

  -- An object that is empty has only the default.
  unfoldable pub dict_safe_get : (Tree V → Bool) → Tree V → List Text → Tree V → Tree V
  unfolding get_along
  dict_safe_get truthy obj keys default_val =
      if truthy obj then get_along obj keys default_val else default_val

  -- The dictionary that `__sub_obj_setter` goes on in: a missing one, or None, is made anew; none is
  -- a value without keys.
  unfoldable pub sub_dict : Branches V → Text → Option (Branches V)
  unfolding read
  sub_dict obj key = elim (read obj key) [
    | none ↦ some end
    | some null ↦ some end
    | some (leaf v) ↦ none
    | some (dict sub) ↦ some sub
  ]

  -- `dict_safe_set`; none is an exception, before which nothing is changed.
  unfoldable pub dict_safe_set : Branches V → Text → List Text → Tree V → Option (Branches V)
  unfolding sub_dict write
  dict_safe_set obj key [] val = some (write obj key val)
  dict_safe_set obj key (sub_key ∷ path) val = elim (sub_dict obj key) [
    | none ↦ none
    | some sub ↦ Option.map (λ sub2. write obj key (dict sub2)) (dict_safe_set sub sub_key path val)
  ]

  abbrev pub or_default : Option (Tree V) → Tree V → Tree V
  or_default none default_val = default_val
  or_default (some v) default_val = v

  -- `dict_get_or_set` with its value.
  unfoldable pub dict_get_or_set :
      Branches V → Text → List Text → Tree V → Option (Branches V × Tree V)
  unfolding sub_dict write read
  dict_get_or_set obj key [] default_val =
      let val = or_default (read obj key) default_val in some (write obj key val, val)
  dict_get_or_set obj key (sub_key ∷ path) default_val = elim (sub_dict obj key) [
    | none ↦ none
    | some sub ↦
        Option.map (λ r. (write obj key (dict r.0), r.1))
          (dict_get_or_set sub sub_key path default_val)
  ]

  get_along-read :
      (obj : Branches V) (key : Text) (keys : List Text) (d v : Tree V)
      → get_along (dict (write obj key v)) (key ∷ keys) d ≡ get_along v keys d
  unfolding get_along
  get_along-read obj key keys d v = ground (arith, read-write-at obj key v)

  -- What is set along some keys, without an exception, is what is read along them.
  pub get_along-dict_safe_set :
      (obj obj2 : Branches V) (key : Text) (path : List Text) (val d : Tree V)
      → dict_safe_set obj key path val ≡ some obj2
      → get_along (dict obj2) (key ∷ path) d ≡ val
  unfolding dict_safe_set get_along
  get_along-dict_safe_set obj obj2 key [] val d h =
      ground (arith, h, get_along-read obj key [] d val)
  get_along-dict_safe_set obj obj2 key (l ∷ p) val d h = elim (Option-cases (sub_dict obj key)) [
    | inl e ↦ ground (arith, e, h)
    | inr (sub, e) ↦ elim (Option-cases (dict_safe_set sub l p val)) [
      | inl f ↦ ground (arith, e, f, h)
      | inr (sub2, f) ↦ ground (
        arith,
        e,
        f,
        h,
        get_along-dict_safe_set sub sub2 l p val d f,
        get_along-read obj key (l ∷ p) d (dict sub2),
      )
    ]
  ]

  -- What `dict_get_or_set` returns is what is read along the keys afterwards.
  pub get_along-dict_get_or_set :
      (obj obj2 : Branches V) (key : Text) (path : List Text) (default_val d val : Tree V)
      → dict_get_or_set obj key path default_val ≡ some (obj2, val)
      → get_along (dict obj2) (key ∷ path) d ≡ val
  unfolding dict_get_or_set get_along
  get_along-dict_get_or_set obj obj2 key [] default_val d val h =
      ground (arith, h, get_along-read obj key [] d (or_default (read obj key) default_val))
  get_along-dict_get_or_set obj obj2 key (l ∷ p) default_val d val h =
      elim (Option-cases (sub_dict obj key)) [
        | inl e ↦ ground (arith, e, h)
        | inr (sub, e) ↦ elim (Option-cases (dict_get_or_set sub l p default_val)) [
          | inl f ↦ ground (arith, e, f, h)
          | inr ((sub2, v), f) ↦ ground (
            arith,
            e,
            f,
            h,
            get_along-dict_get_or_set sub sub2 l p default_val d v f,
            get_along-read obj key (l ∷ p) d (dict sub2),
          )
        ]
      ]
