-- ===== src/Store/Registry.antt =====
-- smart/utils/store/store.py: `ContextStore`, which makes its states, lists, dictionaries and locks
-- when they are first asked for. An object is a number, so that two names of one object can be told
-- from two objects; the store of values holds the values themselves.
pub mod Objects
use smartlibs.Prelude.{
  ℕ, suc, ◌<◌, List, [], ◌∷◌, ◌++◌, ◌≡◌, ◌≢◌, refl, sym, ap, ◌∙◌, ◌⊎◌, Bool, true, false, not, ◌&&◌,
  Bool-cases, inl, inr, Option, none, some, Option-cases, ◌==◌, ==_refl, list_eq_iff, nat_eq_iff,
  arith, if◌then◌else◌, Eq-nat, Eq-list,
}
use mathlib.Core.Path.{subst}
use smartlibs.Text.{Text}
use smartlibs.Dict.{Dict, get, set, del, keys, get-set, get-del}

-- `StoreTypes` without the values.
pub data StoreType : Type 0 where
  state list dict lock : StoreType

unfoldable pub key_ns : StoreType → ℕ
key_ns state = 0
key_ns list = 1
key_ns dict = 2
key_ns lock = 3

-- The objects by type and name, the values by name, and the number of the next object.
pub record ContextStore (V : Type 0) : Type 0 where
  pub stores : Dict ℕ (Dict Text ℕ)
  pub values : Dict Text V
  pub next : ℕ

abbrev pub or_new : Option (Dict Text ℕ) → Dict Text ℕ
or_new none = []
or_new (some store) = store

module _ {V : Type 0} where
  -- `__get_store`, whose new dictionary is kept with the object that is put into it.
  unfoldable pub get_store : ContextStore V → ℕ → Dict Text ℕ
  unfolding get
  get_store s ns = or_new (get s.stores ns)

  -- The methods `state`, `list`, `dict` and `lock`: the object of that name, made if there is none.
  unfoldable pub object_of : ContextStore V → ℕ → Text → ContextStore V × ℕ
  unfolding get_store get set
  object_of s ns name = elim (get (get_store s ns) name) [
    | some object ↦ (s, object)
    | none ↦ (
      record s { stores = set s.stores ns (set (get_store s ns) name s.next); next = suc s.next },
      s.next,
    )
  ]

  unfoldable pub get_names : ContextStore V → ℕ → List Text
  unfolding get_store
  get_names s ns = keys (get_store s ns)

  -- `ContextValue`; the deletion of a value that is not there is a KeyError.
  unfoldable pub value_get : ContextStore V → Text → V → V
  unfolding get
  value_get s name default_val = elim (get s.values name) [ none ↦ default_val | some v ↦ v ]

  unfoldable pub value_set : ContextStore V → Text → V → ContextStore V
  unfolding set
  value_set s name val = record s { values = set s.values name val }

  unfoldable pub value_delete : ContextStore V → Text → Option (ContextStore V)
  unfolding get del
  value_delete s name = elim (get s.values name) [
    | none ↦ none
    | some v ↦ some (record s { values = del s.values name })
  ]
