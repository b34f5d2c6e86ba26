-- ===== src/Store.antt =====
-- smart/utils/store/store.py: `ContextState`, a nested dictionary that is read and written by paths of
-- keys, and smart/utils/store/mp_store.py: `MpState`, whose dictionary is shared by processes, so that
-- a nested dictionary is read as a copy and has to be written back. One process runs at a time: the
-- lock is not modelled.
pub mod Paths
pub mod Laws
pub mod Wait
pub mod Registry
mod Samples
use mathlib.Core.Option
use smartlibs.Prelude.{
  List, [], ◌∷◌, Bool, true, false, not, ◌&&◌, Option, none, some, if◌then◌else◌,
}
use smartlibs.Text.{Text}
use smartlibs.Nested.{Tree, null, leaf, dict, Branches, end, entry, read, write, remove, holds}

-- `shared` tells `MpState`, which has an `update_state_op`, from `ContextState`.
pub record ContextState (V : Type 0) : Type 0 where
  pub state : Branches V
  pub readonly : Bool
  pub shared : Bool

-- `on_found`: the dictionary that it leaves, `b_update_state`, and its value.
abbrev pub OnFound : Type 0 → Type 0 → Type 0
OnFound V R = Branches V → Text → Branches V × Bool × R

unfoldable pub set_readonly : {V : Type 0} → ContextState V → Bool → ContextState V
set_readonly st readonly = record st { readonly = readonly }

module _ {V : Type 0} where
  -- The dictionary under a key, which `on_no_sub` makes where the key is missing.
  unfoldable pub sub_obj : Bool → Branches V → Text → Option (Branches V)
  unfolding read
  sub_obj on_no_sub obj sub_key = elim (read obj sub_key) [
    | none ↦ if on_no_sub then some end else none
    | some null ↦ none
    | some (leaf v) ↦ none
    | some (dict sub) ↦ some sub
  ]

module _ {V R : Type 0} where
  -- The search from a dictionary, with the dictionary that it leaves; none is a search without a hit.
  unfoldable pub find_in :
      OnFound V R → Bool → Text → List Text → Branches V → Branches V × Option (Bool × R)
  unfolding sub_obj write
  find_in on_found on_no_sub key [] obj =
      let found = on_found obj key in (found.0, some (found.1, found.2))
  find_in on_found on_no_sub key (sub_key ∷ path) obj = elim (sub_obj on_no_sub obj key) [
    | none ↦ (obj, none)
    | some sub ↦
        let found = find_in on_found on_no_sub sub_key path sub in
        (write obj key (dict found.0), found.1)
  ]

  -- What a shared state keeps of a search below its first key: all of it where it is written back,
  -- else only a dictionary that `on_no_sub` made under the first key.
  unfoldable pub written_back :
      ContextState V → Bool → Text → Branches V → Option (Bool × R) → Branches V
  unfolding holds write
  written_back st on_no_sub key obj answer =
      let made =
        if on_no_sub && not (holds st.state key) then write st.state key (dict end) else st.state in
      elim answer [
        | none ↦ made
        | some (b_update_state, value) ↦ if b_update_state && not st.readonly then obj else made
      ]

  unfoldable pub find_op :
      OnFound V R → Bool → ContextState V → List Text → ContextState V × Option R
  unfolding find_in written_back
  find_op on_found on_no_sub st [] = (st, none)
  find_op on_found on_no_sub st (key ∷ []) =
      let found = on_found st.state key in (record st { state = found.0 }, some found.2)
  find_op on_found on_no_sub st (key ∷ sub_key ∷ path) =
      let (obj, answer) = find_in on_found on_no_sub key (sub_key ∷ path) st.state in
      (
        record st { state = if st.shared then written_back st on_no_sub key obj answer else obj },
        Option.map (λ a. a.1) answer,
      )

module _ {V : Type 0} where
  abbrev pub or_value : Option (Tree V) → Tree V → Tree V
  or_value none default_val = default_val
  or_value (some v) default_val = v

  abbrev pub found_get : Tree V → OnFound V (Tree V)
  found_get default_val obj key = (obj, false, or_value (read obj key) default_val)

  abbrev pub found_set : Tree V → OnFound V (Tree V)
  found_set value obj key = (write obj key value, true, null)

  abbrev pub found_delete : OnFound V (Tree V)
  found_delete obj key = (remove obj key, true, null)

  abbrev pub found_get_or_set : Tree V → OnFound V (Tree V)
  found_get_or_set default_val obj key = elim (read obj key) [
    | some value ↦ (obj, false, value)
    | none ↦ (write obj key default_val, true, default_val)
  ]

  abbrev pub found_set_fn : (Tree V → Tree V) → OnFound V (Tree V)
  found_set_fn val_fn obj key =
      let value = val_fn (or_value (read obj key) null) in (write obj key value, true, value)

  unfoldable pub get : ContextState V → List Text → Tree V → Tree V
  unfolding find_op read
  get st key_path default_val =
      or_value (find_op (found_get default_val) false st key_path).1 default_val

  -- Whether it was set: `set` returns True then, else None.
  unfoldable pub set : ContextState V → List Text → Tree V → ContextState V × Bool
  unfolding find_op write
  set st key_path value =
      let (st2, rst) = find_op (found_set value) true st key_path in
      (st2, elim rst [ none ↦ false | some _ ↦ true ])

  unfoldable pub delete : ContextState V → List Text → ContextState V
  unfolding find_op remove
  delete st key_path = (find_op found_delete false st key_path).0

  unfoldable pub get_or_set : ContextState V → List Text → Tree V → ContextState V × Tree V
  unfolding find_op read write
  get_or_set st key_path default_val =
      let (st2, rst) = find_op (found_get_or_set default_val) true st key_path in
      (st2, or_value rst default_val)

  -- Without a hit, None comes back.
  unfoldable pub get_or_set_fn : ContextState V → List Text → Tree V → ContextState V × Tree V
  unfolding find_op read write
  get_or_set_fn st key_path val =
      let (st2, rst) = find_op (found_get_or_set val) true st key_path in (st2, or_value rst null)

  unfoldable pub set_fn : ContextState V → List Text → (Tree V → Tree V) → ContextState V × Tree V
  unfolding find_op read write
  set_fn st key_path val_fn =
      let (st2, rst) = find_op (found_set_fn val_fn) true st key_path in (st2, or_value rst null)

  -- `update`, whose keys are single keys.
  unfoldable pub update : ContextState V → Branches V → ContextState V
  unfolding set
  update st end = st
  update st (entry k v state_dict) = update (set st (k ∷ []) v).0 state_dict
