-- ===== src/WorkerState.antt =====
-- smart/auto/ctx/worker_state.py: the counters of a worker, in one thread.
mod Samples
use smartlibs.Prelude.{
  ℕ, ◌+◌, List, [], ◌∷◌, ◌++◌, ◌≡◌, refl, ap, ◌∙◌, Bool, true, false, Option, none, some, ◌==◌,
  list_eq_iff, arith, if◌then◌else◌, contains, Eq-nat, Eq-list,
}
use smartlibs.Text.{Text}
use smartlibs.Dict.{Dict, get, set, get-set}

-- `state` is none before the first write; `keys` are the names that `to_dict` shows.
pub record WorkerState : Type 0 where
  pub state : Option (Dict Text ℕ)
  pub keys : List Text

abbrev pub attributes : Option (Dict Text ℕ) → Dict Text ℕ
attributes none = []
attributes (some d) = d

unfoldable pub get_state : WorkerState → Text → Option ℕ
unfolding get
get_state w key = get (attributes w.state) key

unfoldable pub set_state : WorkerState → Text → ℕ → WorkerState
unfolding set
set_state w key val = record {
  state = some (set (attributes w.state) key val);
  keys = if contains key w.keys then w.keys else w.keys ++ key ∷ [];
}

abbrev pub or_value : Option ℕ → ℕ → ℕ
or_value none default_val = default_val
or_value (some n) default_val = n

-- `incr` and the value that it returns.
unfoldable pub incr : WorkerState → Text → ℕ → WorkerState × ℕ
unfolding get_state set_state
incr w key default_val =
    let val = or_value (get_state w key) default_val + 1 in (set_state w key val, val)

-- `update`; without arguments it makes an empty state.
unfoldable pub update_state : WorkerState → Dict Text ℕ → WorkerState
unfolding set_state
update_state w [] = record w { state = some (attributes w.state) }
update_state w ((key, val) ∷ kwargs) = update_state (set_state w key val) kwargs

unfoldable pub show_keys : WorkerState → List Text → Dict Text (Option ℕ)
unfolding get_state
show_keys w [] = []
show_keys w (k ∷ keys) = (k, get_state w k) ∷ show_keys w keys

unfoldable pub to_dict : WorkerState → Dict Text (Option ℕ)
unfolding show_keys
to_dict w = show_keys w w.keys

-- A pickled worker state loses its values, not its keys.
unfoldable pub getstate : WorkerState → WorkerState
getstate w = record w { state = none }

get-show_keys :
    (w : WorkerState) (keys : List Text) (k : Text)
    → get (show_keys w keys) k ≡ (if contains k keys then some (get_state w k) else none)
unfolding show_keys get
get-show_keys w [] k = refl
get-show_keys w (j ∷ keys) k =
    ground (arith, list_eq_iff j k, list_eq_iff k j, get-show_keys w keys k)

contains-append :
    (keys : List Text) (j k : Text)
    → contains k (keys ++ j ∷ []) ≡ (if k == j then true else contains k keys)
contains-append [] j k = ground arith
contains-append (i ∷ keys) j k = ground (arith, contains-append keys j k)

-- What is set is shown, and hides nothing else.
pub to_dict-set_state :
    (w : WorkerState) (key : Text) (val : ℕ) (k : Text)
    → get (to_dict (set_state w key val)) k
      ≡ (if key == k then some (some val) else get (to_dict w) k)
unfolding to_dict set_state get_state
to_dict-set_state w key val k = ground (
  arith,
  get-show_keys w w.keys k,
  get-show_keys (set_state w key val) (set_state w key val).keys k,
  contains-append w.keys key k,
  get-set (attributes w.state) key k val,
  list_eq_iff key k,
  list_eq_iff k key,
)
