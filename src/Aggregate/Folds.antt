-- ===== src/Aggregate/Folds.antt =====
-- The states of a view are folds of the values that it was given.
use smartlibs.Prelude.{
  ℕ, List, [], ◌∷◌, ◌≡◌, refl, ap, ◌∙◌, Bool, true, false, Option, none, some, ◌==◌, arith,
  if◌then◌else◌, contains, list_eq_iff, Eq-nat, Eq-list,
}
use smartlibs.Text.{Text}
use smartlibs.Dict.{Dict, get, set, get-set, keys}
use smartlibs.Aggregate.{
  AggregateFn, AggregateView, Method, sum, count, minimum, maximum, mean, step_states, add_value,
  add_aggregate_fn, apply_method, sum_key, sum_fn, count_key, count_fn, update_display_field,
}

abbrev pub add_values : AggregateView → List ℕ → AggregateView
add_values view [] = view
add_values view (value ∷ values) = add_values (add_value view value) values

abbrev pub build : AggregateView → List Method → AggregateView
build view [] = view
build view (m ∷ ms) = build (apply_method view m) ms

-- The state that an aggregate has after some values.
abbrev pub folded : AggregateFn → Option ℕ → List ℕ → Option ℕ
folded fn state [] = state
folded fn state (value ∷ values) = folded fn (some (fn state value)) values

-- No key stands twice in a dictionary.
abbrev pub distinct_keys : {V : Type 0} → Dict Text V → Bool
distinct_keys [] = true
distinct_keys ((k, v) ∷ d) = if contains k (keys d) then false else distinct_keys d

contains-set :
    {V : Type 0} (d : Dict Text V) (k : Text) (v : V) (j : Text)
    → contains j (keys (set d k v)) ≡ (if j == k then true else contains j (keys d))
unfolding set
contains-set [] k v j = ground arith
contains-set {V} ((i, w) ∷ d) k v j =
    ground (arith, list_eq_iff i k, list_eq_iff j i, list_eq_iff j k, contains-set d k v j)

pub distinct_set :
    {V : Type 0} (d : Dict Text V) (k : Text) (v : V)
    → distinct_keys d ≡ true
    → distinct_keys (set d k v) ≡ true
unfolding set
distinct_set [] k v h = refl
distinct_set ((i, w) ∷ d) k v h =
    ground (arith, list_eq_iff i k, contains-set d k v i, distinct_set d k v)

get-step_states-absent :
    (fns : Dict Text AggregateFn) (value : ℕ) (states : Dict Text ℕ) (k : Text)
    → contains k (keys fns) ≡ false
    → get (step_states fns value states) k ≡ get states k
unfolding step_states
get-step_states-absent [] value states k h = refl
get-step_states-absent ((i, fn) ∷ fns) value states k h = ground (
  arith,
  list_eq_iff i k,
  list_eq_iff k i,
  get-set states i k (fn (get states i) value),
  get-step_states-absent fns value (set states i (fn (get states i) value)) k,
)

-- One value takes every aggregate one step on.
get-step_states :
    (fns : Dict Text AggregateFn) (value : ℕ) (states : Dict Text ℕ) (k : Text)
    → distinct_keys fns ≡ true
    → get (step_states fns value states) k
      ≡ elim (get fns k) [ none ↦ get states k | some fn ↦ some (fn (get states k) value) ]
unfolding step_states get
get-step_states [] value states k h = refl
get-step_states ((i, fn) ∷ fns) value states k h = ground (
  arith,
  list_eq_iff i k,
  get-set states i k (fn (get states i) value),
  get-step_states-absent fns value (set states i (fn (get states i) value)) k,
  get-step_states fns value (set states i (fn (get states i) value)) k,
)

fns_add_value :
    (view : AggregateView) (values : List ℕ)
    → (add_values view values).aggregate_fns ≡ view.aggregate_fns
unfolding add_value
fns_add_value view [] = refl
fns_add_value view (value ∷ values) = fns_add_value (add_value view value) values

-- All values take an aggregate to the fold of its function.
pub get-add_values :
    (view : AggregateView) (values : List ℕ) (k : Text) (fn : AggregateFn)
    → distinct_keys view.aggregate_fns ≡ true
    → get view.aggregate_fns k ≡ some fn
    → get (add_values view values).state_dict k ≡ folded fn (get view.state_dict k) values
unfolding add_value
get-add_values view [] k fn h is = refl
get-add_values view (value ∷ values) k fn h is =
    get-add_values (add_value view value) values k fn h is
    ∙ ap (λ s. folded fn s values)
        (ground (arith, get-step_states view.aggregate_fns value view.state_dict k h, is))

distinct_apply :
    (view : AggregateView) (m : Method)
    → distinct_keys view.aggregate_fns ≡ true
    → distinct_keys (apply_method view m).aggregate_fns ≡ true
unfolding apply_method add_aggregate_fn update_display_field
distinct_apply view (sum display) h = distinct_set view.aggregate_fns _ _ h
distinct_apply view (count display) h = distinct_set view.aggregate_fns _ _ h
distinct_apply view minimum h = distinct_set view.aggregate_fns _ _ h
distinct_apply view maximum h = distinct_set view.aggregate_fns _ _ h
distinct_apply view mean h =
    distinct_set (set view.aggregate_fns sum_key sum_fn) count_key count_fn
      (distinct_set view.aggregate_fns sum_key sum_fn h)

pub distinct_build :
    (view : AggregateView) (ms : List Method)
    → distinct_keys view.aggregate_fns ≡ true
    → distinct_keys (build view ms).aggregate_fns ≡ true
distinct_build view [] h = h
distinct_build view (m ∷ ms) h = distinct_build (apply_method view m) ms (distinct_apply view m h)
