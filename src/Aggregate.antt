-- ===== src/Aggregate.antt =====
-- smart/evals/core/aggregate.py: `AggregateView`, running aggregates of a stream of numbers. The
-- values are natural numbers, and the float that `mean` divides out is kept as its two parts.
pub mod Folds
pub mod Results
mod Samples
use Prim.Native.Nat.{min, max}
use smartlibs.Prelude.{
  ℕ, suc, ◌+◌, List, [], ◌∷◌, ◌++◌, Bool, true, false, not, ◌&&◌, Option, none, some, ◌==◌,
  if◌then◌else◌, contains, Eq-nat, Eq-list,
}
use smartlibs.Text.{Text}
use smartlibs.Dict.{Dict, get, set}

-- A value of the result.
pub data Reading : Type 0 where
  nothing : Reading
  number : ℕ → Reading
  quotient : ℕ → ℕ → Reading

abbrev pub AggregateFn : Type 0
AggregateFn = Option ℕ → ℕ → ℕ

-- What `_state2val_dict` holds: a function of the view's states and of the field's own state.
abbrev pub State2val : Type 0
State2val = Dict Text ℕ → Option ℕ → Reading

pub record AggregateView : Type 0 where
  pub aggregate_fns : Dict Text AggregateFn
  pub display_field : List Text
  pub state_dict : Dict Text ℕ
  pub state2val_dict : Dict Text State2val

abbrev pub new_view : AggregateView
new_view = record { aggregate_fns = []; display_field = []; state_dict = []; state2val_dict = [] }

unfoldable pub add_aggregate_fn : AggregateView → Text → AggregateFn → Bool → AggregateView
unfolding set
add_aggregate_fn view name fn display = record view {
  aggregate_fns = set view.aggregate_fns name fn;
  display_field =
      if display && not (contains name view.display_field)
      then view.display_field ++ name ∷ []
      else view.display_field;
}

-- The loop of `add_value`.
unfoldable pub step_states : Dict Text AggregateFn → ℕ → Dict Text ℕ → Dict Text ℕ
unfolding get set
step_states [] value states = states
step_states ((key, fn) ∷ fns) value states =
    step_states fns value (set states key (fn (get states key) value))

unfoldable pub add_value : AggregateView → ℕ → AggregateView
unfolding step_states
add_value view value = record view {
  state_dict = step_states view.aggregate_fns value view.state_dict;
}

-- `pop` of the first field of that name, if there is one.
unfoldable pub remove_field : Text → List Text → List Text
remove_field field [] = []
remove_field field (value ∷ fields) =
    let rest = remove_field field fields in if value == field then fields else value ∷ rest

unfoldable pub update_display_field : AggregateView → Text → Bool → AggregateView
unfolding remove_field
update_display_field view field true = record view {
  display_field =
      if contains field view.display_field
      then view.display_field
      else view.display_field ++ field ∷ [];
}
update_display_field view field false = record view {
  display_field = remove_field field view.display_field;
}

abbrev pub sum_key : Text
sum_key = b's' ∷ b'u' ∷ b'm' ∷ []

abbrev pub count_key : Text
count_key = b'c' ∷ b'o' ∷ b'u' ∷ b'n' ∷ b't' ∷ []

abbrev pub min_key : Text
min_key = b'm' ∷ b'i' ∷ b'n' ∷ []

abbrev pub max_key : Text
max_key = b'm' ∷ b'a' ∷ b'x' ∷ []

abbrev pub mean_key : Text
mean_key = b'm' ∷ b'e' ∷ b'a' ∷ b'n' ∷ []

-- `state or 0`
abbrev pub or_zero : Option ℕ → ℕ
or_zero none = 0
or_zero (some n) = n

unfoldable pub sum_fn : AggregateFn
sum_fn state value = or_zero state + value

unfoldable pub count_fn : AggregateFn
count_fn state value = or_zero state + 1

unfoldable pub min_fn : AggregateFn
min_fn none value = value
min_fn (some state) value = min state value

unfoldable pub max_fn : AggregateFn
max_fn none value = value
max_fn (some state) value = max state value

unfoldable pub get_mean_value : State2val
unfolding get
get_mean_value states state = elim (get states count_key) [
  | none ↦ nothing
  | some count_val ↦
      if count_val == 0 then nothing else quotient (or_zero (get states sum_key)) count_val
]

-- The methods `sum`, `count`, `min`, `max` and `mean`; the first two take `display`.
pub data Method : Type 0 where
  sum : Bool → Method
  count : Bool → Method
  minimum : Method
  maximum : Method
  mean : Method

unfoldable pub apply_method : AggregateView → Method → AggregateView
unfolding add_aggregate_fn update_display_field get_mean_value
apply_method view (sum display) = add_aggregate_fn view sum_key sum_fn display
apply_method view (count display) = add_aggregate_fn view count_key count_fn display
apply_method view minimum = add_aggregate_fn view min_key min_fn true
apply_method view maximum = add_aggregate_fn view max_key max_fn true
apply_method view mean =
    let counted =
      add_aggregate_fn (add_aggregate_fn view sum_key sum_fn false) count_key count_fn false in
    update_display_field
      (record counted { state2val_dict = set counted.state2val_dict mean_key get_mean_value })
      mean_key true

abbrev pub reading_of : Option ℕ → Reading
reading_of none = nothing
reading_of (some n) = number n

-- The value of one field.
unfoldable pub field_value : AggregateView → Text → Reading
unfolding get
field_value view field = elim (get view.state2val_dict field) [
  | none ↦ reading_of (get view.state_dict field)
  | some state2val ↦ state2val view.state_dict (get view.state_dict field)
]

unfoldable pub result_of : AggregateView → List Text → Dict Text Reading → Dict Text Reading
unfolding field_value set
result_of view [] result = result
result_of view (field ∷ fields) result =
    result_of view fields (set result field (field_value view field))

unfoldable pub get_result : AggregateView → Dict Text Reading
unfolding result_of
get_result view = result_of view view.display_field []
