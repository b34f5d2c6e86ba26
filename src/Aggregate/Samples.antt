-- ===== src/Aggregate/Samples.antt =====
-- A mean and a maximum of two numbers.
use smartlibs.Prelude.{[], ◌∷◌, ◌≡◌, refl, Eq-nat, Eq-list}
use smartlibs.Dict.{get, set}
use smartlibs.Aggregate.{
  new_view, mean, maximum, number, quotient, apply_method, add_aggregate_fn, update_display_field,
  add_value, step_states, sum_fn, count_fn, max_fn, get_mean_value, get_result, result_of,
  field_value, mean_key, max_key,
}
use smartlibs.Aggregate.Folds.{build, add_values}

shown :
    get_result (add_values (build new_view (maximum ∷ mean ∷ [])) (2 ∷ 5 ∷ []))
    ≡ (max_key, number 5) ∷ (mean_key, quotient 7 2) ∷ []
unfolding get set apply_method add_aggregate_fn update_display_field add_value step_states sum_fn
    count_fn max_fn get_mean_value get_result result_of field_value
shown = refl
