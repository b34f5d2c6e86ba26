-- ===== src/Aggregate/Results.antt =====
-- What `get_result` shows of the mean.
use smartlibs.Prelude.{
  ℕ, suc, ◌+◌, List, [], ◌∷◌, ◌≡◌, true, some, contains, length, Eq-nat, Eq-list,
}
use smartlibs.Text.{Text}
use smartlibs.Dict.{Dict, get}
use smartlibs.Aggregate.{
  AggregateView, Reading, nothing, quotient, sum_key, sum_fn, count_key, count_fn, mean_key,
  get_mean_value,
}

abbrev pub total : List ℕ → ℕ
total [] = 0
total (value ∷ values) = value + total values

-- The mean of some numbers, as a sum and a count.
abbrev pub mean_of : List ℕ → Reading
mean_of [] = nothing
mean_of (value ∷ values) = quotient (value + total values) (suc (length values))

-- The view computes the mean and shows it.
abbrev HasMean : AggregateView → Type 0
HasMean view =
    (get view.aggregate_fns sum_key ≡ some sum_fn)
    × (get view.aggregate_fns count_key ≡ some count_fn)
    × (get view.state2val_dict mean_key ≡ some get_mean_value)
    × (contains mean_key view.display_field ≡ true)
