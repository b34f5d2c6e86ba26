-- ===== src/Labels/Samples.antt =====
-- Three predictions of numbers, where 0 is the label of a negative.
use smartlibs.Prelude.{ℕ, [], ◌∷◌, ◌≡◌, map, none, some, ◌==◌, Eq-nat}
use smartlibs.Labels.{Matcher, Scores, calc_metrics_from_items}
use smartlibs.Labels.Metrics.{evaluated, IsProper, count_right, calc_metrics_from_items-right}

abbrev matcher : Matcher ℕ
matcher = record { negative_label = λ n. n == 0; compare = λ a b. a == b; format_label_fn = none }

right_example :
    (s : Scores) × (calc_metrics_from_items
        (map (evaluated matcher) ((1, 1) ∷ (2, 0) ∷ (0, 0) ∷ []))
      ≡ some s)
    × (s.accuracy ≡ (count_right matcher ((1, 1) ∷ (2, 0) ∷ (0, 0) ∷ []), 3))
    × IsProper s.accuracy
    × IsProper s.precision
    × IsProper s.recall
    × IsProper s.f1
right_example = calc_metrics_from_items-right matcher (1, 1) ((2, 0) ∷ (0, 0) ∷ [])
