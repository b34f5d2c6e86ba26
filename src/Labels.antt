-- ===== src/Labels.antt =====
-- smart/evals/core/label_matcher.py: the label matchers and the metrics that they count. A ratio of
-- two counts, which the code divides to a float, is kept as the pair of them.
pub mod Metrics
mod Samples
use Prim.Native.Nat.{max}
use smartlibs.Prelude.{
  ℕ, suc, ◌+◌, ◌*◌, List, [], ◌∷◌, Bool, true, false, not, ◌&&◌, Option, none, some, ◌==◌,
  if◌then◌else◌, length, Eq-nat,
}

-- `measure_keys`: true and false positives and negatives.
pub data Measure : Type 0 where
  tp tn fp fn : Measure

-- The three functions of a matcher; a matcher without a format function leaves a label as it is.
pub record Matcher (L : Type 0) : Type 0 where
  pub negative_label : L → Bool
  pub compare : L → L → Bool
  pub format_label_fn : Option (L → L)

module _ {L : Type 0} where
  unfoldable pub format_label : Matcher L → L → L
  format_label m label = elim m.format_label_fn [ none ↦ label | some f ↦ f label ]

  unfoldable pub compare_fn : Matcher L → L → L → Bool
  unfolding format_label
  compare_fn m golden pred = m.compare (format_label m golden) (format_label m pred)

  unfoldable pub is_negative_label : Matcher L → L → Bool
  is_negative_label m label = m.negative_label label

  unfoldable pub set_compare_fn : Matcher L → (L → L → Bool) → Matcher L
  set_compare_fn m f = record m { compare = f }

  unfoldable pub set_negative_label_fn : Matcher L → (L → Bool) → Matcher L
  set_negative_label_fn m f = record m { negative_label = f }

  unfoldable pub set_format_label_fn : Matcher L → (L → L) → Matcher L
  set_format_label_fn m f = record m { format_label_fn = some f }

  -- `measure_group`, which yields one key.
  unfoldable pub measure_group : Matcher L → L → L → List Measure
  unfolding is_negative_label compare_fn
  measure_group m golden pred =
      if is_negative_label m pred
      then (if is_negative_label m golden then tn ∷ [] else fn ∷ [])
      else (if compare_fn m golden pred then tp ∷ [] else fp ∷ [])

-- The counter's four entries.
pub record Counts : Type 0 where
  pub tps : ℕ
  pub tns : ℕ
  pub fps : ℕ
  pub fns : ℕ

abbrev pub no_counts : Counts
no_counts = record { tps = 0; tns = 0; fps = 0; fns = 0 }

unfoldable pub count_one : Counts → Measure → Counts
count_one c tp = record c { tps = suc c.tps }
count_one c tn = record c { tns = suc c.tns }
count_one c fp = record c { fps = suc c.fps }
count_one c fn = record c { fns = suc c.fns }

-- One item's evaluation: the keys with a true value are counted.
unfoldable pub count_item : List (Measure × Bool) → Counts → Counts
unfolding count_one
count_item [] c = c
count_item ((key, val) ∷ item_eval) c = count_item item_eval (if val then count_one c key else c)

unfoldable pub count_items : List (List (Measure × Bool)) → Counts → Counts
unfolding count_item
count_items [] c = c
count_items (item ∷ items) c = count_items items (count_item item c)

-- A numerator and a denominator.
abbrev pub Ratio : Type 0
Ratio = ℕ × ℕ

pub record Scores : Type 0 where
  pub accuracy : Ratio
  pub precision : Ratio
  pub recall : Ratio
  pub f1 : Ratio

-- `calc_metrics_from_counter`; none is the empty dictionary for no items.
unfoldable pub calc_metrics_from_counter : Counts → Option ℕ → Option Scores
calc_metrics_from_counter c num_items =
    let total : ℕ = elim num_items [ some n ↦ n | none ↦ c.tps + c.tns + c.fps + c.fns ] in
    if total == 0
    then none
    else some (record {
      accuracy = (c.tps + c.tns, total);
      precision = (c.tps, max (c.tps + c.fps) 1);
      recall = (c.tps, max (c.tps + c.fns) 1);
      f1 = (2 * c.tps, max (2 * c.tps + c.fps + c.fns) 1);
    })

unfoldable pub calc_metrics_from_items : List (List (Measure × Bool)) → Option Scores
unfolding count_items calc_metrics_from_counter
calc_metrics_from_items items =
    calc_metrics_from_counter (count_items items no_counts) (some (length items))
