-- ===== src/Labels/Metrics.antt =====
-- What the metrics of measured items are.
use Prim.Native.Nat.{max}
use smartlibs.Prelude.{
  ℕ, suc, ◌+◌, ◌*◌, ◌≤◌, ◌<◌, List, [], ◌∷◌, ◌≡◌, refl, ap, map, Bool, true, some, arith,
  if◌then◌else◌, length,
}
use smartlibs.Labels.{
  Measure, tp, tn, fp, fn, Matcher, measure_group, Counts, no_counts, count_one, count_item,
  count_items, Ratio, Scores, calc_metrics_from_counter, calc_metrics_from_items, compare_fn,
  is_negative_label,
}

-- What an item gets: each key that `measure_group` yields is true.
abbrev pub evaluated : {L : Type 0} → Matcher L → L × L → List (Measure × Bool)
evaluated m (golden, pred) = map (λ key. (key, true)) (measure_group m golden pred)

abbrev pub IsProper : Ratio → Type 0
IsProper (n, d) = (n ≤ d) × (0 < d)

-- The scores of some counts for `suc n` items.
abbrev scores_of : Counts → ℕ → Scores
scores_of c n = record {
  accuracy = (c.tps + c.tns, suc n);
  precision = (c.tps, max (c.tps + c.fps) 1);
  recall = (c.tps, max (c.tps + c.fns) 1);
  f1 = (2 * c.tps, max (2 * c.tps + c.fps + c.fns) 1);
}

calc_some : (c : Counts) (n : ℕ) → calc_metrics_from_counter c (some (suc n)) ≡ some (scores_of c n)
unfolding calc_metrics_from_counter
calc_some c n = ground arith

module _ {L : Type 0} (m : Matcher L) where
  -- The prediction is right: the same label, or no label where there is none.
  abbrev pub right : L × L → Bool
  right (golden, pred) =
      if is_negative_label m pred then is_negative_label m golden else compare_fn m golden pred

  abbrev pub count_right : List (L × L) → ℕ
  count_right [] = 0
  count_right (p ∷ ps) = let rest = count_right ps in if right p then suc rest else rest

  counted :
      (ps : List (L × L)) (c : Counts)
      → let d = count_items (map (evaluated m) ps) c in
        (d.tps + d.tns ≡ c.tps + c.tns + count_right ps)
        × (d.tps + d.tns + d.fps + d.fns ≡ c.tps + c.tns + c.fps + c.fns + length ps)
  unfolding count_items count_item count_one measure_group
  counted [] c = (omega arith, omega arith)
  counted ((golden, pred) ∷ ps) c = ground (
    arith,
    counted ps (count_one c tp),
    counted ps (count_one c tn),
    counted ps (count_one c fp),
    counted ps (count_one c fn),
  )

  length-evaluated : (ps : List (L × L)) → length (map (evaluated m) ps) ≡ length ps
  length-evaluated [] = refl
  length-evaluated (p ∷ ps) = ap suc (length-evaluated ps)

  -- The metrics of items that were measured by a matcher: the accuracy is the number of right
  -- predictions over the number of items, and every ratio is one of a part to a whole that is not zero.
  pub calc_metrics_from_items-right :
      (p : L × L) (ps : List (L × L))
      → (s : Scores) × (calc_metrics_from_items (map (evaluated m) (p ∷ ps)) ≡ some s)
        × (s.accuracy ≡ (count_right (p ∷ ps), suc (length ps)))
        × IsProper s.accuracy
        × IsProper s.precision
        × IsProper s.recall
        × IsProper s.f1
  unfolding calc_metrics_from_items calc_metrics_from_counter
  calc_metrics_from_items-right p ps =
      let c = count_items (map (evaluated m) (p ∷ ps)) no_counts in
      let h = counted (p ∷ ps) no_counts in
      let size = length-evaluated ps in
      (
        scores_of c (length ps),
        rw size (calc_some c (length ps)),
        ap (λ n. (n, suc (length ps))) (omega (arith, h.0)),
        (omega (arith, h.0, h.1), omega arith),
        (omega arith, omega arith),
        (omega arith, omega arith),
        (omega arith, omega arith),
      )
