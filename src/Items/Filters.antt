-- ===== src/Items/Filters.antt =====
-- How the filters of an item list are related.
use smartlibs.Prelude.{
  ◌+◌, List, [], ◌∷◌, ◌≡◌, refl, ap, ◌∙◌, map, Bool, not, all, any, length, arith,
}
use smartlibs.Items.{filter, filter_not, filter_all, filter_any}

module _ {A : Type 0} where
  -- One filter after the other.
  abbrev pub filter_each : List (A → Bool) → List A → List A
  filter_each [] values = values
  filter_each (fn ∷ fns) values = filter_each fns (filter fn values)

  abbrev pub negated : List (A → Bool) → List (A → Bool)
  negated fns = map (λ fn item. not (fn item)) fns

  filter_all-cons :
      (fn : A → Bool) (fns : List (A → Bool)) (values : List A)
      → filter_all (fn ∷ fns) values ≡ filter_all fns (filter fn values)
  unfolding filter_all filter
  filter_all-cons fn fns [] = refl
  filter_all-cons fn fns (item ∷ values) = ground (arith, filter_all-cons fn fns values)

  filter_all-nil : (values : List A) → filter_all [] values ≡ values
  unfolding filter_all
  filter_all-nil [] = refl
  filter_all-nil (item ∷ values) = ap (λ l. item ∷ l) (filter_all-nil values)

  filter_all-each :
      (fns : List (A → Bool)) (values : List A) → filter_all fns values ≡ filter_each fns values
  filter_all-each [] values = filter_all-nil values
  filter_all-each (fn ∷ fns) values =
      filter_all-cons fn fns values ∙ filter_all-each fns (filter fn values)

  not-any :
      (fns : List (A → Bool)) (item : A)
      → all (λ fn. fn item) (negated fns) ≡ not (any (λ fn. fn item) fns)
  not-any [] item = refl
  not-any (fn ∷ fns) item = ground (arith, not-any fns item)

  filter_all-negated :
      (fns : List (A → Bool)) (values : List A)
      → filter_all (negated fns) values ≡ filter_not (λ item. any (λ fn. fn item) fns) values
  unfolding filter_all filter_not
  filter_all-negated fns [] = refl
  filter_all-negated fns (item ∷ values) =
      ground (arith, not-any fns item, filter_all-negated fns values)

  length-filters :
      (fn : A → Bool) (values : List A)
      → length (filter fn values) + length (filter_not fn values) ≡ length values
  unfolding filter filter_not
  length-filters fn [] = omega arith
  length-filters fn (item ∷ values) = ground (arith, length-filters fn values)

  any-filter :
      (fns : List (A → Bool)) (values : List A)
      → filter_any fns values ≡ filter (λ item. any (λ fn. fn item) fns) values
  unfolding filter_any filter
  any-filter fns values = refl

  -- To filter by all of some tests is to filter by one after the other; the items that fail all of
  -- them are those that `filter_any` leaves out, and together with its items they are as many as the
  -- items of the list.
  pub filter_all-filter_any :
      (fns : List (A → Bool)) (values : List A)
      → (filter_all fns values ≡ filter_each fns values)
        × (filter_all (negated fns) values ≡ filter_not (λ item. any (λ fn. fn item) fns) values)
        × (length (filter_any fns values) + length (filter_all (negated fns) values)
            ≡ length values)
  filter_all-filter_any fns values = (
    filter_all-each fns values,
    filter_all-negated fns values,
    rw (any-filter fns values, filter_all-negated fns values)
        (length-filters (λ item. any (λ fn. fn item) fns) values),
  )
