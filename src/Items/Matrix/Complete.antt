-- ===== src/Items/Matrix/Complete.antt =====
-- What a join leaves of the matrix and of the joined items.
use smartlibs.Prelude.{
  ℕ, List, [], ◌∷◌, map, Bool, Option, none, some, Comparable, ◌==◌, if◌then◌else◌, Eq-nat,
}
use mathlib.Core.Option
use smartlibs.Text.{Text}
use smartlibs.Dict.{Dict}
use smartlibs.Items.Matrix.{Row, ItemMatrix, ColumnName}
use smartlibs.Items.Matrix.Join.{match_row}
use smartlibs.Items.Matrix.Rows.{put}

module _ {A Key Ident : Type 0} ⦃e : Comparable Ident⦄ (dict_find : A → Key → Ident) where
  -- The last item with an id.
  abbrev pub last_with : Key → Ident → List A → Option A
  last_with id_key id [] = none
  last_with id_key id (item ∷ items) =
      let rest = last_with id_key id items in
      elim rest [
        | some found ↦ some found
        | none ↦ if dict_find item id_key == id then some item else none
      ]

module _ {A Key Ident : Type 0} ⦃e : Comparable Ident⦄ (dict_find : A → Key → Ident)
    (truthy : A → Bool) (targets : Dict Ident A) (id_key : Key) (id_keys : Dict ℕ Key)
    (columns : List ℕ) (n : ℕ) where
  abbrev found_of : Row A → Option (Ident × A)
  found_of row = match_row dict_find truthy targets id_key id_keys row columns

  abbrev filled : List (Row A) → List (Row A)
  filled rows = map (λ row. put row n (Option.map (λ p. p.1) (found_of row))) rows

  abbrev matched : List (Row A) → List Ident
  matched [] = []
  matched (row ∷ rows) =
      let rest = matched rows in elim (found_of row) [ none ↦ rest | some p ↦ p.0 ∷ rest ]

abbrev pub table : {A : Type 0} → List ColumnName → List (Row A) → ItemMatrix A
table names rs = record { column_names = some names; rows = rs }
