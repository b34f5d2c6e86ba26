-- ===== src/Items/Matrix/Join.antt =====
-- smart/evals/core/item.py: `join_items` of `ItemMatrix`.
use smartlibs.Prelude.{
  ℕ, List, [], ◌∷◌, ◌++◌, Bool, Option, none, some, Comparable, ◌==◌, if◌then◌else◌, length,
  replicate, contains, Eq-nat, Eq-list,
}
use mathlib.Core.Option
use smartlibs.Text.{Text}
use smartlibs.Dict.{Dict, get, set}
use smartlibs.Items.Matrix.{
  ColumnName, ColumnRef, at, by_name, Row, ItemMatrix, range_from, index_of, cell, assign,
  add_column,
}

-- What a call ends with: the matrix, or an exception that leaves the matrix as it stands by then.
pub data Joined (A : Type 0) : Type 0 where
  joined : ItemMatrix A → Joined A
  raised : ItemMatrix A → Joined A

-- `match_columns.remove(i)` where `i` is in it.
unfoldable pub remove_column : ℕ → List ColumnRef → List ColumnRef
remove_column i [] = []
remove_column i (at j ∷ refs) =
    let rest = remove_column i refs in if i == j then refs else at j ∷ rest
remove_column i (by_name t ∷ refs) = by_name t ∷ remove_column i refs

-- Names become indices; none is a name that no column has.
unfoldable pub resolve_columns : List ColumnName → List ColumnRef → Option (List ℕ)
unfolding index_of
resolve_columns names [] = some []
resolve_columns names (at i ∷ refs) = Option.map (λ l. i ∷ l) (resolve_columns names refs)
resolve_columns names (by_name t ∷ refs) =
    let rest = resolve_columns names refs in
    elim (index_of names t) [ none ↦ none | some i ↦ Option.map (λ l. i ∷ l) rest ]

-- The columns to match: all that were there before, or the given ones without the new one.
unfoldable pub columns_to_match : List ColumnName → ℕ → Option (List ColumnRef) → Option (List ℕ)
unfolding range_from resolve_columns remove_column
columns_to_match names new_col_idx none = some (range_from 0 (length names))
columns_to_match names new_col_idx (some refs) =
    resolve_columns names (remove_column new_col_idx refs)

module _ {A Ident : Type 0} where
  -- One more row, and the id that it matched.
  abbrev pub add_row :
      Option (Ident × A) → Row A → List (Row A) × List Ident → List (Row A) × List Ident
  add_row none row (rows, ids) = (row ∷ rows, ids)
  add_row (some (id, item)) row (rows, ids) = (row ∷ rows, id ∷ ids)

module _ {A : Type 0} where
  -- `list(self._column_names)`
  abbrev pub names_of : ItemMatrix A → List ColumnName
  names_of m = elim m.column_names [ none ↦ [] | some names ↦ names ]

module _ {A Ident : Type 0} ⦃e : Comparable Ident⦄ where
  -- A row for every target that no row matched.
  unfoldable pub no_match_rows : Dict Ident A → List Ident → ℕ → List (Row A)
  no_match_rows [] ids new_col_idx = []
  no_match_rows ((id, item) ∷ targets) ids new_col_idx =
      let rest = no_match_rows targets ids new_col_idx in
      if contains id ids then rest else (replicate new_col_idx none ++ some item ∷ []) ∷ rest

module _ {A Key Ident : Type 0} ⦃e : Comparable Ident⦄ (dict_find : A → Key → Ident) where
  -- The items by their id, the last of those with one id.
  unfoldable pub target_items : Key → List A → Dict Ident A → Dict Ident A
  unfolding set
  target_items id_key [] d = d
  target_items id_key (item ∷ items) d =
      target_items id_key items (set d (dict_find item id_key) item)

abbrev pub id_key_of : {Key : Type 0} → Option Key → Key → Key
id_key_of none id_key = id_key
id_key_of (some k) id_key = k

module _ {A Key Ident : Type 0} ⦃e : Comparable Ident⦄ (dict_find : A → Key → Ident)
    (truthy : A → Bool) where
  -- The target of one cell.
  unfoldable pub match_cell : Dict Ident A → Key → Dict ℕ Key → Row A → ℕ → Option (Ident × A)
  unfolding get cell
  match_cell targets id_key id_keys row i = elim (cell row i) [
    | none ↦ none
    | some item ↦
        let id = dict_find item (id_key_of (get id_keys i) id_key) in
        if truthy item then Option.map (λ target. (id, target)) (get targets id) else none
  ]

  -- The target of one row: that of the first column that has one.
  unfoldable pub match_row : Dict Ident A → Key → Dict ℕ Key → Row A → List ℕ → Option (Ident × A)
  unfolding match_cell
  match_row targets id_key id_keys row [] = none
  match_row targets id_key id_keys row (i ∷ columns) =
      let rest = match_row targets id_key id_keys row columns in
      elim (match_cell targets id_key id_keys row i) [ none ↦ rest | some found ↦ some found ]

  -- All rows, and the ids that were matched; none is an IndexError.
  unfoldable pub match_rows :
      Dict Ident A
      → Key
      → Dict ℕ Key
      → List ℕ
      → ℕ
      → List (Row A)
      → Option (List (Row A) × List Ident)
  unfolding match_row assign
  match_rows targets id_key id_keys columns new_col_idx [] = some ([], [])
  match_rows targets id_key id_keys columns new_col_idx (row ∷ rows) =
      let found = match_row targets id_key id_keys row columns in
      let rest = match_rows targets id_key id_keys columns new_col_idx rows in
      elim (assign row new_col_idx (Option.map (λ p. p.1) found)) [
        | none ↦ none
        | some row2 ↦ Option.map (add_row found row2) rest
      ]

  -- The rows of `join_items`, once the columns are known.
  unfoldable pub join_rows :
      Dict Ident A → Key → Dict ℕ Key → Bool → List ℕ → ℕ → ItemMatrix A → Joined A
  unfolding match_rows no_match_rows
  join_rows targets id_key id_keys append_no_match_item columns new_col_idx m =
      elim (match_rows targets id_key id_keys columns new_col_idx m.rows) [
        | none ↦ raised m
        | some (rows, ids) ↦ joined (record m {
          rows =
              if append_no_match_item then rows ++ no_match_rows targets ids new_col_idx else rows;
        })
      ]

  unfoldable pub join_items :
      ItemMatrix A
      → List A
      → Option Text
      → Key
      → Option (List ColumnRef)
      → Dict ℕ Key
      → Bool
      → Joined A
  unfolding target_items add_column columns_to_match join_rows
  join_items m item_list column_name id_key match_columns id_keys append_no_match_item =
      elim (add_column m column_name) [
        | none ↦ raised m
        | some (m2, new_col_idx) ↦ elim (columns_to_match (names_of m) new_col_idx match_columns) [
          | none ↦ raised m2
          | some columns ↦
              join_rows (target_items dict_find id_key item_list []) id_key id_keys
                append_no_match_item columns new_col_idx m2
        ]
      ]
