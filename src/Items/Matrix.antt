-- ===== src/Items/Matrix.antt =====
-- smart/evals/core/item.py: `ItemMatrix`, a table whose rows may be shorter than its list of columns.
-- A cell that holds Python's None is `none`. What `dict_find` reads of an item and whether an item
-- counts as true are arguments; a column index below zero is not modelled.
pub mod Join
pub mod Rows
pub mod Complete
use smartlibs.Prelude.{
  ℕ, zero, suc, ◌-◌, List, [], ◌∷◌, ◌++◌, map, Bool, true, false, not, Option, none, some,
  Comparable, ◌==◌, if◌then◌else◌, length, replicate, ltb, contains, is_empty, Eq-nat, Eq-list,
}
use mathlib.Core.Option
use smartlibs.Text.{Text}
use smartlibs.Dict.{Dict, get, set}

-- A name that the caller gave, the number that `add_column` takes without one, or `from_list`'s None.
pub data ColumnName : Type 0 where
  named : Text → ColumnName
  numbered : ℕ → ColumnName
  unnamed : ColumnName

-- What names a column in a call.
pub data ColumnRef : Type 0 where
  at : ℕ → ColumnRef
  by_name : Text → ColumnRef

abbrev pub Row : Type 0 → Type 0
Row A = List (Option A)

-- `column_names` is none when a matrix is made from no rows and no names.
pub record ItemMatrix (A : Type 0) : Type 0 where
  pub column_names : Option (List ColumnName)
  pub rows : List (Row A)

unfoldable pub range_from : ℕ → ℕ → List ℕ
range_from i zero = []
range_from i (suc n) = i ∷ range_from (suc i) n

unfoldable pub index_of : List ColumnName → Text → Option ℕ
index_of [] name = none
index_of (named t ∷ names) name =
    let rest = index_of names name in if t == name then some 0 else Option.map suc rest
index_of (_ ∷ names) name = Option.map suc (index_of names name)

-- `get_column_idx`; where no column has the name, the name is read as a number.
unfoldable pub get_column_idx : (Text → Option ℕ) → List ColumnName → ColumnRef → Option ℕ
unfolding index_of
get_column_idx safe_parse_int names (at i) = some i
get_column_idx safe_parse_int names (by_name t) = elim (index_of names t) [
  | none ↦ safe_parse_int t
  | some i ↦ some i
]

abbrev pub column_name_at : Option Text → ℕ → ColumnName
column_name_at none i = numbered i
column_name_at (some t) i = named t

module _ {A : Type 0} where
  -- `row[i] if len(row) > i else None`
  unfoldable pub cell : Row A → ℕ → Option A
  cell [] i = none
  cell (x ∷ row) zero = x
  cell (x ∷ row) (suc i) = cell row i

  -- `row[i] = x`, which raises IndexError out of range.
  unfoldable pub assign : Row A → ℕ → Option A → Option (Row A)
  assign [] i x = none
  assign (y ∷ row) zero x = some (x ∷ row)
  assign (y ∷ row) (suc i) x = Option.map (λ r. y ∷ r) (assign row i x)

  unfoldable pub new_matrix : List (Row A) → Option (List ColumnName) → ItemMatrix A
  unfolding range_from
  new_matrix [] (some (n ∷ names)) = record { column_names = some (n ∷ names); rows = [] }
  new_matrix [] names = record { column_names = names; rows = [] }
  new_matrix (row ∷ rs) (some (n ∷ names)) = record {
    column_names = some (n ∷ names);
    rows = row ∷ rs;
  }
  new_matrix (row ∷ rs) _ = record {
    column_names = some (map numbered (range_from 0 (length row)));
    rows = row ∷ rs;
  }

  unfoldable pub from_list : List A → Option Text → ItemMatrix A
  from_list items none = record {
    column_names = some (unnamed ∷ []);
    rows = map (λ item. some item ∷ []) items;
  }
  from_list items (some t) = record {
    column_names = some (named t ∷ []);
    rows = map (λ item. some item ∷ []) items;
  }

  unfoldable pub column_data : ItemMatrix A → ℕ → List (Option A)
  unfolding cell
  column_data m i = map (λ row. cell row i) m.rows

  unfoldable pub widen : ℕ → Row A → Row A
  widen size row = if ltb (length row) size then row ++ replicate (size - length row) none else row

  -- `add_column` and the index that it returns; none is the TypeError of a matrix without names.
  unfoldable pub add_column : ItemMatrix A → Option Text → Option (ItemMatrix A × ℕ)
  unfolding widen
  add_column m name = elim m.column_names [
    | none ↦ none
    | some names ↦ some (
      record {
        column_names = some (names ++ column_name_at name (length names) ∷ []);
        rows = map (widen (suc (length names))) m.rows;
      },
      length names,
    )
  ]
