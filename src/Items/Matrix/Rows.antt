-- ===== src/Items/Matrix/Rows.antt =====
-- The rows of a join: writes stay in range, other columns are kept, and no target is lost.
use smartlibs.Prelude.{
  ℕ, zero, suc, ◌-◌, ◌<◌, ◌≤◌, List, [], ◌∷◌, ◌++◌, ◌≡◌, ◌≢◌, refl, ap, ◌⊎◌, inl, inr, map, Option,
  none, some, arith, length, replicate, length-append, Eq-nat,
}
use mathlib.Core.Option
use smartlibs.Items.Matrix.{Row, cell, assign, widen}

abbrev pub Among : {X : Type 0} → X → List X → Type 0
Among x [] = ⊥
Among x (y ∷ ys) = (x ≡ y) ⊎ Among x ys

length-replicate : {X : Type 0} (k : ℕ) (x : X) → length (replicate k x) ≡ k
length-replicate zero x = refl
length-replicate (suc k) x = omega (arith, length-replicate k x)

module _ {X : Type 0} where
  pub Among-left : (x : X) (xs ys : List X) → Among x xs → Among x (xs ++ ys)
  Among-left x [] ys h = absurd h
  Among-left x (y ∷ xs) ys (inl h) = inl h
  Among-left x (y ∷ xs) ys (inr h) = inr (Among-left x xs ys h)

  pub Among-right : (x : X) (xs ys : List X) → Among x ys → Among x (xs ++ ys)
  Among-right x [] ys h = h
  Among-right x (y ∷ xs) ys h = inr (Among-right x xs ys h)

module _ {A : Type 0} where
  abbrev pub column : List (Row A) → ℕ → List (Option A)
  column rows i = map (λ row. cell row i) rows

  pub column-append :
      (xs ys : List (Row A)) (i : ℕ) → column (xs ++ ys) i ≡ column xs i ++ column ys i
  column-append [] ys i = refl
  column-append (x ∷ xs) ys i = ap (λ l. cell x i ∷ l) (column-append xs ys i)

  cell-replicate : (k i : ℕ) → cell (replicate {A = Option A} k none) i ≡ none
  unfolding cell
  cell-replicate zero i = refl
  cell-replicate (suc k) zero = refl
  cell-replicate (suc k) (suc i) = cell-replicate k i

  cell-padded : (row : Row A) (k i : ℕ) → cell (row ++ replicate k none) i ≡ cell row i
  unfolding cell
  cell-padded [] k i = cell-replicate k i
  cell-padded (x ∷ row) k zero = refl
  cell-padded (x ∷ row) k (suc i) = cell-padded row k i

  pub cell-widen : (size : ℕ) (row : Row A) (i : ℕ) → cell (widen size row) i ≡ cell row i
  unfolding widen
  cell-widen size row i = ground (arith, cell-padded row (size - length row) i)

  pub length-widen : (size : ℕ) (row : Row A) → size ≤ length (widen size row)
  unfolding widen
  length-widen size row = ground (
    arith,
    length-append row (replicate (size - length row) none),
    length-replicate {X = Option A} (size - length row) none,
  )

  -- The row that an assignment in range leaves.
  abbrev pub put : Row A → ℕ → Option A → Row A
  put [] i x = []
  put (y ∷ row) zero x = x ∷ row
  put (y ∷ row) (suc i) x = y ∷ put row i x

  pub assign-put :
      (row : Row A) (i : ℕ) (x : Option A) → i < length row → assign row i x ≡ some (put row i x)
  unfolding assign
  assign-put [] i x h = absurd (omega arith)
  assign-put (y ∷ row) zero x h = refl
  assign-put (y ∷ row) (suc i) x h = ap (Option.map (λ l. y ∷ l)) (assign-put row i x (omega arith))

  pub cell-put : (row : Row A) (i : ℕ) (x : Option A) → i < length row → cell (put row i x) i ≡ x
  unfolding cell
  cell-put [] i x h = absurd (omega arith)
  cell-put (y ∷ row) zero x h = refl
  cell-put (y ∷ row) (suc i) x h = cell-put row i x (omega arith)

  pub put_other :
      (row : Row A) (i : ℕ) (x : Option A) (j : ℕ) → i ≢ j → cell (put row i x) j ≡ cell row j
  unfolding cell
  put_other [] i x j ne = refl
  put_other (y ∷ row) zero x zero ne = absurd (ne refl)
  put_other (y ∷ row) zero x (suc j) ne = refl
  put_other (y ∷ row) (suc i) x zero ne = refl
  put_other (y ∷ row) (suc i) x (suc j) ne = put_other row i x j (λ same. ne (ap suc same))

  pub new_row_cell : (n : ℕ) (item : A) → cell (replicate n none ++ some item ∷ []) n ≡ some item
  unfolding cell
  new_row_cell zero item = refl
  new_row_cell (suc n) item = new_row_cell n item

  pub new_row_others :
      (n : ℕ) (item : A) (j : ℕ) → n ≢ j → cell (replicate n none ++ some item ∷ []) j ≡ none
  unfolding cell
  new_row_others zero item zero ne = absurd (ne refl)
  new_row_others zero item (suc j) ne = refl
  new_row_others (suc n) item zero ne = refl
  new_row_others (suc n) item (suc j) ne = new_row_others n item j (λ same. ne (ap suc same))
