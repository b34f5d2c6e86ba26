-- ===== src/GroupBy/Samples.antt =====
-- Three items in two groups.
use smartlibs.Prelude.{ℕ, List, [], ◌∷◌, ◌≡◌, refl, false, Eq-nat, Eq-list}
use smartlibs.Dict.{Dict}
use smartlibs.GroupBy.{iter_group}

-- The key 1 groups, with the default 0; the third item does not have it.
abbrev by : List (ℕ × ℕ)
by = (1, 0) ∷ []

abbrev items : List (Dict ℕ ℕ)
items = ((1, 5) ∷ (2, 7) ∷ []) ∷ ((2, 8) ∷ (1, 5) ∷ []) ∷ ((2, 9) ∷ []) ∷ []

grouped :
    iter_group false by items
    ≡ (5 ∷ [], ((2, 7) ∷ []) ∷ ((2, 8) ∷ []) ∷ []) ∷ (0 ∷ [], ((2, 9) ∷ []) ∷ []) ∷ []
unfolding iter_group
grouped = refl
