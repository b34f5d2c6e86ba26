-- ===== src/Items/Samples.antt =====
-- Small lists of numbers, and a table of two columns.
use smartlibs.Prelude.{ℕ, List, [], ◌∷◌, Bool, ltb, Eq-nat}

abbrev numbers : List ℕ
numbers = 1 ∷ 4 ∷ 7 ∷ []

abbrev tests : List (ℕ → Bool)
tests = (λ n. ltb 2 n) ∷ (λ n. ltb n 6) ∷ []

abbrev names : ℕ → List ℕ
names n = n ∷ 4 ∷ []

abbrev same : ℕ → ℕ
same n = n

-- Items are numbers, and an item is its own id.
abbrev find : ℕ → ℕ → ℕ
find item key = item

abbrev truthy : ℕ → Bool
truthy item = ltb 0 item
