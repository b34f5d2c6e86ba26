-- ===== src/Dag/Samples.antt =====
-- Items by their keys: three items, of which one names what comes before it and one what comes after it.
use smartlibs.Prelude.{ℕ, List, [], ◌∷◌, ◌≡◌, refl, true, false, none, some, Eq-nat, ◌<◌, arith}
use smartlibs.Dag.{Item, DagItemsTool, get_dependance_set}
use smartlibs.Dag.Sort.{sorted, has_cycle, dag_sort}
use smartlibs.Dag.Sort.Result.{SortEnds, dag_sort-SortEnds}
use smartlibs.Dag.Cycle.{dag_assert_no_cycle}
use smartlibs.Dag.Cycle.Result.{Asserts, dag_assert_no_cycle-Asserts}
use smartlibs.Dag.Items.{sort_item_dict}
use smartlibs.Dag.Items.Order.{SortedItems, sort_items-SortedItems}
use smartlibs.Dag.Declared.{declared}

abbrev tool : DagItemsTool
tool = record { prev_key_name = true; next_key_name = true }

abbrev items : List (Item ℕ)
items =
    record { key = 1; prev_keys = none; next_keys = some (3 ∷ []) }
    ∷ record { key = 2; prev_keys = some (1 ∷ []); next_keys = none }
    ∷ record { key = 3; prev_keys = some (1 ∷ 2 ∷ []); next_keys = none }
    ∷ []

abbrev pairs : List (ℕ × ℕ)
pairs = (1, 3) ∷ (1, 2) ∷ (2, 3) ∷ []

the_pairs : get_dependance_set tool items ≡ some pairs
unfolding get_dependance_set
the_pairs = refl

abbrev numbered : List (ℕ × ℕ)
numbered = (3, 30) ∷ (2, 20) ∷ (1, 10) ∷ []

dag_sort_back : dag_sort numbered pairs true ≡ sorted ((1, 10) ∷ (2, 20) ∷ (3, 30) ∷ [])
unfolding dag_sort
dag_sort_back = refl

dag_sort_cycle : dag_sort numbered ((1, 2) ∷ (2, 1) ∷ []) true ≡ has_cycle (2 ∷ 1 ∷ 2 ∷ [])
unfolding dag_sort
dag_sort_cycle = refl

dag_sort_lenient :
    dag_sort numbered ((1, 2) ∷ (2, 1) ∷ []) false ≡ sorted ((3, 30) ∷ (1, 10) ∷ (2, 20) ∷ [])
unfolding dag_sort
dag_sort_lenient = refl

SortEnds_example : SortEnds true numbered pairs (dag_sort numbered pairs true)
SortEnds_example = dag_sort-SortEnds numbered pairs true

abbrev backwards : List (Item ℕ)
backwards =
    record { key = 3; prev_keys = some (1 ∷ 2 ∷ []); next_keys = none }
    ∷ record { key = 2; prev_keys = some (1 ∷ []); next_keys = none }
    ∷ record { key = 1; prev_keys = none; next_keys = some (3 ∷ []) }
    ∷ []

sort_item_dict_back :
    sort_item_dict tool backwards true
    ≡ some (
        sorted (
          (1, record { key = 1; prev_keys = none; next_keys = some (3 ∷ []) })
          ∷ (2, record { key = 2; prev_keys = some (1 ∷ []); next_keys = none })
          ∷ (3, record { key = 3; prev_keys = some (1 ∷ 2 ∷ []); next_keys = none })
          ∷ []))
unfolding sort_item_dict
sort_item_dict_back = refl

rises : (p k : ℕ) → declared tool backwards p k ≡ true → p < k
rises p k h = ground arith

SortedItems_example : SortedItems tool backwards false
SortedItems_example = sort_items-SortedItems tool backwards false (λ k. k) refl rises

-- The key 5 is searched first, and the cycle of 1, 2 and 3 is found behind it.
abbrev behind : List (ℕ × ℕ)
behind = (1, 5) ∷ (2, 1) ∷ (3, 2) ∷ (1, 3) ∷ []

no_cycle_there : dag_assert_no_cycle pairs ≡ none
unfolding dag_assert_no_cycle
no_cycle_there = refl

cycle_behind : dag_assert_no_cycle behind ≡ some (1 ∷ 3 ∷ 2 ∷ 1 ∷ [])
unfolding dag_assert_no_cycle
cycle_behind = refl

own_cycle : dag_assert_no_cycle {K = ℕ} ((4, 4) ∷ []) ≡ some (4 ∷ 4 ∷ 4 ∷ [])
unfolding dag_assert_no_cycle
own_cycle = refl

Asserts_example : Asserts behind (dag_assert_no_cycle behind)
Asserts_example = dag_assert_no_cycle-Asserts behind
