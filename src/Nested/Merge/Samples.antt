-- ===== src/Nested/Merge/Samples.antt =====
-- Two small configurations; 0 does not count as true.
use smartlibs.Prelude.{ℕ, [], ◌∷◌, ◌≡◌, refl, Bool, some, ltb}
use smartlibs.Text.{Text}
use smartlibs.Nested.{leaf, dict, Branches, end, entry, read, write}
use smartlibs.Nested.Merge.{truthy, merge_items, deep_merge, merge-override}
use smartlibs.Store.Paths.{read_path}

abbrev a : Text
a = b'a' ∷ []

abbrev b : Text
b = b'b' ∷ []

abbrev nonzero : ℕ → Bool
nonzero n = ltb 0 n

-- {'a': {'b': 1}, 'b': 3}
abbrev base : Branches ℕ
base = entry a (dict (entry b (leaf 1) end)) (entry b (leaf 3) end)

-- {'a': {'b': 2}, 'b': 0}
abbrev changes : Branches ℕ
changes = entry a (dict (entry b (leaf 2) end)) (entry b (leaf 0) end)

override_example : read_path (merge_items nonzero base changes) a (b ∷ []) ≡ some (leaf 2)
unfolding read
override_example =
    merge-override nonzero base changes a (b ∷ []) 2 ((refl, (refl, tt)), (refl, tt)) refl refl

kept : read (merge_items nonzero base changes) b ≡ some (leaf 3)
unfolding read write truthy deep_merge
kept = refl
