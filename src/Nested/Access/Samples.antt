-- ===== src/Nested/Access/Samples.antt =====
-- A value set under two keys.
use smartlibs.Prelude.{ℕ, [], ◌∷◌, ◌≡◌, refl, none, some}
use smartlibs.Text.{Text}
use smartlibs.Nested.{null, leaf, dict, Branches, end, entry, read, write}
use smartlibs.Nested.Access.{dict_safe_set, sub_dict, get_along}

abbrev a : Text
a = b'a' ∷ []

abbrev b : Text
b = b'b' ∷ []

abbrev made : Branches ℕ
made = entry a (dict (entry b (leaf 1) end)) end

set_new : dict_safe_set end a (b ∷ []) (leaf 1) ≡ some made
unfolding dict_safe_set sub_dict read write
set_new = refl

set_in_value : dict_safe_set {V = ℕ} (entry a (leaf 1) end) a (b ∷ []) (leaf 1) ≡ none
unfolding dict_safe_set sub_dict read write
set_in_value = refl

read_back : get_along (dict made) (a ∷ b ∷ []) null ≡ leaf 1
unfolding get_along read
read_back = refl
