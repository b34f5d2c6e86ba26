-- ===== src/Store/Samples.antt =====
-- A store with one value and one nested dictionary.
use smartlibs.Prelude.{nat_eq, ◌==◌, ◌&&◌, Eq-nat, Eq-list, ℕ, [], ◌∷◌, ◌≡◌, refl, true, false}
use smartlibs.Text.{Text}
use smartlibs.Store.Registry.{object_of}
use smartlibs.Store.Registry.Objects.{ask_all, new_store, object_of-object_of}
use smartlibs.Nested.{null, leaf, dict, end, entry, read, write}
use smartlibs.Store.{ContextState, get, set, find_op, find_in, sub_obj}
use smartlibs.Store.Laws.{get-set}

abbrev a : Text
a = b'a' ∷ []

abbrev b : Text
b = b'b' ∷ []

abbrev c : Text
c = b'c' ∷ []

-- {'a': 1, 'b': {'c': 2}}
abbrev plain : ContextState ℕ
plain = record {
  state = entry a (leaf 1) (entry b (dict (entry c (leaf 2) end)) end);
  readonly = false;
  shared = false;
}

abbrev frozen : ContextState ℕ
frozen = record plain { readonly = true; shared = true }

written :
    (set plain (b ∷ a ∷ []) (leaf 3)).0.state
    ≡ entry a (leaf 1) (entry b (dict (entry c (leaf 2) (entry a (leaf 3) end))) end)
unfolding set find_op find_in sub_obj read write
written = refl

-- One key is written though the state is read-only.
frozen_write : get (set frozen (a ∷ []) (leaf 9)).0 (a ∷ []) null ≡ leaf 9
unfolding set get find_op read write
frozen_write = refl

get-set_example :
    ((set plain (b ∷ a ∷ []) (leaf 3)).1 ≡ true)
    × (get (set plain (b ∷ a ∷ []) (leaf 3)).0 (b ∷ a ∷ []) null ≡ leaf 3)
    × (get (set plain (b ∷ a ∷ []) (leaf 3)).0 (b ∷ c ∷ []) null ≡ get plain (b ∷ c ∷ []) null)
unfolding read
get-set_example = get-set plain b (a ∷ []) (leaf 3) null refl refl b (c ∷ []) refl

-- The list `a` is made again after the state `a`, and is the list that it was.
objects_example :
    let s = ask_all (new_store {V = ℕ}) [] in
    let first = object_of s 1 a in
    ((object_of (ask_all first.0 ((0, a) ∷ [])) 1 a).1 == first.1) ≡ (nat_eq 1 1 && a == a)
objects_example = object_of-object_of ℕ [] ((0, a) ∷ []) 1 a 1 a
