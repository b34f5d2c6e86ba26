-- ===== src/KeyPath/Samples.antt =====
-- The relative paths of the example in `resolve_key_path`.
use smartlibs.Prelude.{List, [], ◌∷◌, ◌++◌, ◌≡◌, refl, some, none}
use smartlibs.Text.{Text}
use smartlibs.KeyPath.{resolve_key_path, resolve_dotted_path}
use smartlibs.KeyPath.Relative.{relative, resolve_key_path-relative}

abbrev key : List Text
key = (b'd' ∷ []) ∷ []

abbrev up : List Text
up = (b'a' ∷ []) ∷ (b'b' ∷ []) ∷ []

abbrev down : List Text
down = (b'c' ∷ []) ∷ []

abbrev dir : Text
dir = b'a' ∷ b'.' ∷ b'b' ∷ b'.' ∷ b'c' ∷ []

-- `resolve_key_path('..d', ['a', 'b', 'c']) -> ['a', 'b', 'd']`
sibling : resolve_key_path (b'.' ∷ b'.' ∷ b'd' ∷ []) (up ++ down) ≡ some (up ++ key)
unfolding resolve_key_path
sibling = refl

-- Two dots alone: the dotted form keeps a dot at its end.
parent :
    (resolve_key_path (b'.' ∷ b'.' ∷ []) (up ++ down) ≡ some up)
    × (resolve_dotted_path dir (b'.' ∷ b'.' ∷ []) ≡ some (b'a' ∷ b'.' ∷ b'b' ∷ b'.' ∷ []))
unfolding resolve_key_path resolve_dotted_path
parent = (refl, refl)

overflow : resolve_key_path (b'.' ∷ b'.' ∷ b'.' ∷ b'.' ∷ b'.' ∷ []) (up ++ down) ≡ none
unfolding resolve_key_path
overflow = refl

relative_example : resolve_key_path (relative down key) (up ++ down) ≡ some (up ++ key)
relative_example = resolve_key_path-relative up down key refl refl
