-- ===== src/Text/Defs.antt =====
-- The operations on texts.
use smartlibs.Prelude.{
  ℕ, List, [], ◌∷◌, ◌++◌, Bool, true, not, ◌&&◌, Option, none, some, ◌==◌, if◌then◌else◌, Eq-nat,
  is_empty, select,
}

abbrev pub Text : Type 0
Text = List ℕ

abbrev pub cons_head : ℕ → List Text → List Text
cons_head c [] = (c ∷ []) ∷ []
cons_head c (p ∷ ps) = (c ∷ p) ∷ ps

-- `text.split(c)`
unfoldable pub split_on : ℕ → Text → List Text
split_on c [] = [] ∷ []
split_on c (x ∷ t) = let rest = split_on c t in if x == c then [] ∷ rest else cons_head x rest

-- `c.join(parts)`
unfoldable pub join : ℕ → List Text → Text
join c [] = []
join c (p ∷ []) = p
join c (p ∷ q ∷ ps) = p ++ (c ∷ join c (q ∷ ps))

-- `text.split(c, 1)`: what stands before and behind the first `c`.
unfoldable pub split_once : ℕ → Text → Option (Text × Text)
split_once c [] = none
split_once c (x ∷ t) =
    let rest = split_once c t in
    if x == c then some ([], t) else elim rest [ none ↦ none | some (a, b) ↦ some (x ∷ a, b) ]

-- `text.rsplit(c, 1)`: what stands before and behind the last `c`.
unfoldable pub rsplit_once : ℕ → Text → Option (Text × Text)
rsplit_once c [] = none
rsplit_once c (x ∷ t) = elim (rsplit_once c t) [
  | none ↦ if x == c then some ([], t) else none
  | some (a, b) ↦ some (x ∷ a, b)
]

-- `filter(None, parts)`
abbrev pub non_empty : List Text → List Text
non_empty parts = select (λ p. not (is_empty p)) parts

-- `text.startswith(prefix)`
unfoldable pub starts_with : Text → Text → Bool
starts_with prefix [] = is_empty prefix
starts_with [] (x ∷ t) = true
starts_with (c ∷ cs) (x ∷ t) = c == x && starts_with cs t
