-- ===== src/Dict/Defs.antt =====
-- The operations of a dictionary.
use smartlibs.Prelude.{
  List, [], ◌∷◌, Option, none, some, Comparable, ◌==◌, if◌then◌else◌, Bool, true, false,
}

abbrev pub Dict {ℓ κ} : Type ℓ → Type κ → Type (ℓ ⊔ κ)
Dict K V = List (K × V)

module _ {ℓ κ} {K : Type ℓ} {V : Type κ} where
  abbrev pub keys : Dict K V → List K
  keys [] = []
  keys ((k, v) ∷ m) = k ∷ keys m

module _ {ℓ κ} {K : Type ℓ} ⦃e : Comparable K⦄ {V : Type κ} where
  unfoldable pub get : Dict K V → K → Option V
  get [] k = none
  get ((i, w) ∷ m) k = if i == k then some w else get m k

  unfoldable pub has : Dict K V → K → Bool
  unfolding get
  has m k = elim (get m k) [ none ↦ false | some _ ↦ true ]

  unfoldable pub set : Dict K V → K → V → Dict K V
  set [] k v = (k, v) ∷ []
  set ((i, w) ∷ m) k v = if i == k then (i, v) ∷ m else (i, w) ∷ set m k v

  unfoldable pub del : Dict K V → K → Dict K V
  del [] k = []
  del ((i, w) ∷ m) k = let rest = del m k in if i == k then rest else (i, w) ∷ rest

  -- `m.update(n)`
  unfoldable pub update : Dict K V → Dict K V → Dict K V
  unfolding set
  update m [] = m
  update m ((k, v) ∷ n) = update (set m k v) n
