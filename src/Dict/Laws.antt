-- ===== src/Dict/Laws.antt =====
-- How reads of a dictionary see its writes.
use smartlibs.Prelude.{
  ◌≡◌, refl, ◌++◌, [], ◌∷◌, none, some, arith, Comparable, ◌==◌, if◌then◌else◌, contains, false,
}
use smartlibs.Dict.Defs.{Dict, get, set, del, has, keys}

module _ {ℓ κ} {K : Type ℓ} ⦃e : Comparable K⦄ {V : Type κ} where
  pub get-set :
      (m : Dict K V) (k j : K) (v : V) → get (set m k v) j ≡ (if k == j then some v else get m j)
  unfolding get set
  get-set [] k j v = ground arith
  get-set ((i, w) ∷ m) k j v =
      ground (arith, e.is_same_iff k j, e.is_same_iff i k, e.is_same_iff i j, get-set m k j v)

  pub get-del : (m : Dict K V) (k j : K) → get (del m k) j ≡ (if k == j then none else get m j)
  unfolding get del
  get-del [] k j = ground arith
  get-del ((i, w) ∷ m) k j =
      ground (arith, e.is_same_iff k j, e.is_same_iff i k, e.is_same_iff i j, get-del m k j)

  pub keys-set :
      (m : Dict K V) (k : K) (v : V)
      → keys (set m k v) ≡ (if has m k then keys m else keys m ++ k ∷ [])
  unfolding set has
  keys-set [] k v = ground arith
  keys-set ((i, w) ∷ m) k v = ground (arith, e.is_same_iff i k, keys-set m k v)

  -- A write to a new key goes to the end.
  pub set-fresh :
      (m : Dict K V) (k : K) (v : V) → contains k (keys m) ≡ false → set m k v ≡ m ++ (k, v) ∷ []
  unfolding set
  set-fresh [] k v h = refl
  set-fresh ((i, w) ∷ m) k v h =
      ground (arith, e.is_same_iff i k, e.is_same_iff k i, set-fresh m k v)

pub ruleset dict_laws = (get-set, get-del)
