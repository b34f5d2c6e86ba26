-- ===== src/Dag/Sort/Places.antt =====
-- The places of the keys of a list, and the cycles among its keys.
use smartlibs.Prelude.{
  ℕ, zero, suc, ◌+◌, ◌<◌, List, [], ◌∷◌, ◌++◌, ◌≡◌, ap, true, some, Comparable, ◌==◌, Eq-nat, arith,
  contains, Bool-cases, inl, inr, ◌⊎◌, get_elem?, length,
}
use smartlibs.Dict.{Dict, get, set, get-set}
use smartlibs.Dag.{has_pair}
use smartlibs.Dag.Sort.{index_keys}

module _ {K : Type 0} ⦃e : Comparable K⦄ where
  -- The list of keys `c` goes from each key to one that comes before it.
  abbrev pub LinkedNames : List (K × K) → List K → Type 0
  LinkedNames s [] = Unit
  LinkedNames s (a ∷ []) = Unit
  LinkedNames s (a ∷ b ∷ c) = (has_pair s b a ≡ true) × LinkedNames s (b ∷ c)

  -- It comes back to a key that it has met.
  pub record IsNamedCycle (s : List (K × K)) (names : List K) : Type 0 where
    pub front : List K
    pub last : K
    pub parts : names ≡ front ++ last ∷ []
    pub linked : LinkedNames s names
    pub closed : contains last front ≡ true

module _ {K V : Type 0} ⦃e : Comparable K⦄ where
  -- `p` is found at place `j`, counted from `i`.
  pub record Indexed (i : ℕ) (l : List (K × V)) (p : K) (j : ℕ) : Type 0 where
    pub place : ℕ
    pub value : V
    pub counted : j ≡ i + place
    pub there : get_elem? l place ≡ some (p, value)

  pub index_keys-Indexed :
      (i : ℕ) (l : List (K × V)) (m : Dict K ℕ) (p : K) (j : ℕ)
      → get (index_keys i l m) p ≡ some j
      → Indexed i l p j ⊎ (get m p ≡ some j)
  unfolding index_keys
  index_keys-Indexed i [] m p j h = inr h
  index_keys-Indexed i ((k, v) ∷ l) m p j h =
      elim (index_keys-Indexed (i + 1) l (set m k i) p j h) [
        | inl r ↦ inl record {
          place = suc r.place;
          value = r.value;
          counted = omega (arith, r.counted);
          there = r.there;
        }
        | inr old ↦ elim (Bool-cases (k == p)) [
          | inl same ↦ inl record {
            place = 0;
            value = v;
            counted = ground (arith, old, same, get-set m k p i);
            there = ap (λ t. some (t, v)) ((e.is_same_iff k p).0 same);
          }
          | inr other ↦ inr (ground (arith, old, other, get-set m k p i))
        ]
      ]

  pub get_elem?-lt-length :
      (l : List (K × V)) (j : ℕ) (x : K × V) → get_elem? l j ≡ some x → j < length l
  get_elem?-lt-length [] j x h = cc
  get_elem?-lt-length (y ∷ l) zero x h = omega arith
  get_elem?-lt-length (y ∷ l) (suc j) x h = omega (arith, get_elem?-lt-length l j x h)
