-- ===== src/Dag/Sort/Chains.antt =====
-- Chains of items that need one another, and keys in their order.
use smartlibs.Prelude.{
  ℕ, zero, suc, ◌≤◌, ◌<◌, List, [], ◌∷◌, ◌++◌, ◌≡◌, ◌≢◌, refl, true, false, Option, some,
  Comparable, Eq-nat, Eq-list, arith, if◌then◌else◌, contains, contains-append, nat_eq_iff,
}
use smartlibs.Dict.{Dict, get}
use smartlibs.Dag.{or_empty}
use smartlibs.Dag.Sort.{SortKey, SortKeys, key_lt}

-- How many of the places below `n` are not on the chain.
abbrev pub free : List ℕ → ℕ → ℕ
free chain zero = 0
free chain (suc n) = if contains n chain then free chain n else suc (free chain n)

free-outside : (chain : List ℕ) (i n : ℕ) → n ≤ i → free (chain ++ i ∷ []) n ≡ free chain n
free-outside chain i zero h = refl
free-outside chain i (suc n) h = ground (arith, contains-append chain i n, free-outside chain i n)

pub free-append :
    (chain : List ℕ) (i n : ℕ)
    → i < n
    → contains i chain ≡ false
    → suc (free (chain ++ i ∷ []) n) ≡ free chain n
free-append chain i zero h new = absurd (omega arith)
free-append chain i (suc n) h new = ground (
  arith,
  contains-append chain i n,
  nat_eq_iff i n,
  free-append chain i n,
  free-outside chain i n,
)

module _ {K : Type 0} ⦃e : Comparable K⦄ (key_idx_map : Dict K ℕ)
    (prev_keys_at : ℕ → Option (List K)) where
  -- The item at place `j` comes before the one at `i`.
  pub record Needs (i j : ℕ) : Type 0 where
    pub key : K
    pub listed : contains key (or_empty (prev_keys_at i)) ≡ true
    pub found : get key_idx_map key ≡ some j
    pub other : j ≢ i

  -- Each needs the next one.
  abbrev pub Linked : List ℕ → Type 0
  Linked [] = Unit
  Linked (i ∷ []) = Unit
  Linked (i ∷ j ∷ l) = Needs i j × Linked (j ∷ l)

  pub Linked-append :
      (l : List ℕ) (i j : ℕ) → Linked (l ++ i ∷ []) → Needs i j → Linked ((l ++ i ∷ []) ++ j ∷ [])
  Linked-append [] i j h k = (k, tt)
  Linked-append (a ∷ []) i j h k = (h.0, (k, tt))
  Linked-append (a ∷ b ∷ l) i j h k = (h.0, Linked-append (b ∷ l) i j h.1 k)

  -- Each needs the next one, and the last is among the others.
  pub record IsCycle (c : List ℕ) : Type 0 where
    pub chain : List ℕ
    pub last : ℕ
    pub parts : c ≡ chain ++ last ∷ []
    pub linked : Linked c
    pub closed : contains last chain ≡ true

  pub record Earlier (sort_keys : SortKeys) (j : ℕ) (k : SortKey) : Type 0 where
    pub sort_key : SortKey
    pub keyed_so : get sort_keys j ≡ some sort_key
    pub smaller : key_lt sort_key k ≡ true

  -- A key comes after the keys of all that its item needs.
  abbrev pub Ordered : SortKeys → Type 0
  Ordered sort_keys =
      (i : ℕ) (k : SortKey) → get sort_keys i ≡ some k → (j : ℕ) → Needs i j → Earlier sort_keys j k
