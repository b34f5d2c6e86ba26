-- ===== src/Dag/Sort/Lex.antt =====
-- The order of the sort keys.
use smartlibs.Prelude.{
  ℕ, List, [], ◌∷◌, ◌++◌, ◌≡◌, refl, true, false, ◌==◌, Eq-nat, arith, if◌then◌else◌, Bool-cases,
  inl, inr, contains, list_eq_iff, Eq-list,
}
use smartlibs.Dag.Sort.{SortKey, key_lt, max_from, max_key}

-- Not after.
abbrev pub UpTo : SortKey → SortKey → Type 0
UpTo a b = key_lt b a ≡ false

UpTo-refl : (a : SortKey) → UpTo a a
unfolding key_lt
UpTo-refl [] = refl
UpTo-refl (x ∷ a) = ground (arith, UpTo-refl a)

pub UpTo-trans : (a b c : SortKey) → UpTo a b → UpTo b c → UpTo a c
unfolding key_lt
UpTo-trans [] [] [] h k = refl
UpTo-trans [] [] (z ∷ c) h k = refl
UpTo-trans [] (y ∷ b) [] h k = cc
UpTo-trans [] (y ∷ b) (z ∷ c) h k = refl
UpTo-trans (x ∷ a) [] c h k = cc
UpTo-trans (x ∷ a) (y ∷ b) [] h k = cc
UpTo-trans (x ∷ a) (y ∷ b) (z ∷ c) h k = ground (arith, UpTo-trans a b c)

pub key_lt-UpTo : (a b : SortKey) → key_lt a b ≡ true → UpTo a b
unfolding key_lt
key_lt-UpTo [] [] h = cc
key_lt-UpTo [] (y ∷ b) h = refl
key_lt-UpTo (x ∷ a) [] h = cc
key_lt-UpTo (x ∷ a) (y ∷ b) h = ground (arith, key_lt-UpTo a b)

-- A longer key comes after all that its front does not come before.
pub key_lt-append : (a b : SortKey) (i : ℕ) → UpTo a b → key_lt a (b ++ i ∷ []) ≡ true
unfolding key_lt
key_lt-append [] [] i h = refl
key_lt-append [] (y ∷ b) i h = refl
key_lt-append (x ∷ a) [] i h = cc
key_lt-append (x ∷ a) (y ∷ b) i h = ground (arith, key_lt-append a b i)

max_from-UpTo : (m : SortKey) (ks : List SortKey) → UpTo m (max_from m ks)
unfolding max_from
max_from-UpTo m [] = UpTo-refl m
max_from-UpTo m (j ∷ ks) = elim (Bool-cases (key_lt m j)) [
  | inl e ↦ rw e (UpTo-trans m j (max_from j ks) (key_lt-UpTo m j e) (max_from-UpTo j ks))
  | inr e ↦ rw e (max_from-UpTo m ks)
]

UpTo-max_from :
    (m : SortKey) (ks : List SortKey) (k : SortKey) → contains k ks ≡ true → UpTo k (max_from m ks)
unfolding max_from
UpTo-max_from m [] k h = cc
UpTo-max_from m (j ∷ ks) k h = elim (Bool-cases (k == j)) [
  | inl same ↦
      (let le : UpTo j (if key_lt m j then j else m) = ground (arith, UpTo-refl j) in
        let max_le = max_from-UpTo (if key_lt m j then j else m) ks in
        rw ((list_eq_iff k j).0 same) (UpTo-trans j _ _ le max_le))
  | inr other ↦ UpTo-max_from (if key_lt m j then j else m) ks k (ground (arith, h, other))
]

pub UpTo-max_key : (ks : List SortKey) (k : SortKey) → contains k ks ≡ true → UpTo k (max_key ks)
unfolding max_key
UpTo-max_key [] k h = cc
UpTo-max_key (j ∷ ks) k h = elim (Bool-cases (k == j)) [
  | inl same ↦ rw ((list_eq_iff k j).0 same) (max_from-UpTo j ks)
  | inr other ↦ UpTo-max_from j ks k (ground (arith, h, other))
]
