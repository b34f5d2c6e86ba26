-- ===== src/Nested.antt =====
-- Nested dictionaries: values that are None, a plain value, or a dictionary of values in the order of
-- insertion. Stores and configurations are made of them.
pub mod Merge
pub mod Access
use smartlibs.Prelude.{
  ◌≡◌, Bool, true, false, Option, none, some, ◌==◌, arith, if◌then◌else◌, list_eq_iff, ==_refl,
  Eq-nat, Eq-list,
}
use smartlibs.Text.{Text}

mutual
  pub data Tree (V : Type 0) : Type 0 where
    null : Tree V
    leaf : V → Tree V
    dict : Branches V → Tree V

  pub data Branches (V : Type 0) : Type 0 where
    end : Branches V
    entry : Text → Tree V → Branches V → Branches V

module _ {V : Type 0} where
  unfoldable pub read : Branches V → Text → Option (Tree V)
  read end key = none
  read (entry i w obj) key = let rest = read obj key in if i == key then some w else rest

  unfoldable pub write : Branches V → Text → Tree V → Branches V
  write end key v = entry key v end
  write (entry i w obj) key v =
      let rest = write obj key v in if i == key then entry i v obj else entry i w rest

  unfoldable pub remove : Branches V → Text → Branches V
  remove end key = end
  remove (entry i w obj) key =
      let rest = remove obj key in if i == key then rest else entry i w rest

  -- Python's `key in obj`
  unfoldable pub holds : Branches V → Text → Bool
  unfolding read
  holds obj key = elim (read obj key) [ none ↦ false | some v ↦ true ]

  pub read-write :
      (obj : Branches V) (k : Text) (v : Tree V) (j : Text)
      → read (write obj k v) j ≡ (if k == j then some v else read obj j)
  unfolding read write
  read-write end k v j = ground arith
  read-write (entry i w obj) k v j =
      ground (arith, list_eq_iff k j, list_eq_iff i k, list_eq_iff i j, read-write obj k v j)

  pub read-remove :
      (obj : Branches V) (k j : Text)
      → read (remove obj k) j ≡ (if k == j then none else read obj j)
  unfolding read remove
  read-remove end k j = ground arith
  read-remove (entry i w obj) k j =
      ground (arith, list_eq_iff k j, list_eq_iff i k, list_eq_iff i j, read-remove obj k j)

  -- To write back what was read changes nothing.
  pub write-same :
      (obj : Branches V) (k : Text) (v : Tree V) → read obj k ≡ some v → write obj k v ≡ obj
  unfolding read write
  write-same end k v h = cc
  write-same (entry i w obj) k v h = ground (arith, write-same obj k v)

  pub read-write-at : (obj : Branches V) (k : Text) (v : Tree V) → read (write obj k v) k ≡ some v
  read-write-at obj k v = ground (arith, read-write obj k v k, ==_refl k)

  -- The same key again, or another.
  pub read-write-other :
      (obj : Branches V) (k : Text) (v : Tree V) (j : Text)
      → (k == j) ≡ false
      → read (write obj k v) j ≡ read obj j
  read-write-other obj k v j h = ground (arith, read-write obj k v j, h)
