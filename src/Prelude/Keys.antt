-- ===== src/Prelude/Keys.antt =====
-- Types with a Boolean equality, as the keys of dictionaries and the parts of texts.
use Prim.Native.Nat.{ℕ}
use mathlib.Core.Path.{◌≡◌, refl}
use mathlib.Core.Logic.{◌↔◌, ◌≢◌}
use mathlib.Core.Bool.{Bool, true, false, ◌&&◌, ◌||◌}
use mathlib.Core.List.{List, [], ◌∷◌, ◌++◌}
use native.Mathlib.Omega.{arith}
use smartlibs.Prelude.Tests.{nat_eq, nat_eq_iff}

pub record Comparable {ℓ} (A : Type ℓ) : Type ℓ where
  pub is_same : A → A → Bool
  pub is_same_iff : (a b : A) → (is_same a b ≡ true) ↔ (a ≡ b)

infix 50 ◌==◌
abbrev pub ◌==◌ {ℓ} : {A : Type ℓ} ⦃e : Comparable A⦄ → A → A → Bool
◌==◌ ⦃e⦄ = e.is_same

instance abbrev pub Eq-nat : Comparable ℕ
Eq-nat = record { is_same = nat_eq; is_same_iff = nat_eq_iff }

module _ {ℓ} {A : Type ℓ} ⦃e : Comparable A⦄ where
  pub ==_refl : (a : A) → (a == a) ≡ true
  ==_refl a = (e.is_same_iff a a).1 refl

  pub ==_ne : (a b : A) → a ≢ b → (a == b) ≡ false
  ==_ne a b h = ground (arith, e.is_same_iff a b)

  abbrev pub list_eq : List A → List A → Bool
  list_eq [] [] = true
  list_eq (x ∷ xs) (y ∷ ys) = x == y && list_eq xs ys
  list_eq _ _ = false

  pub list_eq_iff : (xs ys : List A) → (list_eq xs ys ≡ true) ↔ (xs ≡ ys)
  list_eq_iff [] [] = ground arith
  list_eq_iff [] (y ∷ ys) = ground arith
  list_eq_iff (x ∷ xs) [] = ground arith
  list_eq_iff (x ∷ xs) (y ∷ ys) = ground (arith, e.is_same_iff x y, list_eq_iff xs ys)

  -- Python's `x in xs`
  abbrev pub contains : A → List A → Bool
  contains a [] = false
  contains a (x ∷ xs) = a == x || contains a xs

  pub contains-append :
      (xs : List A) (x p : A) → contains p (xs ++ x ∷ []) ≡ (contains p xs || x == p)
  contains-append [] x p = ground (arith, e.is_same_iff x p, e.is_same_iff p x)
  contains-append (y ∷ xs) x p = ground (arith, contains-append xs x p)

instance abbrev pub Eq-list {ℓ} : {A : Type ℓ} ⦃e : Comparable A⦄ → Comparable (List A)
Eq-list = record { is_same = list_eq; is_same_iff = list_eq_iff }
