-- ===== src/Prelude/Missing.antt =====
-- How many of some values a list does not have: the measure of a search that marks what it meets.
use Prim.Native.Nat.{ℕ, suc, ◌≤◌, ◌<◌}
use mathlib.Core.Path.{◌≡◌}
use mathlib.Core.Logic.{inl, inr}
use mathlib.Core.Bool.{true, false}
use mathlib.Core.List.{List, [], ◌∷◌, ◌++◌}
use native.Mathlib.Omega.{arith}
use smartlibs.Prelude.Tests.{if◌then◌else◌, Bool-cases}
use smartlibs.Prelude.Keys.{Comparable, contains, contains-append}

module _ {A : Type 0} ⦃e : Comparable A⦄ where
  -- How many of some values are not in a list.
  abbrev pub missing : List A → List A → ℕ
  missing imported [] = 0
  missing imported (f ∷ files) =
      if contains f imported then missing imported files else suc (missing imported files)

  pub missing-le :
      (files old more : List A)
      → ((x : A) → contains x old ≡ true → contains x more ≡ true)
      → missing more files ≤ missing old files
  missing-le [] old more grows = omega arith
  missing-le (f ∷ files) old more grows = elim (Bool-cases (contains f old)) [
    | inl e ↦ ground (arith, e, grows f e, missing-le files old more grows)
    | inr e ↦ ground (arith, e, missing-le files old more grows)
  ]

  pub contains-more :
      (xs : List A) (p x : A) → contains x xs ≡ true → contains x (xs ++ p ∷ []) ≡ true
  contains-more xs p x h = ground (arith, h, contains-append xs p x)

  pub missing-lt :
      (files imported : List A) (p : A)
      → contains p files ≡ true
      → contains p imported ≡ false
      → missing (imported ++ p ∷ []) files < missing imported files
  missing-lt [] imported p h new = absurd (cc h)
  missing-lt (f ∷ files) imported p h new = ground (
    arith,
    h,
    new,
    e.is_same_iff p f,
    contains-append imported p f,
    missing-lt files imported p,
    missing-le files imported (imported ++ p ∷ []) (contains-more imported p),
  )
