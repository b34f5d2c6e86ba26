-- ===== src/Dag/Cycle/Walks.antt =====
-- Walks along the dependences, to a key that they have met, and the cycles that they make.
use mathlib.Core.Path.{subst}
use smartlibs.Prelude.{
  List, [], ◌∷◌, ◌++◌, ◌≡◌, sym, ap, inl, inr, true, Comparable, ◌==◌, arith, contains,
  contains-more, Bool-cases, append_assoc,
}
use smartlibs.Dag.{has_pair}
use smartlibs.Dag.Sort.Places.{LinkedNames, IsNamedCycle}
use smartlibs.Dag.Cycle.{drop_to}

module _ {K : Type 0} ⦃e : Comparable K⦄ (s : List (K × K)) where
  pub LinkedNames-append :
      (l : List K) (i j : K)
      → LinkedNames s (l ++ i ∷ [])
      → has_pair s j i ≡ true
      → LinkedNames s (l ++ (i ∷ j ∷ []))
  LinkedNames-append [] i j h k = (k, tt)
  LinkedNames-append (a ∷ []) i j h k = (h.0, (k, tt))
  LinkedNames-append (a ∷ b ∷ l) i j h k = (h.0, LinkedNames-append (b ∷ l) i j h.1 k)

  pub LinkedNames-tail : (a : K) (l : List K) → LinkedNames s (a ∷ l) → LinkedNames s l
  LinkedNames-tail a [] h = tt
  LinkedNames-tail a (b ∷ l) h = h.1

  -- What is linked from a key on, is a cycle if it comes back to that key.
  pub drop_to-cycle :
      (chain : List K) (i j : K)
      → contains j chain ≡ true
      → LinkedNames s (chain ++ (i ∷ j ∷ []))
      → IsNamedCycle s (drop_to j chain ++ (i ∷ j ∷ []))
  unfolding drop_to
  drop_to-cycle [] i j m h = absurd (cc m)
  drop_to-cycle (x ∷ chain) i j m h = elim (Bool-cases (x == j)) [
    | inl same ↦
        rw (same, drop_to)
          record {
            front = x ∷ (chain ++ i ∷ []);
            last = j;
            parts = ap (λ l. x ∷ l) (sym (append_assoc chain (i ∷ []) (j ∷ [])));
            linked = h;
            closed = ground (arith, m, same, e.is_same_iff x j, e.is_same_iff j x);
          }
    | inr other ↦
        rw (other, drop_to)
          (drop_to-cycle chain i j (ground (arith, m, other, e.is_same_iff x j, e.is_same_iff j x))
            (LinkedNames-tail x (chain ++ (i ∷ j ∷ [])) h))
  ]

  -- A walk from `x` along the dependences, to a key on the chain, which grows by the keys passed: it is
  -- what a clean search rules out.
  pub data Closes : K → List K → Type 0 where
    at_once :
        {x : K} {chain : List K} (y : K)
        → has_pair s y x ≡ true
        → contains y chain ≡ true
        → Closes x chain
    onwards :
        {x : K} {chain : List K} (y : K)
        → has_pair s y x ≡ true
        → Closes y (chain ++ x ∷ [])
        → Closes x chain

  linked-Closes :
      (x : K) (rest chain : List K) (z : K)
      → LinkedNames s (x ∷ (rest ++ z ∷ []))
      → contains z chain ≡ true
      → Closes x chain
  linked-Closes x [] chain z h m = at_once z h.0 m
  linked-Closes x (y ∷ rest) chain z h m =
      onwards y h.0 (linked-Closes y rest (chain ++ x ∷ []) z h.1 (contains-more chain x z m))

  loop-Closes : (x : K) (rest : List K) → LinkedNames s (x ∷ (rest ++ x ∷ [])) → Closes x []
  loop-Closes x [] h = onwards x h.0 (at_once x h.0 (ground (arith, e.is_same_iff x x)))
  loop-Closes x (y ∷ rest) h =
      onwards y h.0 (linked-Closes y rest (x ∷ []) x h.1 (ground (arith, e.is_same_iff x x)))

  -- A cycle is a walk that closes, from its last key on.
  pub cycle-Closes :
      (front : List K) (last : K)
      → LinkedNames s (front ++ last ∷ [])
      → contains last front ≡ true
      → Closes last []
  cycle-Closes [] last h m = absurd (cc m)
  cycle-Closes (x ∷ front) last h m = elim (Bool-cases (x == last)) [
    | inl same ↦
        loop-Closes last front
          (subst (λ z. LinkedNames s (z ∷ (front ++ last ∷ []))) ((e.is_same_iff x last).0 same) h)
    | inr other ↦
        cycle-Closes front last (LinkedNames-tail x (front ++ last ∷ []) h)
          (ground (arith, m, other, e.is_same_iff x last, e.is_same_iff last x))
  ]
