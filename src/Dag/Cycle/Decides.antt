-- ===== src/Dag/Cycle/Decides.antt =====
-- The search comes to an end, and it finds a cycle just where there is one.
use mathlib.Core.List.{reverse, reverse-reverse}
use smartlibs.Prelude.{
  ℕ, zero, suc, ◌+◌, ◌<◌, List, [], ◌∷◌, ◌++◌, ◌≡◌, sym, ap, ◌∙◌, inl, inr, true, false, Option,
  none, some, Comparable, ◌==◌, arith, if◌then◌else◌, contains, contains-append, contains-more,
  missing, missing-le, missing-lt, Bool-cases, Option-cases, append_assoc,
}
use smartlibs.Dict.{Dict, get, keys}
use smartlibs.Dag.{or_empty, has_pair}
use smartlibs.Dag.Sort.Places.{LinkedNames, IsNamedCycle}
use smartlibs.Dag.Cycle.{
  Search, found, clean, too_deep, drop_to, add_safe, unless_found, find_among, find_cycle,
}
use smartlibs.Dag.Cycle.Walks.{LinkedNames-append, drop_to-cycle, Closes, at_once, onwards}

module _ {K : Type 0} ⦃e : Comparable K⦄ (s : List (K × K)) where
  module _ (dep_dict : Dict K (List K))
      (lists : (k p : K) → contains p (or_empty (get dep_dict k)) ≡ has_pair s p k) where
    -- Nothing comes before a safe key.
    abbrev pub AreSafe : List K → Type 0
    AreSafe safe_keys = (x : K) → contains x safe_keys ≡ true → (y : K) → has_pair s y x ≡ false

    -- How a search from `x` may end.
    abbrev pub EndsWell : K → List K → Search K → Type 0
    EndsWell x chain (found c) = IsNamedCycle s (reverse c)
    EndsWell x chain (clean safe_keys) = AreSafe safe_keys × (Closes s x chain → ⊥)
    EndsWell x chain too_deep = ⊥

    -- How the search from some keys before `x` may end.
    abbrev AmongEnds : K → List K → List K → Search K → Type 0
    AmongEnds x chain deps (found c) = IsNamedCycle s (reverse c)
    AmongEnds x chain deps (clean safe_keys) =
        AreSafe safe_keys
        × ((y : K)
            → contains y deps ≡ true
            → (contains y chain ≡ false) × (Closes s y (chain ++ x ∷ []) → ⊥))
    AmongEnds x chain deps too_deep = ⊥

    abbrev in_chain : K → List K → ℕ
    in_chain x chain = if contains x chain then 1 else 0

    abbrev depth : K → List K → ℕ
    depth x chain = missing chain (keys dep_dict) + missing chain (keys dep_dict) + in_chain x chain

    depth-lt :
        (x y : K) (chain : List K)
        → contains x (keys dep_dict) ≡ true
        → contains y chain ≡ false
        → depth y (chain ++ x ∷ []) < depth x chain
    depth-lt x y chain there off = elim (Bool-cases (contains x chain)) [
      | inr new ↦ ground (arith, new, missing-lt (keys dep_dict) chain x there new)
      | inl old ↦ ground (
        arith,
        old,
        off,
        contains-append chain x y,
        e.is_same_iff x y,
        missing-le (keys dep_dict) chain (chain ++ x ∷ []) (contains-more chain x),
      )
    ]

    unless_found-AmongEnds :
        (x y : K) (chain deps : List K) (r : Search K) (f : List K → Search K)
        → contains y chain ≡ false
        → EndsWell y (chain ++ x ∷ []) r
        → ((safe_keys : List K) → AreSafe safe_keys → AmongEnds x chain deps (f safe_keys))
        → AmongEnds x chain (y ∷ deps) (unless_found r f)
    unless_found-AmongEnds x y chain deps (found c) f off h rest = h
    unless_found-AmongEnds x y chain deps too_deep f off h rest = h
    unless_found-AmongEnds x y chain deps (clean safe_keys) f off h rest =
        more (f safe_keys) (rest safe_keys h.0)
      where
        more : (r : Search K) → AmongEnds x chain deps r → AmongEnds x chain (y ∷ deps) r
        more (found c) k = k
        more too_deep k = k
        more (clean safe2) k = (
          k.0,
          λ z m. elim (Bool-cases (z == y)) [
            | inl same ↦ rw ((e.is_same_iff z y).0 same) (off, h.1)
            | inr other ↦ k.1 z (ground (arith, m, other))
          ],
        )

    find_among-AmongEnds :
        (visit : K → List K → List K → Search K) (x : K) (chain : List K)
        → LinkedNames s (chain ++ x ∷ [])
        → ((y : K) (safe_keys : List K)
            → contains y chain ≡ false
            → LinkedNames s (chain ++ (x ∷ y ∷ []))
            → AreSafe safe_keys
            → EndsWell y (chain ++ x ∷ []) (visit y (chain ++ x ∷ []) safe_keys))
        → (deps safe_keys : List K) → ((y : K) → contains y deps ≡ true → has_pair s y x ≡ true)
        → AreSafe safe_keys
        → AmongEnds x chain deps (find_among visit x chain deps safe_keys)
    unfolding find_among
    find_among-AmongEnds visit x chain linked ok [] safe_keys listed safe =
        (safe, λ y h. absurd (cc h))
    find_among-AmongEnds visit x chain linked ok (y ∷ deps) safe_keys listed safe =
        let next =
          LinkedNames-append s chain x y linked (listed y (ground (arith, e.is_same_iff y y))) in
        elim (Bool-cases (contains y chain)) [
          | inl on ↦
              (rw (on, find_among, AmongEnds)
                (rw (reverse-reverse (drop_to y chain ++ (x ∷ y ∷ [])))
                  (drop_to-cycle s chain x y on next)))
          | inr off ↦
              (rw (off, find_among, AmongEnds)
                (unless_found-AmongEnds x y chain deps _ _ off (ok y safe_keys off next safe)
                  λ more safe2.
                    find_among-AmongEnds visit x chain linked ok deps more
                      (λ z h. listed z (ground (arith, h))) safe2))
        ]

    pub get-contains :
        (m : Dict K (List K)) (x : K) (deps : List K)
        → get m x ≡ some deps
        → contains x (keys m) ≡ true
    unfolding get
    get-contains [] x deps h = absurd (cc h)
    get-contains ((i, w) ∷ m) x deps h = elim (Bool-cases (i == x)) [
      | inl same ↦ ground (arith, same, e.is_same_iff i x, e.is_same_iff x i)
      | inr other ↦ ground (arith, get-contains m x deps (rw (other) at h))
    ]

    pub get-has_pair :
        (x y : K) (r : Option (List K))
        → get dep_dict x ≡ r
        → has_pair s y x ≡ contains y (or_empty r)
    get-has_pair x y r h = sym (lists x y) ∙ ap (λ r. contains y (or_empty r)) h

    AmongEnds-EndsWell :
        (x : K) (chain deps : List K) (r : Search K)
        → get dep_dict x ≡ some deps
        → AmongEnds x chain deps r
        → EndsWell x chain r
    AmongEnds-EndsWell x chain deps (found c) h k = k
    AmongEnds-EndsWell x chain deps too_deep h k = k
    AmongEnds-EndsWell x chain deps (clean safe_keys) h k = (k.0, no_walk)
      where
        no_walk : Closes s x chain → ⊥
        no_walk (at_once y link on) =
            let off = (k.1 y (sym (get-has_pair x y (some deps) h) ∙ link)).0 in cc
        no_walk (onwards y link more) = (k.1 y (sym (get-has_pair x y (some deps) h) ∙ link)).1 more

    -- A key that nothing comes before is safe.
    first-EndsWell :
        (x : K) (chain safe_keys : List K)
        → get dep_dict x ≡ none
        → AreSafe safe_keys
        → EndsWell x chain (clean (add_safe safe_keys x))
    first-EndsWell x chain safe_keys h safe = (more, no_walk)
      where
        none_before : (y : K) → has_pair s y x ≡ false
        none_before y = get-has_pair x y none h

        more : AreSafe (add_safe safe_keys x)
        more k m y = elim (Bool-cases (x == k)) [
          | inl same ↦ rw (sym ((e.is_same_iff x k).0 same)) (none_before y)
          | inr other ↦
              safe k
                (ground (
                  arith,
                  m,
                  other,
                  contains-append safe_keys x k,
                  e.is_same_iff x k,
                  e.is_same_iff k x,
                ))
                y
        ]

        no_walk : Closes s x chain → ⊥
        no_walk (at_once y link on) = let b = none_before y in cc
        no_walk (onwards y link rest) = let b = none_before y in cc

    pub find_cycle-EndsWell :
        (fuel : ℕ) (x : K) (chain safe_keys : List K)
        → depth x chain < fuel
        → LinkedNames s (chain ++ x ∷ [])
        → AreSafe safe_keys
        → EndsWell x chain (find_cycle dep_dict fuel x chain safe_keys)
    unfolding find_cycle
    find_cycle-EndsWell zero x chain safe_keys lt linked safe = absurd (omega arith)
    find_cycle-EndsWell (suc fuel) x chain safe_keys lt linked safe =
        elim (Option-cases (get dep_dict x)) [
          | inl missed ↦ rw (missed, find_cycle) (first-EndsWell x chain safe_keys missed safe)
          | inr (deps, there) ↦
              rw (there, find_cycle)
                (AmongEnds-EndsWell x chain deps _ there (
                  find_among-AmongEnds (find_cycle dep_dict fuel) x chain linked
                    (λ y safe2 off next ok.
                      find_cycle-EndsWell fuel y (chain ++ x ∷ []) safe2
                        (let less = depth-lt x y chain (get-contains dep_dict x deps there) off in
                          omega arith)
                        (rw (append_assoc chain (x ∷ []) (y ∷ [])) next) ok)
                    deps safe_keys (λ y m. get-has_pair x y (some deps) there ∙ m) safe))
        ]
