-- ===== src/Text/Laws.antt =====
-- Splitting and joining are inverse to one another.
use smartlibs.Prelude.{
  ℕ, List, [], ◌∷◌, ◌++◌, ◌≡◌, refl, true, false, none, some, arith, ◌==◌, Eq-nat, nat_eq_iff,
  contains, all, not, Bool-cases, inl, inr,
}
use smartlibs.Text.Defs.{Text, split_on, join, split_once, rsplit_once}

join-cons_head : (c x : ℕ) (p : Text) (ps : List Text) → join c ((x ∷ p) ∷ ps) ≡ x ∷ join c (p ∷ ps)
unfolding join
join-cons_head c x p [] = refl
join-cons_head c x p (q ∷ ps) = refl

-- `split` gives at least one part.
pub split_on-cons : (c : ℕ) (t : Text) → (p : Text) × (ps : List Text) × (split_on c t ≡ p ∷ ps)
unfolding split_on
split_on-cons c [] = ([], [], refl)
split_on-cons c (x ∷ t) =
    let (p, ps, e) = split_on-cons c t in
    elim (Bool-cases (x == c)) [ inl h ↦ ([], split_on c t, rw h) | inr h ↦ (x ∷ p, ps, rw (h, e)) ]

pub join-split_on : (c : ℕ) (t : Text) → join c (split_on c t) ≡ t
unfolding split_on join
join-split_on c [] = refl
join-split_on c (x ∷ t) =
    let (p, ps, e) = split_on-cons c t in
    ground (arith, e, nat_eq_iff x c, join-cons_head c x p ps, join-split_on c t)

split_on-free : (c : ℕ) (t : Text) → contains c t ≡ false → split_on c t ≡ t ∷ []
unfolding split_on
split_on-free c [] h = refl
split_on-free c (x ∷ t) h = ground (arith, split_on-free c t)

pub split_on-append :
    (c : ℕ) (p t : Text) → contains c p ≡ false → split_on c (p ++ (c ∷ t)) ≡ p ∷ split_on c t
unfolding split_on
split_on-append c [] t h = ground arith
split_on-append c (x ∷ p) t h = ground (arith, split_on-append c p t)

pub split_on-join :
    (c : ℕ) (p : Text) (ps : List Text)
    → all (λ q. not (contains c q)) (p ∷ ps) ≡ true
    → split_on c (join c (p ∷ ps)) ≡ p ∷ ps
unfolding join
split_on-join c p [] h = ground (arith, split_on-free c p)
split_on-join c p (q ∷ ps) h =
    ground (arith, split_on-append c p (join c (q ∷ ps)), split_on-join c q ps)

pub split_once-append :
    (c : ℕ) (p t : Text) → contains c p ≡ false → split_once c (p ++ (c ∷ t)) ≡ some (p, t)
unfolding split_once
split_once-append c [] t h = ground arith
split_once-append c (x ∷ p) t h = ground (arith, split_once-append c p t)

pub rsplit_once-free : (c : ℕ) (t : Text) → contains c t ≡ false → rsplit_once c t ≡ none
unfolding rsplit_once
rsplit_once-free c [] h = refl
rsplit_once-free c (x ∷ t) h = ground (arith, rsplit_once-free c t)

pub rsplit_once-append :
    (c : ℕ) (p t : Text) → contains c t ≡ false → rsplit_once c (p ++ (c ∷ t)) ≡ some (p, t)
unfolding rsplit_once
rsplit_once-append c [] t h = ground (arith, rsplit_once-free c t)
rsplit_once-append c (x ∷ p) t h = ground (arith, rsplit_once-append c p t)

pub split_once-free : (c : ℕ) (t : Text) → contains c t ≡ false → split_once c t ≡ none
unfolding split_once
split_once-free c [] h = refl
split_once-free c (x ∷ t) h = ground (arith, split_once-free c t)
