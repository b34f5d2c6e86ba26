-- ===== src/Url/Wildcards.antt =====
-- Patterns with `**`: what it stands for, and where the code raises IndexError.
use smartlibs.Prelude.{
  List, [], ◌∷◌, ◌++◌, ◌≡◌, refl, true, false, some, ◌==◌, arith, ap, ◌⊎◌, inl, inr, contains,
  Eq-nat, Eq-list,
}
use smartlibs.Text.{Text}
use smartlibs.Url.{
  Captures, Reply, hit, star, double_star, is_capture, begin, try_suffixes, scan, url_path_match,
}
use smartlibs.Url.Single.{single, answer, verdict, url_path_match-single}

-- A tail of the path, behind one part at least, that the rest of the pattern fits.
pub record Leaves (pattern path : List Text) (caps : Captures) : Type 0 where
  pub first : Text
  pub middle : List Text
  pub rest : List Text
  pub split : path ≡ first ∷ middle ++ rest
  pub fits : single pattern rest [] ≡ some caps

module _ (attempt : List Text → Captures → Reply) (pattern : List Text)
    (exact : (ss : List Text) → answer (attempt ss []) ≡ verdict (single pattern ss [])) where
  try_suffixes_step :
      (s : Text) (ss : List Text) (caps : Captures)
      → try_suffixes attempt (s ∷ ss) [] ≡ (hit, caps)
      → (single pattern ss [] ≡ some caps) ⊎ (try_suffixes attempt ss [] ≡ (hit, caps))
  unfolding try_suffixes
  try_suffixes_step s ss caps h = ground (arith, exact ss)

  try_suffixes_sound :
      (path : List Text) (caps : Captures)
      → try_suffixes attempt path [] ≡ (hit, caps)
      → Leaves pattern path caps
  try_suffixes_sound [] caps h = unfold try_suffixes in cc
  try_suffixes_sound (s ∷ ss) caps h = elim (try_suffixes_step s ss caps h) [
    | inl fits ↦ record { first = s; middle = []; rest = ss; split = refl; fits = fits }
    | inr later ↦
        let found = try_suffixes_sound ss caps later in
        record {
          first = s;
          middle = found.first ∷ found.middle;
          rest = found.rest;
          split = ap (λ l. s ∷ l) found.split;
          fits = found.fits;
        }
  ]

  try_suffixes_complete :
      (first : Text) (middle rest : List Text) (caps : Captures)
      → single pattern rest [] ≡ some caps
      → (try_suffixes attempt (first ∷ middle ++ rest) []).0 ≡ hit
  unfolding try_suffixes
  try_suffixes_complete first [] rest caps h = ground (arith, exact rest)
  try_suffixes_complete first (s ∷ middle) rest caps h =
      ground (arith, exact (s ∷ middle ++ rest), try_suffixes_complete s middle rest caps h)

starts :
    (path pattern : List Text)
    → url_path_match path (double_star ∷ pattern) []
      ≡ try_suffixes (begin (scan pattern) pattern) path []
unfolding url_path_match
starts [] pattern = ground arith
starts (s ∷ ss) pattern = ground arith

-- A pattern that begins with `**` and has no second one hits exactly the paths that leave, behind
-- at least one part, a tail that the rest of the pattern fits. A hit carries the captures of such
-- a tail.
pub url_path_match-double_star :
    (path pattern : List Text)
    → contains double_star pattern ≡ false
    → ((caps : Captures)
        → url_path_match path (double_star ∷ pattern) [] ≡ (hit, caps)
        → Leaves pattern path caps)
      × ((caps : Captures)
          → Leaves pattern path caps
          → (url_path_match path (double_star ∷ pattern) []).0 ≡ hit)
url_path_match-double_star path pattern plain = rw starts (
  try_suffixes_sound (begin (scan pattern) pattern) pattern exact path,
  λ caps found. rw found.split (
      try_suffixes_complete (begin (scan pattern) pattern) pattern exact found.first found.middle
        found.rest caps found.fits),
)
  where
    exact :
        (ss : List Text)
        → answer (begin (scan pattern) pattern ss []) ≡ verdict (single pattern ss [])
    exact ss = unfold url_path_match in url_path_match-single ss pattern [] plain

-- A path part that a literal or a capture of the pattern takes: no `*` among them.
abbrev pub TakesOne : Text → Text → Type 0
TakesOne p s =
    ((p == star) ≡ false) × ((p == double_star) ≡ false) × ((is_capture p ≡ true) ⊎ (p ≡ s))

abbrev pub TakesAll : List Text → List Text → Type 0
TakesAll [] [] = Unit
TakesAll (p ∷ ps) (s ∷ ss) = TakesOne p s × TakesAll ps ss
TakesAll _ _ = ⊥
