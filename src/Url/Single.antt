-- ===== src/Url/Single.antt =====
-- Patterns without `**`: the match compares part by part.
use smartlibs.Prelude.{
  List, [], ◌∷◌, ◌≡◌, ◌≢◌, false, Option, none, some, ◌==◌, arith, if◌then◌else◌, length, contains,
  Eq-nat, Eq-list, list_eq_iff,
}
use smartlibs.Dict.{set}
use smartlibs.Text.{Text}
use smartlibs.Url.{
  Captures, Outcome, Reply, miss, hit, index_error, star, double_star, is_capture, capture_name,
  begin, scan, url_path_match,
}

-- The independent description: one part of the pattern for one part of the path.
unfoldable pub single : List Text → List Text → Captures → Option Captures
single [] [] caps = some caps
single (p ∷ ps) (s ∷ ss) caps =
    let named = single ps ss (set caps (capture_name p) s) in
    let plain = single ps ss caps in
    if p == star then plain else if is_capture p then named else if p == s then plain else none
single _ _ caps = none

-- What a client reads: the captures of a hit; a miss has none.
abbrev pub answer : Reply → Outcome × Option Captures
answer (hit, caps) = (hit, some caps)
answer (miss, caps) = (miss, none)
answer (index_error, caps) = (index_error, none)

abbrev pub verdict : Option Captures → Outcome × Option Captures
verdict none = (miss, none)
verdict (some caps) = (hit, some caps)

single-length_ne :
    (ps ss : List Text) (caps : Captures)
    → (length ps == length ss) ≡ false
    → single ps ss caps ≡ none
unfolding single
single-length_ne [] [] caps differ = ground arith
single-length_ne [] (s ∷ ss) caps differ = ground arith
single-length_ne (p ∷ ps) [] caps differ = ground arith
single-length_ne (p ∷ ps) (s ∷ ss) caps differ =
    ground
      (arith, single-length_ne ps ss caps, single-length_ne ps ss (set caps (capture_name p) s))

-- The tests before the loop agree with the description, if the loop does.
begin-single :
    (ps ss : List Text) (caps : Captures)
    → contains double_star ps ≡ false
    → (length ps ≡ length ss → answer (scan ps ss ss caps) ≡ verdict (single ps ss caps))
    → answer (begin (scan ps) ps ss caps) ≡ verdict (single ps ss caps)
unfolding begin
begin-single [] [] caps plain loop = unfold single in ground arith
begin-single [] (s ∷ ss) caps plain loop = unfold single in ground arith
begin-single (p ∷ ps) [] caps plain loop = unfold single in ground arith
begin-single (p ∷ ps) (s ∷ ss) caps plain loop =
    ground (arith, loop, single-length_ne (p ∷ ps) (s ∷ ss) caps)

plain_parts :
    (p : Text) (ps : List Text)
    → contains double_star (p ∷ ps) ≡ false
    → ((p == double_star) ≡ false) × (contains double_star ps ≡ false)
plain_parts p ps plain = ground (arith, list_eq_iff p double_star, list_eq_iff double_star p)

scan-single :
    (ps full ss : List Text) (caps : Captures)
    → contains double_star ps ≡ false
    → length ps ≡ length ss
    → answer (scan ps full ss caps) ≡ verdict (single ps ss caps)
unfolding scan single
scan-single [] full [] caps plain same = ground arith
scan-single [] full (s ∷ ss) caps plain same = absurd (omega arith)
scan-single (p ∷ ps) full [] caps plain same = absurd (omega arith)
scan-single (p ∷ ps) full (s ∷ ss) caps plain same =
    let (other, rest) = plain_parts p ps plain in
    ground (
      arith,
      other,
      begin-single ps ss caps rest (scan-single ps ss ss caps rest),
      scan-single ps full ss caps rest (omega arith),
      scan-single ps full ss (set caps (capture_name p) s) rest (omega arith),
    )

-- A pattern without `**` hits exactly the paths that it fits part by part, with the captures of
-- that description, and the match of such a pattern never raises.
pub url_path_match-single :
    (path pattern : List Text) (caps : Captures)
    → contains double_star pattern ≡ false
    → answer (url_path_match path pattern caps) ≡ verdict (single pattern path caps)
unfolding url_path_match
url_path_match-single path pattern caps plain =
    begin-single pattern path caps plain (scan-single pattern path path caps plain)

answered : (r : Reply) (o : Option Captures) → answer r ≡ verdict o → r.0 ≢ index_error
answered (miss, caps) o e = cc
answered (hit, caps) o e = cc
answered (index_error, caps) none e = λ _. cc
answered (index_error, caps) (some c) e = λ _. cc

pub single-ne-index_error :
    (path pattern : List Text)
    → contains double_star pattern ≡ false
    → (url_path_match path pattern []).0 ≢ index_error
single-ne-index_error path pattern plain =
    answered _ (single pattern path []) (url_path_match-single path pattern [] plain)
