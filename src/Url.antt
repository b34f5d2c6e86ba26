-- ===== src/Url.antt =====
-- smart/rest/util/url_path.py: matching the parts of a request path against a pattern.
pub mod Single
pub mod Wildcards
mod Samples
use smartlibs.Prelude.{
  List, [], ◌∷◌, Bool, true, false, not, ◌&&◌, ◌||◌, Option, none, some, ◌==◌, if◌then◌else◌,
  length, tail, contains, Eq-nat, Eq-list,
}
use smartlibs.Dict.{Dict, set}
use smartlibs.Text.{Text}

abbrev pub Captures : Type 0
Captures = Dict Text Text

abbrev pub star : Text
star = b'*' ∷ []

abbrev pub double_star : Text
double_star = b'*' ∷ b'*' ∷ []

-- The code raises IndexError where it reads a path part that is not there.
pub data Outcome : Type 0 where
  miss hit index_error : Outcome

-- `path.startswith('{') and path.endswith('}')`; "{" alone has no end that is a brace.
abbrev pub ends_with_brace : Text → Bool
ends_with_brace [] = false
ends_with_brace (c ∷ []) = c == b'}'
ends_with_brace (c ∷ d ∷ cs) = ends_with_brace (d ∷ cs)

unfoldable pub is_capture : Text → Bool
is_capture [] = false
is_capture (c ∷ cs) = c == b'{' && ends_with_brace (c ∷ cs)

-- All characters but the last: `s[:-1]`.
abbrev pub init_text : Text → Text
init_text [] = []
init_text (c ∷ []) = []
init_text (c ∷ d ∷ cs) = c ∷ init_text (d ∷ cs)

-- `sub_pattern_path[1:-1]`
unfoldable pub capture_name : Text → Text
capture_name p = init_text (tail p)

abbrev pub Reply : Type 0
Reply = Outcome × Captures

-- The head of `url_path_match`: the tests before the loop, then the loop from index 0.
-- A capture dictionary that is empty stands for `None` and for `{}`, which the code treats alike.
unfoldable pub begin :
    (List Text → List Text → Captures → Reply) → List Text → List Text → Captures → Reply
begin loop [] [] caps = (hit, caps)
begin loop [] (s ∷ ss) caps = (miss, caps)
begin loop (p ∷ ps) [] caps = (miss, caps)
begin loop (p ∷ ps) (s ∷ ss) caps =
    if not (length (p ∷ ps) == length (s ∷ ss)) && not (contains double_star (p ∷ ps))
    then (miss, caps)
    else loop (s ∷ ss) (s ∷ ss) caps

-- What the caller's dictionary holds after a call: an empty one is replaced inside the callee, and
-- one that is not empty is the callee's own object.
unfoldable pub shared : Captures → Captures → Captures
shared [] after = []
shared (c ∷ cs) after = after

-- `for j in range(0, len(to_match_pathes))`: each proper suffix of the path in turn.
unfoldable pub try_suffixes : (List Text → Captures → Reply) → List Text → Captures → Reply
unfolding shared
try_suffixes attempt [] caps = (miss, caps)
try_suffixes attempt (s ∷ ss) caps =
    let r = attempt ss caps in
    elim (r.0) [ hit ↦ r | index_error ↦ r | miss ↦ try_suffixes attempt ss (shared caps r.1) ]

-- The loop over the pattern: `full` is `to_match_pathes`, and `rest` the parts from index i on.
unfoldable pub scan : List Text → List Text → List Text → Captures → Reply
unfolding begin try_suffixes is_capture capture_name set
scan [] full rest caps = (hit, caps)
scan (p ∷ ps) full rest caps =
    if p == double_star
    then try_suffixes (begin (scan ps) ps) full caps
    else if p == star
    then begin (scan ps) ps (tail rest) caps
    else if is_capture p
    then elim rest [
      | [] ↦ (index_error, caps)
      | s ∷ ss ↦ scan ps full ss (set caps (capture_name p) s)
    ]
    else elim rest [
      | [] ↦ (index_error, caps)
      | s ∷ ss ↦ elim (p == s) [ true ↦ scan ps full ss caps | false ↦ (miss, caps) ]
    ]

unfoldable pub url_path_match : List Text → List Text → Captures → Reply
unfolding scan
url_path_match path pattern caps = begin (scan pattern) pattern path caps

unfoldable pub is_sub_pattern_path : Text → Bool
unfolding is_capture
is_sub_pattern_path [] = false
is_sub_pattern_path (c ∷ cs) =
    if c ∷ cs == star || c ∷ cs == double_star then true else is_capture (c ∷ cs)

-- `split_pathes_to_fix_and_pattern`: `none` is Python's None.
unfoldable pub split_pathes_to_fix_and_pattern : List Text → List Text × Option (List Text)
unfolding is_sub_pattern_path
split_pathes_to_fix_and_pattern [] = ([], none)
split_pathes_to_fix_and_pattern (p ∷ ps) =
    let (fix, pattern) = split_pathes_to_fix_and_pattern ps in
    if is_sub_pattern_path p then ([], some (p ∷ ps)) else (p ∷ fix, pattern)
