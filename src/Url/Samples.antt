-- ===== src/Url/Samples.antt =====
-- Matches of small paths, and the laws of the match on them.
use smartlibs.Prelude.{[], ◌∷◌, ◌≡◌, refl, Eq-nat, Eq-list}
use smartlibs.Text.{Text}
use smartlibs.Url.{Captures, hit, double_star, url_path_match}
use smartlibs.Url.Single.{single, answer, verdict, url_path_match-single}
use smartlibs.Url.Wildcards.{Leaves, url_path_match-double_star}

-- The parts "a", "b" and "{n}".
abbrev a : Text
a = b'a' ∷ []

abbrev b : Text
b = b'b' ∷ []

abbrev n : Text
n = b'n' ∷ []

abbrev capture : Text
capture = b'{' ∷ b'n' ∷ b'}' ∷ []

captured : url_path_match (a ∷ b ∷ []) (capture ∷ b ∷ []) [] ≡ (hit, (n, a) ∷ [])
unfolding url_path_match
captured = refl

captured_example :
    answer (url_path_match (a ∷ b ∷ []) (capture ∷ b ∷ []) [])
    ≡ verdict (single (capture ∷ b ∷ []) (a ∷ b ∷ []) [])
captured_example = url_path_match-single (a ∷ b ∷ []) (capture ∷ b ∷ []) [] refl

double_star_example :
    ((caps : Captures)
      → url_path_match (b ∷ b ∷ a ∷ []) (double_star ∷ capture ∷ []) [] ≡ (hit, caps)
      → Leaves (capture ∷ []) (b ∷ b ∷ a ∷ []) caps)
    × ((caps : Captures)
        → Leaves (capture ∷ []) (b ∷ b ∷ a ∷ []) caps
        → (url_path_match (b ∷ b ∷ a ∷ []) (double_star ∷ capture ∷ []) []).0 ≡ hit)
double_star_example = url_path_match-double_star (b ∷ b ∷ a ∷ []) (capture ∷ []) refl

-- A `**` behind the first entry looks at the path from its start again.
seen_twice :
    url_path_match (a ∷ b ∷ []) (capture ∷ b ∷ double_star ∷ b ∷ []) [] ≡ (hit, (n, a) ∷ [])
unfolding url_path_match
seen_twice = refl
