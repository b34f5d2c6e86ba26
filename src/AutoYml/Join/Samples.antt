-- ===== src/AutoYml/Join/Samples.antt =====
-- Joins as a text, as a list, and in an expression.
use smartlibs.Prelude.{[], ◌∷◌, ◌≡◌, refl, none, some}
use smartlibs.Text.{Text}
use smartlibs.TaskExp.{Methods}
use smartlibs.AutoYml.Join.{
  exp_node, list_node, join_text, join_texts, join_other, parse_join_node, normalize_join,
}

abbrev a : Text
a = b'a' ∷ []

abbrev b : Text
b = b'b' ∷ []

abbrev x : Text
x = b'x' ∷ []

-- An empty part of a text is dropped.
join_text_run :
    normalize_join {D = Methods}
      (λ m. m)
      (((x, []) ∷ []) ∷ [])
      (some (exp_node (b'a' ∷ b'~' ∷ b'~' ∷ b'b' ∷ [])))
    ≡ some (some (((x, []) ∷ []) ∷ ((a, []) ∷ []) ∷ ((b, []) ∷ []) ∷ []))
unfolding normalize_join
join_text_run = refl

join_null_run : normalize_join {D = Methods} (λ m. m) [] (some (list_node [])) ≡ some none
unfolding normalize_join
join_null_run = refl

join_list_run :
    parse_join_node {D = Methods}
      (λ m. m)
      (list_node (join_texts (a ∷ b ∷ []) ∷ join_other ∷ join_text [] ∷ []))
    ≡ some (((a, []) ∷ (b, []) ∷ []) ∷ [])
unfolding parse_join_node
join_list_run = refl
