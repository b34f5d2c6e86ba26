-- ===== src/KeyPath.antt =====
-- smart/auto/parser/tools.py (`resolve_key_path`) and smart/utils/dot_path.py: dotted paths that are
-- relative to a context, by the dots they begin with.
pub mod Relative
mod Samples
use smartlibs.Prelude.{
  ℕ, zero, suc, ◌+◌, ◌-◌, List, [], ◌∷◌, ◌++◌, Option, none, some, ◌==◌, if◌then◌else◌, ltb, Eq-nat,
  Eq-list, length, take, is_empty, ◌||◌,
}
use smartlibs.Text.{Text, split_on, join}

abbrev pub dot : ℕ
dot = b'.'

-- `re.match(r'^\.+', path)`: how many dots the path begins with (0 where nothing matches), and
-- what stands behind them.
unfoldable pub leading_dots : Text → ℕ × Text
leading_dots [] = (0, [])
leading_dots (c ∷ cs) =
    let (level, rest) = leading_dots cs in if c == dot then (suc level, rest) else (0, c ∷ cs)

abbrev pub extend_key_path : List Text → Text → List Text
extend_key_path key_path_list [] = key_path_list
extend_key_path key_path_list (c ∷ cs) = key_path_list ++ split_on dot (c ∷ cs)

-- The branch of a relative path: `context_path[:-(level-1)]` is a prefix of the context, and `none`
-- the None of a path that leaves it.
unfoldable pub resolve_in : List Text → ℕ × Text → Option (List Text)
unfolding split_on
resolve_in context_path (zero, rest) = some (extend_key_path [] rest)
resolve_in context_path (suc level, rest) =
    if ltb (length context_path + 1) (suc level)
    then none
    else some (extend_key_path (take (length context_path - level) context_path) rest)

unfoldable pub resolve_key_path : Text → List Text → Option (List Text)
unfolding resolve_in leading_dots split_on
resolve_key_path [] context_path = some ([] ∷ [])
resolve_key_path (c ∷ cs) [] = if c ∷ cs == dot ∷ [] then some [] else some (split_on dot (c ∷ cs))
resolve_key_path (c ∷ cs) (p ∷ ps) =
    if c ∷ cs == dot ∷ [] then some (p ∷ ps) else resolve_in (p ∷ ps) (leading_dots (c ∷ cs))

-- The branch of a relative path in `DotPathContext.resolve_dotted_path`.
unfoldable pub resolve_parts : List Text → Text → ℕ × Text → Option Text
unfolding join
resolve_parts ctx_parts path (zero, rest) = some path
resolve_parts ctx_parts path (suc level, rest) =
    if ltb (length ctx_parts + 1) (suc level)
    then none
    else some (join dot (take (length ctx_parts - level) ctx_parts ++ rest ∷ []))

-- `DotPathContext.resolve_dotted_path`; an empty text is also a directory or a path that is None.
unfoldable pub resolve_dotted_path : Text → Text → Option Text
unfolding resolve_parts leading_dots split_on
resolve_dotted_path ctx_dotted_dir dotted_path =
    if is_empty dotted_path || is_empty ctx_dotted_dir
    then some dotted_path
    else if dotted_path == dot ∷ []
    then some ctx_dotted_dir
    else resolve_parts (split_on dot ctx_dotted_dir) dotted_path (leading_dots dotted_path)
