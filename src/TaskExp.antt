-- ===== src/TaskExp.antt =====
-- smart/auto/parser/tools.py: the task expressions, `task.method(config + config)~join,join~next`.
pub mod Split
pub mod Render
pub mod RoundTrip
pub mod Base
mod Samples
use smartlibs.Prelude.{
  ℕ, zero, suc, ◌+◌, List, [], ◌∷◌, ◌++◌, map, Bool, true, false, not, ◌&&◌, ◌||◌, Option, none,
  some, ◌==◌, if◌then◌else◌, leb, ltb, Eq-nat, Eq-list, is_empty, take, length,
}
use Prim.Native.Nat.{min}
use smartlibs.Text.{Text, split_on, split_once, non_empty}
use smartlibs.Dict.{Dict, set}

-- The characters that Python's `str.strip` takes off.
unfoldable pub is_space : ℕ → Bool
is_space c =
    (leb 9 c && leb c 13)
    || (leb 28 c && leb c 32)
    || c == 0x85
    || c == 0xa0
    || c == 0x1680
    || (leb 0x2000 c && leb c 0x200a)
    || c == 0x2028
    || c == 0x2029
    || c == 0x202f
    || c == 0x205f
    || c == 0x3000

unfoldable pub lstrip : Text → Text
unfolding is_space
lstrip [] = []
lstrip (c ∷ cs) = let rest = lstrip cs in if is_space c then rest else c ∷ cs

abbrev pub cons_kept : ℕ → Text → Text
cons_kept c [] = if is_space c then [] else c ∷ []
cons_kept c (x ∷ rest) = c ∷ x ∷ rest

unfoldable pub rstrip : Text → Text
unfolding is_space
rstrip [] = []
rstrip (c ∷ cs) = cons_kept c (rstrip cs)

-- `text.strip()`
unfoldable pub strip : Text → Text
unfolding lstrip rstrip
strip t = lstrip (rstrip t)

-- The state of `MethodArgsParser.split`.
pub record Scanner : Type 0 where
  pub in_arg : Bool
  pub func : Text
  pub arg : Text

abbrev pub start : Scanner
start = record { in_arg = false; func = []; arg = [] }

-- One character: what is yielded, and the new state. A comma behind no name changes nothing.
unfoldable pub scan_char : Scanner → ℕ → List (Text × Text) × Scanner
scan_char s c =
    if s.in_arg
    then if c == b')'
      then ([], record s { in_arg = false })
      else ([], record s { arg = s.arg ++ c ∷ [] })
    else if c == b'('
    then ([], record s { in_arg = true })
    else if c == b','
    then if is_empty s.func then ([], s) else ((s.func, s.arg) ∷ [], start)
    else ([], record s { func = s.func ++ c ∷ [] })

unfoldable pub split_from : Scanner → Text → List (Text × Text)
unfolding scan_char
split_from s [] = if s.in_arg || is_empty s.func then [] else (s.func, s.arg) ∷ []
split_from s (c ∷ cs) = let (yielded, s') = scan_char s c in yielded ++ split_from s' cs

unfoldable pub split : Text → List (Text × Text)
unfolding split_from
split method_exp = split_from start method_exp

-- The `bind_config` of an argument text: what stands before its first comma, cut at each plus sign.
-- A method without one has no such entry in its options, which is the empty list here.
unfoldable pub bind_config : Text → List Text
unfolding strip split_once split_on
bind_config arg =
    let first : Text = elim (split_once b',' arg) [ none ↦ arg | some (a, b) ↦ a ] in
    non_empty (map strip (split_on b'+' first))

-- The methods of an expression, by name in their order, with their `bind_config`.
abbrev pub Methods : Type 0
Methods = Dict Text (List Text)

-- One turn of the loop of `parse`: a name of white space only is passed over.
unfoldable pub add_method : Methods → Text × Text → Methods
unfolding bind_config strip set
add_method m (func, arg) =
    if is_empty (strip func) then m else set m (strip func) (bind_config (strip arg))

unfoldable pub add_methods : Methods → List (Text × Text) → Methods
unfolding add_method
add_methods m [] = m
add_methods m (pair ∷ rest) = add_methods (add_method m pair) rest

unfoldable pub parse : Text → Methods
unfolding add_methods split
parse method_exp = add_methods [] (split method_exp)

pub record TaskObj : Type 0 where
  pub task_key : Text
  pub config : List Text
  pub join : List Methods

-- `parse_task_exp`: `none` is the IndexError of `.pop(0)` on an expression that names no method.
unfoldable pub main_method : Methods → List Text → Option TaskObj
unfolding parse
main_method [] joins = none
main_method ((key, config) ∷ others) joins =
    some (record { task_key = key; config = config; join = map parse joins })

abbrev pub head_parse : List Text → Option TaskObj
head_parse [] = none
head_parse (main_key ∷ joins) = main_method (parse main_key) joins

unfoldable pub parse_task_exp : Text → Option TaskObj
unfolding main_method split_on
parse_task_exp task_exp = head_parse (split_on b'~' task_exp)

-- `text.find(c)`, where it is above 0: a first character does not count.
unfoldable pub find_from : ℕ → ℕ → Text → Option ℕ
find_from c i [] = none
find_from c i (x ∷ t) = let later = find_from c (suc i) t in if x == c then some i else later

abbrev pub cut_at : Option ℕ → ℕ → ℕ
cut_at none pos = pos
cut_at (some i) pos = if ltb 0 i then min pos i else pos

-- `base_task_key`: the expression before its first `~` or `(`.
unfoldable pub base_task_key : Text → Text
unfolding find_from
base_task_key t =
    let first = cut_at (find_from b'~' 0 t) (length t) in take (cut_at (find_from b'(' 0 t) first) t
