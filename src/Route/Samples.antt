-- ===== src/Route/Samples.antt =====
-- A small application with two routes.
use smartlibs.Prelude.{
  ℕ, List, [], ◌∷◌, ◌≡◌, refl, Bool, true, false, none, some, length, All, Eq-nat, Eq-list, ◌==◌,
  if◌then◌else◌,
}
use smartlibs.Dict.{Dict, get}
use smartlibs.Text.{Text, split_on, non_empty}
use smartlibs.Url.{split_pathes_to_fix_and_pattern}
use smartlibs.Route.{
  RouterMeta, RouterHandlerFullMeta, SearchResult, not_found, found, raised, HandlersMap, init,
  find_handler, or_else,
}
use smartlibs.Route.Table.{at_key, under, registered, init-registered}
use smartlibs.Route.Search.{Correct, PlainHandler, find_handler-Correct}

-- "a/{n}" and "a/b", both for "GET".
abbrev router : RouterMeta ℕ ℕ
router = record {
  service_cls = 1;
  route_handlers =
      record {
        handler = 2;
        path = b'a' ∷ b'/' ∷ b'{' ∷ b'n' ∷ b'}' ∷ [];
        http_methods = some ((b'G' ∷ []) ∷ []);
      }
      ∷ record { handler = 3; path = b'/' ∷ b'a' ∷ b'/' ∷ b'b' ∷ []; http_methods = none }
      ∷ [];
  path_prefix = none;
}

abbrev modules : Dict Text (List (RouterMeta ℕ ℕ))
modules = (b'm' ∷ [], router ∷ []) ∷ []

table : HandlersMap ℕ ℕ
unfolding init
table = init ((b'm' ∷ []) ∷ []) modules []

abbrev key : List Text
key = (b'a' ∷ []) ∷ []

abbrev path : Text
path = b'/' ∷ b'a' ∷ b'/' ∷ b'c' ∷ []

registered_example :
    at_key (init ((b'm' ∷ []) ∷ []) modules []) key
    ≡ under key (registered ((b'm' ∷ []) ∷ []) modules)
registered_example = init-registered ((b'm' ∷ []) ∷ []) modules key

-- The handler is found by the capture, with the part that it takes.
abbrev handler_of : SearchResult ℕ ℕ → List ℕ
handler_of not_found = []
handler_of (found h caps) = h.route_handler.handler ∷ length caps ∷ []
handler_of raised = 0 ∷ []

search : handler_of (find_handler table path (b'G' ∷ [])) ≡ 2 ∷ 1 ∷ []
unfolding table find_handler split_on split_pathes_to_fix_and_pattern
search = refl

wrong_method : find_handler table path (b'P' ∷ []) ≡ not_found
unfolding table find_handler split_on split_pathes_to_fix_and_pattern
wrong_method = refl

search_example :
    Correct table
      (non_empty (split_on b'/' path))
      (b'G' ∷ [])
      (length (non_empty (split_on b'/' path)))
      (find_handler table path (b'G' ∷ []))
search_example = find_handler-Correct table path (b'G' ∷ [])

-- Whichever key is asked for, the patterns of the two routes have no `**`.
table-PlainHandler : (k : List Text) → All PlainHandler (or_else (get table k) [])
unfolding table get split_on split_pathes_to_fix_and_pattern
table-PlainHandler k = by_tests (key == k) ((b'a' ∷ []) ∷ (b'b' ∷ []) ∷ [] == k)
  where
    first : List (RouterHandlerFullMeta ℕ ℕ)
    first = or_else (get table key) []

    second : List (RouterHandlerFullMeta ℕ ℕ)
    second = or_else (get table ((b'a' ∷ []) ∷ (b'b' ∷ []) ∷ [])) []

    by_tests :
        (x y : Bool)
        → All PlainHandler (or_else (if x then some first else if y then some second else none) [])
    by_tests true y = (refl, tt)
    by_tests false true = (refl, tt)
    by_tests false false = tt
