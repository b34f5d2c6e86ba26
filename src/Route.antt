-- ===== src/Route.antt =====
-- smart/rest/app/route_manage.py: the table of routes and the search for a request's handler.
-- What a decorated class and a handler function are does not matter: they are the types C and H.
mod Table
pub mod Search
mod Samples
use smartlibs.Prelude.{
  ℕ, zero, suc, List, [], ◌∷◌, ◌++◌, Bool, true, false, ◌||◌, ◌&&◌, Option, none, some, ◌==◌,
  if◌then◌else◌, length, take, drop, contains, Eq-nat, Eq-list,
}
use smartlibs.Text.{Text, split_on, non_empty}
use smartlibs.Dict.{Dict, get, set}
use smartlibs.Url.{
  Captures, Reply, hit, miss, index_error, url_path_match, split_pathes_to_fix_and_pattern, star,
}

abbrev pub or_else {ℓ} : {A : Type ℓ} → Option A → A → A
or_else none d = d
or_else (some a) d = a

pub record RouteHandlerMeta (H : Type 0) : Type 0 where
  pub handler : H
  pub path : Text
  -- `none` is Python's None: every method.
  pub http_methods : Option (List Text)

pub record RouterMeta (C H : Type 0) : Type 0 where
  pub service_cls : C
  pub route_handlers : List (RouteHandlerMeta H)
  pub path_prefix : Option Text

pub record RouterHandlerFullMeta (C H : Type 0) : Type 0 where
  pub service_cls : C
  pub route_handler : RouteHandlerMeta H
  pub fix_pathes : List Text
  pub pattern_pathes : Option (List Text)

-- The values that `find_handler` returns; it raises where the match does.
pub data SearchResult (C H : Type 0) : Type 0 where
  not_found : SearchResult C H
  found : RouterHandlerFullMeta C H → Captures → SearchResult C H
  raised : SearchResult C H

abbrev pub HandlersMap : Type 0 → Type 0 → Type 0
HandlersMap C H = Dict (List Text) (List (RouterHandlerFullMeta C H))

unfoldable pub match_http_method : Text → Option (List Text) → Bool
match_http_method target none = true
match_http_method target (some methods) = contains star methods || contains target methods

module _ {C H : Type 0} where
  -- One route of a service, with its path split at the first pattern part.
  unfoldable pub full_meta : RouterMeta C H → RouteHandlerMeta H → RouterHandlerFullMeta C H
  full_meta router meta =
      let prefix = split_on b'/' (or_else router.path_prefix []) in
      let pathes = non_empty (prefix ++ split_on b'/' meta.path) in
      let (fix, pattern) = split_pathes_to_fix_and_pattern pathes in
      record {
        service_cls = router.service_cls;
        route_handler = meta;
        fix_pathes = fix;
        pattern_pathes = pattern;
      }

  -- `dict_get_or_set(self.pathes_handlers_map, (fix_pathes,), []).append(handler)`
  unfoldable pub add_handler : HandlersMap C H → RouterHandlerFullMeta C H → HandlersMap C H
  unfolding get set
  add_handler table h = set table h.fix_pathes (or_else (get table h.fix_pathes) [] ++ h ∷ [])

  unfoldable pub init_router :
      RouterMeta C H → List (RouteHandlerMeta H) → HandlersMap C H → HandlersMap C H
  unfolding add_handler full_meta
  init_router router [] table = table
  init_router router (meta ∷ metas) table =
      init_router router metas (add_handler table (full_meta router meta))

  unfoldable pub init_routers : List (RouterMeta C H) → HandlersMap C H → HandlersMap C H
  unfolding init_router
  init_routers [] table = table
  init_routers (router ∷ routers) table =
      init_routers routers (init_router router router.route_handlers table)

  -- `RouteManage.init`: the modules of the application, each with its registered routers.
  unfoldable pub init :
      List Text → Dict Text (List (RouterMeta C H)) → HandlersMap C H → HandlersMap C H
  unfolding init_routers get
  init [] module_routers_map table = table
  init (mod_path ∷ mod_paths) module_routers_map table =
      init mod_paths module_routers_map
        (init_routers (or_else (get module_routers_map mod_path) []) table)

  -- What the loop does with one handler: return it, raise, or go on.
  unfoldable pub consider :
      RouterHandlerFullMeta C H → Reply → Bool → SearchResult C H → SearchResult C H
  consider h (index_error, caps) accepted later = raised
  consider h (miss, caps) accepted later = later
  consider h (hit, caps) true later = found h caps
  consider h (hit, caps) false later = later

  -- The loop over the handlers of one fixed path.
  unfoldable pub try_handlers :
      List Text → Text → List (RouterHandlerFullMeta C H) → SearchResult C H
  unfolding url_path_match match_http_method consider
  try_handlers to_match method [] = not_found
  try_handlers to_match method (h ∷ hs) =
      let later = try_handlers to_match method hs in
      consider h (url_path_match to_match (or_else h.pattern_pathes []) [])
        (match_http_method method h.route_handler.http_methods) later

  -- The loop goes on to the next shorter fixed path only where nothing was found.
  unfoldable pub or_shorter : SearchResult C H → SearchResult C H → SearchResult C H
  or_shorter not_found shorter = shorter
  or_shorter r shorter = r

  -- The loop over the length i of the fixed path, from the longest down to 0.
  unfoldable pub find_from : HandlersMap C H → List Text → Text → ℕ → SearchResult C H
  unfolding try_handlers get or_shorter
  find_from table pathes method zero = try_handlers pathes method (or_else (get table []) [])
  find_from table pathes method (suc i) =
      let shorter = find_from table pathes method i in
      or_shorter
        (try_handlers (drop (suc i) pathes) method (or_else (get table (take (suc i) pathes)) []))
        shorter

  unfoldable pub find_handler : HandlersMap C H → Text → Text → SearchResult C H
  unfolding find_from
  find_handler table path method =
      let pathes = non_empty (split_on b'/' path) in find_from table pathes method (length pathes)
