-- ===== src/Route/Search.antt =====
-- What `find_handler` returns, for any table.
use smartlibs.Prelude.{
  ℕ, zero, suc, List, [], ◌∷◌, ◌++◌, ◌≡◌, ◌≢◌, refl, All, ◌≤◌, ◌<◌, Bool, true, false, arith,
  length, take, drop, contains, Eq-nat, Eq-list, ap,
}
use native.Mathlib.Decide.{ℕ_discrete}
use smartlibs.Text.{Text, split_on, non_empty}
use smartlibs.Dict.{get}
use smartlibs.Url.Single.{single-ne-index_error}
use smartlibs.Url.{Captures, Reply, hit, miss, index_error, double_star, url_path_match}
use smartlibs.Route.{
  RouterHandlerFullMeta, SearchResult, not_found, found, raised, HandlersMap, match_http_method,
  consider, or_shorter, try_handlers, find_from, find_handler, or_else,
}

module _ {C H : Type 0} where
  -- The handler's pattern hits the rest of the path, and it accepts the method.
  abbrev pub Serves : List Text → Text → RouterHandlerFullMeta C H → Captures → Type 0
  Serves rest method h caps =
      (url_path_match rest (or_else h.pattern_pathes []) [] ≡ (hit, caps))
      × (match_http_method method h.route_handler.http_methods ≡ true)

  -- It does not answer: it misses, or another method is asked for.
  abbrev pub Declines : List Text → Text → RouterHandlerFullMeta C H → Type 0
  Declines rest method h =
      ((url_path_match rest (or_else h.pattern_pathes []) []).0 ≢ index_error)
      × ((caps : Captures) → ¬ Serves rest method h caps)

  -- The first handler of the list that serves, and those before it decline.
  pub record FirstServing (rest : List Text) (method : Text) (hs : List (RouterHandlerFullMeta C H))
      (h : RouterHandlerFullMeta C H) (caps : Captures) : Type 0 where
    pub before : List (RouterHandlerFullMeta C H)
    pub after : List (RouterHandlerFullMeta C H)
    pub split : hs ≡ before ++ (h ∷ after)
    pub skipped : All (Declines rest method) before
    pub serves : Serves rest method h caps

  -- The verdict on the handlers of one fixed path, branch by branch.
  abbrev pub Explains :
      List Text → Text → List (RouterHandlerFullMeta C H) → SearchResult C H → Type 0
  Explains rest method hs not_found = All (Declines rest method) hs
  Explains rest method hs (found h caps) = FirstServing rest method hs h caps
  Explains rest method hs raised = Unit

  module _ (rest : List Text) (method : Text) (h : RouterHandlerFullMeta C H)
      (hs : List (RouterHandlerFullMeta C H)) where
    -- One more handler in front that declines leaves the verdict as it is.
    Explains-cons :
        (r : SearchResult C H)
        → Declines rest method h
        → Explains rest method hs r
        → Explains rest method (h ∷ hs) r
    Explains-cons not_found d e = (d, e)
    Explains-cons raised d e = tt
    Explains-cons (found g caps) d e = record {
      before = h ∷ e.before;
      after = e.after;
      split = ap (λ l. h ∷ l) e.split;
      skipped = (d, e.skipped);
      serves = e.serves;
    }

    consider-Explains :
        (r : Reply) (accepted : Bool) (later : SearchResult C H)
        → url_path_match rest (or_else h.pattern_pathes []) [] ≡ r
        → match_http_method method h.route_handler.http_methods ≡ accepted
        → Explains rest method hs later
        → Explains rest method (h ∷ hs) (consider h r accepted later)
    unfolding consider
    consider-Explains (index_error, caps) accepted later e m rest_of = tt
    consider-Explains (miss, caps) accepted later e m rest_of =
        Explains-cons later (cc, λ c s. cc) rest_of
    consider-Explains (hit, caps) true later e m rest_of = record {
      before = [];
      after = hs;
      split = refl;
      skipped = tt;
      serves = (e, m);
    }
    consider-Explains (hit, caps) false later e m rest_of =
        Explains-cons later (cc, λ c s. cc) rest_of

  try_handlers-Explains :
      (rest : List Text) (method : Text) (hs : List (RouterHandlerFullMeta C H))
      → Explains rest method hs (try_handlers rest method hs)
  unfolding try_handlers
  try_handlers-Explains rest method [] = tt
  try_handlers-Explains rest method (h ∷ hs) =
      consider-Explains rest method h hs _ _ _ refl refl (try_handlers-Explains rest method hs)

  abbrev at_level : HandlersMap C H → List Text → ℕ → List (RouterHandlerFullMeta C H)
  at_level table pathes i = or_else (get table (take i pathes)) []

  -- No handler that is registered under the first i parts answers the request.
  abbrev pub NoneAt : HandlersMap C H → List Text → Text → ℕ → Type 0
  NoneAt table pathes method i =
      All (Declines (drop i pathes) method) (or_else (get table (take i pathes)) [])

  -- A found handler stands under the first i parts, is the first there to serve, and no handler
  -- under a longer fixed path does; and nothing is found only where no handler serves at all.
  abbrev pub Correct : HandlersMap C H → List Text → Text → ℕ → SearchResult C H → Type 0
  Correct table pathes method n not_found = (i : ℕ) → i ≤ n → NoneAt table pathes method i
  Correct table pathes method n (found h caps) =
      (i : ℕ) × (i ≤ n)
      × FirstServing (drop i pathes) method (or_else (get table (take i pathes)) []) h caps
      × ((j : ℕ) → i < j → j ≤ n → NoneAt table pathes method j)
  Correct table pathes method n raised = Unit

  module _ (table : HandlersMap C H) (pathes : List Text) (method : Text) where
    level_zero :
        (r : SearchResult C H)
        → Explains pathes method (or_else (get table []) []) r
        → Correct table pathes method 0 r
    level_zero not_found e = none_at_zero
      where
        none_at_zero : (i : ℕ) → i ≤ 0 → NoneAt table pathes method i
        none_at_zero zero le = e
        none_at_zero (suc i) le = absurd (omega arith)
    level_zero (found h caps) e = (0, omega arith, e, λ j a b. absurd (omega arith))
    level_zero raised e = tt

    -- The levels up to n + 1 are those up to n, and n + 1.
    one_more :
        (n : ℕ)
        → NoneAt table pathes method (suc n)
        → (i : ℕ) → (i ≤ n → NoneAt table pathes method i)
        → i ≤ suc n
        → NoneAt table pathes method i
    one_more n top i below le = elim (ℕ_discrete i (suc n)) [
      | yes e ↦ rw e top
      | no ne ↦ below (omega arith)
    ]

    or_shorter-Correct :
        (n : ℕ) (here shorter : SearchResult C H)
        → Explains (drop (suc n) pathes) method (at_level table pathes (suc n)) here
        → Correct table pathes method n shorter
        → Correct table pathes method (suc n) (or_shorter here shorter)
    unfolding or_shorter
    or_shorter-Correct n (found h caps) shorter e c =
        (suc n, omega arith, e, λ j a b. absurd (omega arith))
    or_shorter-Correct n raised shorter e c = tt
    or_shorter-Correct n not_found not_found e c = λ i le. one_more n e i (c i) le
    or_shorter-Correct n not_found raised e c = tt
    or_shorter-Correct n not_found (found h caps) e (i, le, first, above) =
        (i, omega arith, first, λ j a b. one_more n e j (above j a) b)

  find_from-Correct :
      (table : HandlersMap C H) (pathes : List Text) (method : Text) (n : ℕ)
      → Correct table pathes method n (find_from table pathes method n)
  unfolding find_from
  find_from-Correct table pathes method zero =
      level_zero table pathes method _ (try_handlers-Explains pathes method _)
  find_from-Correct table pathes method (suc n) =
      or_shorter-Correct table pathes method n _ _
        (try_handlers-Explains (drop (suc n) pathes) method _)
        (find_from-Correct table pathes method n)

  -- A search that does not raise returns the first serving handler of the longest fixed path that
  -- has one, with its captures, and returns nothing only where no registered handler serves.
  pub find_handler-Correct :
      (table : HandlersMap C H) (path method : Text)
      → Correct table
          (non_empty (split_on b'/' path))
          method
          (length (non_empty (split_on b'/' path)))
          (find_handler table path method)
  unfolding find_handler
  find_handler-Correct table path method = find_from-Correct table _ method _

  -- The pattern has no `**`.
  abbrev pub PlainHandler : RouterHandlerFullMeta C H → Type 0
  PlainHandler h = contains double_star (or_else h.pattern_pathes []) ≡ false

  module _ (method : Text) where
    consider-ne-raised :
        (h : RouterHandlerFullMeta C H) (r : Reply) (accepted : Bool) (later : SearchResult C H)
        → r.0 ≢ index_error
        → later ≢ raised
        → consider h r accepted later ≢ raised
    unfolding consider
    consider-ne-raised h (index_error, caps) accepted later a b = absurd (a refl)
    consider-ne-raised h (miss, caps) accepted later a b = b
    consider-ne-raised h (hit, caps) true later a b = cc
    consider-ne-raised h (hit, caps) false later a b = b

    try_handlers-ne-raised :
        (rest : List Text) (hs : List (RouterHandlerFullMeta C H))
        → All PlainHandler hs
        → try_handlers rest method hs ≢ raised
    unfolding try_handlers
    try_handlers-ne-raised rest [] plain = cc
    try_handlers-ne-raised rest (h ∷ hs) plain =
        consider-ne-raised h _ _ _
          (single-ne-index_error rest (or_else h.pattern_pathes []) plain.0)
          (try_handlers-ne-raised rest hs plain.1)

    or_shorter-ne-raised :
        (here shorter : SearchResult C H)
        → here ≢ raised
        → shorter ≢ raised
        → or_shorter here shorter ≢ raised
    unfolding or_shorter
    or_shorter-ne-raised not_found shorter a b = b
    or_shorter-ne-raised raised shorter a b = a
    or_shorter-ne-raised (found h caps) shorter a b = a

    module _ (table : HandlersMap C H)
        (plain : (key : List Text) → All PlainHandler (or_else (get table key) [])) where
      find_from-ne-raised : (pathes : List Text) (n : ℕ) → find_from table pathes method n ≢ raised
      unfolding find_from
      find_from-ne-raised pathes zero = try_handlers-ne-raised pathes _ (plain [])
      find_from-ne-raised pathes (suc n) =
          or_shorter-ne-raised _ _
            (try_handlers-ne-raised (drop (suc n) pathes) _ (plain (take (suc n) pathes)))
            (find_from-ne-raised pathes n)

  -- Where no registered pattern has a `**`, the search never raises.
  pub find_handler-ne-raised :
      (table : HandlersMap C H) (path method : Text)
      → ((key : List Text) → All PlainHandler (or_else (get table key) []))
      → find_handler table path method ≢ raised
  unfolding find_handler
  find_handler-ne-raised table path method plain = find_from-ne-raised method table plain _ _
