-- ===== src/Route/Table.antt =====
-- The table holds, under each fixed path, the handlers of that path in the order of registration.
use smartlibs.Prelude.{
  List, [], ◌∷◌, ◌++◌, ◌≡◌, refl, arith, ◌==◌, Eq-nat, Eq-list, list_eq_iff, append_assoc,
  append-nil, select, sym, ap, ◌∙◌,
}
use smartlibs.Text.{Text}
use smartlibs.Dict.{Dict, get, get-set}
use smartlibs.Route.{
  RouteHandlerMeta, RouterMeta, RouterHandlerFullMeta, HandlersMap, full_meta, add_handler,
  init_router, init_routers, init, or_else,
}

module _ {C H : Type 0} where
  abbrev pub under : List Text → List (RouterHandlerFullMeta C H) → List (RouterHandlerFullMeta C H)
  under key hs = select (λ h. h.fix_pathes == key) hs

  abbrev pub at_key : HandlersMap C H → List Text → List (RouterHandlerFullMeta C H)
  at_key table key = or_else (get table key) []

  -- The handlers that the decorators registered, in the order in which `init` meets them.
  abbrev pub of_router :
      RouterMeta C H → List (RouteHandlerMeta H) → List (RouterHandlerFullMeta C H)
  of_router router [] = []
  of_router router (meta ∷ metas) = full_meta router meta ∷ of_router router metas

  abbrev pub of_routers : List (RouterMeta C H) → List (RouterHandlerFullMeta C H)
  of_routers [] = []
  of_routers (router ∷ routers) = of_router router router.route_handlers ++ of_routers routers

  abbrev pub registered :
      List Text → Dict Text (List (RouterMeta C H)) → List (RouterHandlerFullMeta C H)
  registered [] modules = []
  registered (m ∷ ms) modules = of_routers (or_else (get modules m) []) ++ registered ms modules

  add_handler_lem :
      (table : HandlersMap C H) (h : RouterHandlerFullMeta C H) (key : List Text)
      → at_key (add_handler table h) key ≡ at_key table key ++ under key (h ∷ [])
  unfolding add_handler
  add_handler_lem table h key = ground (
    arith,
    get-set table h.fix_pathes key (at_key table h.fix_pathes ++ h ∷ []),
    list_eq_iff h.fix_pathes key,
    append-nil (at_key table key),
  )

  under-append :
      (key : List Text) (xs ys : List (RouterHandlerFullMeta C H))
      → under key (xs ++ ys) ≡ under key xs ++ under key ys
  under-append key [] ys = refl
  under-append key (x ∷ xs) ys = ground (arith, under-append key xs ys)

  init_router_lem :
      (router : RouterMeta C H) (metas : List (RouteHandlerMeta H)) (table : HandlersMap C H)
      (key : List Text)
      → at_key (init_router router metas table) key
        ≡ at_key table key ++ under key (of_router router metas)
  unfolding init_router
  init_router_lem router [] table key = sym (append-nil _)
  init_router_lem router (meta ∷ metas) table key =
      let h = full_meta router meta in
      let hs = of_router router metas in
      init_router_lem router metas (add_handler table h) key
      ∙ (ap (λ l. l ++ under key hs) (add_handler_lem table h key)
          ∙ (append_assoc (at_key table key) (under key (h ∷ [])) (under key hs)
              ∙ ap (λ l. at_key table key ++ l) (sym (under-append key (h ∷ []) hs))))

  init_routers_lem :
      (routers : List (RouterMeta C H)) (table : HandlersMap C H) (key : List Text)
      → at_key (init_routers routers table) key ≡ at_key table key ++ under key (of_routers routers)
  unfolding init_routers
  init_routers_lem [] table key = sym (append-nil _)
  init_routers_lem (router ∷ routers) table key =
      let hs = of_router router router.route_handlers in
      let later = of_routers routers in
      init_routers_lem routers (init_router router router.route_handlers table) key
      ∙ (ap (λ l. l ++ under key later) (init_router_lem router router.route_handlers table key)
          ∙ (append_assoc (at_key table key) (under key hs) (under key later)
              ∙ ap (λ l. at_key table key ++ l) (sym (under-append key hs later))))

  init_from :
      (mods : List Text) (modules : Dict Text (List (RouterMeta C H))) (table : HandlersMap C H)
      (key : List Text)
      → at_key (init mods modules table) key
        ≡ at_key table key ++ under key (registered mods modules)
  unfolding init
  init_from [] modules table key = sym (append-nil _)
  init_from (m ∷ mods) modules table key =
      let routers = or_else (get modules m) [] in
      let hs = of_routers routers in
      let later = registered mods modules in
      init_from mods modules (init_routers routers table) key
      ∙ (ap (λ l. l ++ under key later) (init_routers_lem routers table key)
          ∙ (append_assoc (at_key table key) (under key hs) (under key later)
              ∙ ap (λ l. at_key table key ++ l) (sym (under-append key hs later))))

  -- After `init` the table has, under every fixed path, exactly the registered handlers with that
  -- fixed path, in the order in which the modules, their routers and their handlers come.
  pub init-registered :
      (mods : List Text) (modules : Dict Text (List (RouterMeta C H))) (key : List Text)
      → at_key (init mods modules []) key ≡ under key (registered mods modules)
  init-registered mods modules key = unfold get in init_from mods modules [] key
