-- ===== src/AutoYml/Import/Once.antt =====
-- The imports come to an end, whatever files import one another, and each file is loaded once.
use smartlibs.Prelude.{
  ℕ, zero, suc, ◌<◌, List, [], ◌∷◌, ◌++◌, ◌≡◌, refl, ◌⊎◌, true, false, Option, none, some, ◌==◌,
  arith, Eq-nat, Eq-list, list_eq_iff, contains, contains-append, missing, missing-le, missing-lt,
  contains-more, is_empty, Bool-cases, inl, inr,
}
use smartlibs.Text.{Text}
use smartlibs.Nested.{Tree, Branches, read, remove}
use smartlibs.AutoYml.Import.{
  Files, Imported, import_key, configs_key, dict_or_empty, to_load, merge_under, import_all,
  parse_import_node,
}

-- No text twice.
abbrev pub Distinct : List Text → Type 0
Distinct [] = Unit
Distinct (x ∷ xs) = (contains x xs ≡ false) × Distinct xs

Distinct-append :
    (xs : List Text) (p : Text) → Distinct xs → contains p xs ≡ false → Distinct (xs ++ p ∷ [])
Distinct-append [] p d new = (refl, tt)
Distinct-append (x ∷ xs) p d new = (
  ground (arith, d.0, new, contains-append xs p x, list_eq_iff p x),
  Distinct-append xs p d.1 (ground (arith, new)),
)

to_load-cases :
    {Ctx : Type 0} (imported : List Text) (o : Option Text × Ctx)
    → ((to_load imported o ≡ none)
        × ((path : Text) (c : Ctx)
            → o ≡ (some path, c)
            → is_empty path ≡ false
            → contains path imported ≡ true))
      ⊎ ((path : Text) × (c : Ctx) × (to_load imported o ≡ some (path, c))
          × (o ≡ (some path, c))
          × (contains path imported ≡ false))
to_load-cases imported (none, ctx) = inl (refl, λ path c h. absurd (ground (arith, h)))
to_load-cases imported (some [], ctx) = inl (refl, λ path c h full. ground (arith, h, full))
to_load-cases imported (some (x ∷ p), ctx) = elim (Bool-cases (contains (x ∷ p) imported)) [
  | inl had ↦ inl (rw had, λ path c h full. ground (arith, h, had))
  | inr new ↦ inr (x ∷ p, ctx, rw new, refl, new)
]

module _ {V Ctx : Type 0} (fs : Files V Ctx) (files : List Text) where
  open fs use {load_file, imports_of, locate, eval_path}

  -- The imports end: with the files that had been imported, no file twice, and the files that these
  -- paths lead to.
  pub record Ends (ctx : Ctx) (configs : Option (Tree V)) (i_files : List Text)
      (imported : List Text) (r : Option (Imported fs)) : Type 0 where
    pub more : List Text
    pub auto_obj : Branches V
    pub result : r ≡ some (more, auto_obj)
    pub once : Distinct more
    pub grows : (x : Text) → contains x imported ≡ true → contains x more ≡ true
    pub loaded :
        (f path : Text) (i_ctx : Ctx)
        → contains f i_files ≡ true
        → locate ctx (eval_path configs f) ≡ (some path, i_ctx)
        → is_empty path ≡ false
        → contains path more ≡ true

  abbrev pub AllIn : Type 0
  AllIn =
      (ctx i_ctx : Ctx) (f path : Text)
      → locate ctx f ≡ (some path, i_ctx)
      → contains path files ≡ true

  abbrev NodeEnds : ℕ → (Ctx → List Text → Branches V → Option (Imported fs)) → Type 0
  NodeEnds fuel node =
      (ctx : Ctx) (imported : List Text) (auto_obj : Branches V)
      → missing imported files < fuel
      → Distinct imported
      → Ends ctx (read (remove auto_obj import_key) configs_key)
          (imports_of (read auto_obj import_key)) imported (node ctx imported auto_obj)

  import_all-Ends :
      (fuel : ℕ) (node : Ctx → List Text → Branches V → Option (Imported fs))
      → AllIn
      → NodeEnds fuel node
      → (ctx : Ctx) (configs : Option (Tree V)) (i_files : List Text) (imported : List Text)
        (auto_obj : Branches V)
      → missing imported files < suc fuel
      → Distinct imported
      → Ends ctx configs i_files imported (import_all fs node ctx configs i_files imported auto_obj)
  unfolding import_all
  import_all-Ends fuel node within ok ctx configs [] imported auto_obj enough d = record {
    more = imported;
    auto_obj = auto_obj;
    result = refl;
    once = d;
    grows = λ x h. h;
    loaded = λ f path c h. absurd (cc h);
  }
  import_all-Ends fuel node within ok ctx configs (f ∷ more_files) imported auto_obj enough d =
      elim (to_load-cases imported (locate ctx (eval_path configs f))) [
        | inl (e, had) ↦
            (let ih =
                import_all-Ends fuel node within ok ctx configs more_files imported auto_obj enough
                  d in
              record {
                more = ih.more;
                auto_obj = ih.auto_obj;
                result = rw (e, import_all) ih.result;
                once = ih.once;
                grows = ih.grows;
                loaded = λ g path c h at_g full. elim (Bool-cases (g == f)) [
                  | inl same ↦
                      ih.grows path (had path c (rw ((list_eq_iff g f).0 same) at at_g) full)
                  | inr other ↦ ih.loaded g path c (ground (arith, h, other)) at_g full
                ];
              })
        | inr (path, i_ctx, e, at_f, new) ↦
            (let fits = missing-lt files imported path (within ctx i_ctx _ path at_f) new in
              let sub =
                ok i_ctx (imported ++ path ∷ []) (dict_or_empty (load_file path)) (omega arith)
                  (Distinct-append imported path d new) in
              let kept : (x : Text) → contains x imported ≡ true → contains x sub.more ≡ true =
                λ x h. sub.grows x (contains-more imported path x h) in
              let le = missing-le files imported sub.more kept in
              let ih =
                import_all-Ends fuel node within ok ctx configs more_files sub.more
                  (merge_under fs sub.auto_obj auto_obj) (omega arith) sub.once in
              record {
                more = ih.more;
                auto_obj = ih.auto_obj;
                result = rw (e, sub.result, import_all) ih.result;
                once = ih.once;
                grows = λ x h. ih.grows x (kept x h);
                loaded = λ g p c h at_g full. elim (Bool-cases (g == f)) [
                  | inl same ↦ ih.grows p (
                      sub.grows p
                        (here imported path p i_ctx c at_f (rw ((list_eq_iff g f).0 same) at at_g)))
                  | inr other ↦ ih.loaded g p c (ground (arith, h, other)) at_g full
                ];
              })
      ]
    where
      here :
          (imported : List Text) (path p : Text) (i_ctx c : Ctx) {o : Option Text × Ctx}
          → o ≡ (some path, i_ctx)
          → o ≡ (some p, c)
          → contains p (imported ++ path ∷ []) ≡ true
      here imported path p i_ctx c h k =
          ground (arith, h, k, contains-append imported path p, list_eq_iff path p)

  -- From a finite set of files that the paths lead to, with fuel for those that have not been imported,
  -- the imports of a node come to an end: no file has been loaded twice, and every file that the node
  -- itself imports has been loaded, as have those from before.
  pub parse_import_node-Ends :
      (fuel : ℕ) (ctx : Ctx) (imported : List Text) (auto_obj : Branches V)
      → AllIn
      → missing imported files < fuel
      → Distinct imported
      → Ends ctx
          (read (remove auto_obj import_key) configs_key)
          (imports_of (read auto_obj import_key))
          imported
          (parse_import_node fs fuel ctx imported auto_obj)
  unfolding parse_import_node
  parse_import_node-Ends zero ctx imported auto_obj within enough d = absurd (omega arith)
  parse_import_node-Ends (suc fuel) ctx imported auto_obj within enough d =
      import_all-Ends fuel (parse_import_node fs fuel) within
        (λ c i a m dd. parse_import_node-Ends fuel c i a within m dd) ctx
        (read (remove auto_obj import_key) configs_key) (imports_of (read auto_obj import_key))
        imported (remove auto_obj import_key) enough d
