-- ===== src/AutoYml/TaskTree/Normal.antt =====
-- The links of a normal form are those that its node states.
use smartlibs.Prelude.{
  List, [], ◌∷◌, ◌≡◌, refl, sym, ap, ◌∙◌, ◌⊎◌, Bool, true, false, not, ◌&&◌, ◌||◌, contains, Option,
  none, some, ◌==◌, arith, Eq-nat, Eq-list, list_eq_iff, Bool-cases, Option-cases, inl, inr,
}
use smartlibs.Text.{Text}
use smartlibs.Dict.{Dict, get, set}
use smartlibs.TaskFinder.{is_private_key}
use smartlibs.TaskExp.{TaskObj}
use smartlibs.Dag.{has_pair, add_pair}
use smartlibs.Dag.Declared.{has_pair-add_pair}
use smartlibs.AutoYml.TaskTree.{
  RunObj, TreeNode, task_at, link_all, normalize_tree_task, add_next_keys, add_prev, add_all,
  unlinked, gather_tasks, normalize_tree_node,
}
use smartlibs.AutoYml.TaskTree.Links.{
  contains-successors, last_before-has_pair, task_at-set, link_all-task_at,
}

module _ {O : Type 0} (merge_opts : TaskObj → O → O) where
  -- A task of the node says that `p` comes before `k`, by its own `prev` or `next`.
  abbrev pub stated_by : Option (Text × RunObj O) → Text → Text → Bool
  stated_by none p k = false
  stated_by (some (task_key, o)) p k =
      elim o.prev [ none ↦ false | some prev ↦ prev == p && task_key == k ]
      || (task_key == p && contains k o.next)

  abbrev pub stated : Dict Text (RunObj O) → Text → Text → Bool
  stated [] p k = false
  stated ((sub_key, run_obj) ∷ more) p k =
      (not (is_private_key sub_key)
        && stated_by (normalize_tree_task merge_opts sub_key run_obj) p k)
      || stated more p k

  has_pair-add_next_keys :
      (task_key : Text) (next : List Text) (s : List (Text × Text)) (p k : Text)
      → has_pair (add_next_keys task_key next s) p k
        ≡ (has_pair s p k || task_key == p && contains k next)
  unfolding add_next_keys
  has_pair-add_next_keys task_key [] s p k = ground arith
  has_pair-add_next_keys task_key (n ∷ next) s p k = ground (
    arith,
    has_pair-add_next_keys task_key next (add_pair s task_key n) p k,
    has_pair-add_pair s task_key n p k,
    list_eq_iff n k,
    list_eq_iff k n,
  )

  has_pair-add_all :
      (l s : List (Text × Text)) (p k : Text)
      → has_pair (add_all l s) p k ≡ (has_pair s p k || has_pair l p k)
  unfolding add_all
  has_pair-add_all [] s p k = ground arith
  has_pair-add_all ((i, j) ∷ l) s p k =
      ground (arith, has_pair-add_all l (add_pair s i j) p k, has_pair-add_pair s i j p k)

  has_pair-add_prev :
      (prev : Option Text) (task_key : Text) (s : List (Text × Text)) (p k : Text)
      → has_pair (add_prev prev task_key s) p k
        ≡ (has_pair s p k || (elim prev [ none ↦ false | some t ↦ t == p && task_key == k ]))
  has_pair-add_prev none task_key s p k = ground arith
  has_pair-add_prev (some t) task_key s p k = has_pair-add_pair s t task_key p k

  -- The tasks that are not private have no links.
  abbrev Cleared : O → Dict Text (RunObj O) → Type 0
  Cleared no_opts tree =
      (p : Text)
      → is_private_key p ≡ false
      → ((task_at no_opts tree p).next ≡ []) × ((task_at no_opts tree p).prev ≡ none)

  set-Cleared :
      (no_opts : O) (tree : Dict Text (RunObj O)) (key : Text) (o : RunObj O) (p : Text)
      → Cleared no_opts tree
      → is_private_key p ≡ false
      → (is_private_key key ≡ true) ⊎ ((o.next ≡ []) × (o.prev ≡ none))
      → ((task_at no_opts (set tree key o) p).next ≡ [])
        × ((task_at no_opts (set tree key o) p).prev ≡ none)
  set-Cleared no_opts tree key o p c public clear =
      let t = task_at-set no_opts tree key p o in
      let old = c p public in
      elim (Bool-cases (key == p)) [
        | inr e ↦ rw (t, e) old
        | inl e ↦ elim clear [
          | inl private ↦
              absurd (ground (arith, private, public, ap is_private_key ((list_eq_iff key p).0 e)))
          | inr bare ↦ rw (t, e) bare
        ]
      ]

  gather_tasks_lem :
      (no_opts : O) (tasks tree tree2 : Dict Text (RunObj O)) (s s2 : List (Text × Text))
      → gather_tasks merge_opts tasks tree s ≡ some (tree2, s2)
      → Cleared no_opts tree
      → Cleared no_opts tree2
        × ((p k : Text) → has_pair s2 p k ≡ (has_pair s p k || stated tasks p k))
  unfolding gather_tasks
  gather_tasks_lem no_opts [] tree tree2 s s2 h c =
      let e1 : tree2 ≡ tree = ground (arith, h) in
      let e2 : s2 ≡ s = ground (arith, h) in
      (λ p public. rw (e1, task_at) (c p public), λ p k. rw e2 (ground arith))
  gather_tasks_lem no_opts ((sub_key, r) ∷ more) tree tree2 s s2 h c =
      elim (Bool-cases (is_private_key sub_key)) [
        | inl private ↦
            (let ih =
                gather_tasks_lem no_opts more (set tree sub_key r) tree2 s s2
                  (rw (private, gather_tasks) at h)
                  (λ p public. set-Cleared no_opts tree sub_key r p c public (inl private)) in
              (ih.0, λ p k. ground (arith, private, ih.1 p k)))
        | inr public ↦ (elim (Option-cases (normalize_tree_task merge_opts sub_key r)) [
          | inl e ↦ let bad = rw (public, e, gather_tasks) at h in absurd (cc bad)
          | inr ((task_key, o), e) ↦
              (let s1 = add_prev o.prev task_key s in
                let ih =
                  gather_tasks_lem no_opts more (set tree task_key (unlinked o)) tree2
                    (add_next_keys task_key o.next s1) s2 (rw (public, e, gather_tasks) at h)
                    (λ p pub_p.
                      set-Cleared no_opts tree task_key (unlinked o) p c pub_p
                        (inr (refl, refl))) in
                (
                  ih.0,
                  λ p k.
                      rw (public, e)
                        (ground (
                          arith,
                          ih.1 p k,
                          has_pair-add_next_keys task_key o.next s1 p k,
                          has_pair-add_prev o.prev task_key s p k,
                        )),
                ))
        ])
      ]

  -- The normal form of a node without links of its private nodes: the `next` of a task that is not
  -- private lists just the keys that are stated, by the `__dependance__` of the node or by the `prev`
  -- or `next` of some task, to come after its own key; and its `prev`, where it has one, is stated to
  -- come before it.
  pub normalize_tree_node-links :
      (no_opts : O) (node : TreeNode O) (tree : Dict Text (RunObj O))
      → normalize_tree_node merge_opts no_opts node ≡ some tree
      → (p k : Text) → is_private_key p ≡ false
      → (contains k (task_at no_opts tree p).next
          ≡ (has_pair node.dependance p k || stated node.tasks p k))
        × ((q : Text)
            → (task_at no_opts tree p).prev ≡ some q
            → (has_pair node.dependance q p || stated node.tasks q p) ≡ true)
  unfolding normalize_tree_node get
  normalize_tree_node-links no_opts node tree h p k public =
      elim (Option-cases (gather_tasks merge_opts node.tasks [] (add_all node.dependance []))) [
        | inl e ↦ let bad = rw (e, normalize_tree_node) at h in absurd (cc bad)
        | inr ((t, s), e) ↦
            (let made = rw (e, normalize_tree_node) at h in
              let same : tree ≡ link_all no_opts s t = ground (arith, made) in
              let (clear, pairs) =
                gather_tasks_lem no_opts node.tasks [] t (add_all node.dependance []) s e
                  (λ q h. (refl, refl)) in
              let said : (i j : Text)
                  → has_pair s i j ≡ (has_pair node.dependance i j || stated node.tasks i j) =
                λ i j. ground (arith, pairs i j, has_pair-add_all node.dependance [] i j) in
              let (n, v, o) = link_all-task_at no_opts s t p in
              let (no_next, no_prev) = clear p public in
              let n' = rw no_next at n in
              let v' = rw no_prev at v in
              (
                rw same (ap (contains k) n' ∙ (contains-successors s p k ∙ said p k)),
                λ q at_q. sym (said q p) ∙ last_before-has_pair s p q (sym v' ∙ rw same at at_q),
              ))
      ]
