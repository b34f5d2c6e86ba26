-- ===== src/AutoYml/TaskTree/Order.antt =====
-- The order of a tree: where no name is one character, the tasks stand after those that lead to them.
use mathlib.Core.List.{Perm, Nodup}
use smartlibs.Prelude.{
  ℕ, suc, ◌<◌, List, [], ◌∷◌, ◌≡◌, ◌≢◌, refl, ap, ◌⊎◌, Bool, true, false, ◌&&◌, ◌||◌, Option, none,
  some, ◌==◌, arith, if◌then◌else◌, Eq-nat, Eq-list, list_eq_iff, nat_eq, contains, get_elem?,
  length, Bool-cases, inl, inr, All,
}
use smartlibs.Text.{Text}
use smartlibs.Dict.{Dict, get, keys}
use smartlibs.Dag.{Item, or_empty}
use smartlibs.Dag.Declared.{declared}
use smartlibs.Dag.Sort.{sorted, index_keys}
use smartlibs.Dag.Sort.Insertion.{Precedes}
use smartlibs.Dag.Items.{iter_items, sort_item_dict}
use smartlibs.Dag.Items.Order.{sort_items-SortedItems}
use smartlibs.Dag.Items.Ordered.{sort_item_dict-same}
use smartlibs.AutoYml.TaskTree.{
  RunObj, characters, prev_characters, tree_items, tree_tool, sort_tree_node,
}

contains-characters : (t p : Text) → contains p (characters t) ≡ true → length p ≡ 1
contains-characters [] p h = absurd (cc h)
contains-characters (c ∷ t) p h = elim (Bool-cases (p == c ∷ [])) [
  | inl same ↦ ap length ((list_eq_iff p (c ∷ [])).0 same)
  | inr other ↦ contains-characters t p (ground (arith, h, other))
]

contains-prev_characters :
    (o : Option Text) (p : Text) → contains p (or_empty (prev_characters o)) ≡ true → length p ≡ 1
contains-prev_characters none p h = absurd (cc h)
contains-prev_characters (some t) p h = contains-characters t p h

long_name :
    (l : List Text) (k : Text) → All (λ n. length n ≢ 1) l → contains k l ≡ true → length k ≢ 1
long_name [] k all h = absurd (cc h)
long_name (n ∷ l) k all h = elim (Bool-cases (k == n)) [
  | inl same ↦ rw ((list_eq_iff k n).0 same) all.0
  | inr other ↦ long_name l k all.1 (ground (arith, h, other))
]

-- Names of one character come first.
abbrev long_rank : (Text → ℕ) → Text → ℕ
long_rank rank q = if nat_eq (length q) 1 then 0 else suc (rank q)

module _ {O : Type 0} where
  -- The `next` of a task `p` lists `k`.
  abbrev pub leads : Dict Text (RunObj O) → Text → Text → Bool
  leads [] p k = false
  leads ((i, o) ∷ tree) p k = (i == p && contains k o.next) || leads tree p k

  -- Neither a key nor a name in a `next` is one character.
  abbrev pub NoShort : Dict Text (RunObj O) → Type 0
  NoShort [] = Unit
  NoShort ((i, o) ∷ tree) = (length i ≢ 1) × All (λ n. length n ≢ 1) o.next × NoShort tree

  -- A dependence that the tool sees is one of a `next`, or one of a character of a `prev`.
  tree_dependance :
      (tree : Dict Text (RunObj O)) (p k : Text)
      → NoShort tree
      → declared tree_tool (tree_items tree) p k ≡ true
      → (length k ≢ 1) × ((length p ≡ 1) ⊎ ((length p ≢ 1) × (leads tree p k ≡ true)))
  unfolding tree_items
  tree_dependance [] p k long h = absurd (cc h)
  tree_dependance ((i, o) ∷ tree) p k long h =
      elim (Bool-cases (i == k && contains p (or_empty (prev_characters o.prev)))) [
        | inl by_prev ↦
            (let same : i ≡ k = ground (arith, by_prev, list_eq_iff i k) in
              (
                rw (← same) long.0,
                inl (contains-prev_characters o.prev p (ground (arith, by_prev))),
              ))
        | inr no_prev ↦ (elim (Bool-cases (i == p && contains k o.next)) [
          | inl by_next ↦
              (let same : i ≡ p = ground (arith, by_next, list_eq_iff i p) in
                (
                  long_name o.next k long.1 (ground (arith, by_next)),
                  inr (rw (← same) long.0, ground (arith, by_next)),
                ))
          | inr no_next ↦
              (let (long_k, r) =
                  tree_dependance tree p k long.2 (ground (arith, h, no_prev, no_next)) in
                (
                  long_k,
                  elim r [
                    | inl short ↦ inl short
                    | inr (long_p, later) ↦ inr (long_p, ground (arith, later))
                  ],
                ))
        ])
      ]

  long_rank-rises :
      (tree : Dict Text (RunObj O)) (rank : Text → ℕ)
      → NoShort tree
      → ((p k : Text) → leads tree p k ≡ true → rank p < rank k)
      → (p k : Text) → declared tree_tool (tree_items tree) p k ≡ true
      → long_rank rank p < long_rank rank k
  long_rank-rises tree rank long rises p k h =
      let (long_k, r) = tree_dependance tree p k long h in
      elim r [
        | inl short ↦ ground (arith, long_k, short)
        | inr (long_p, later) ↦ ground (arith, long_k, long_p, rises p k later)
      ]

  leads-declared :
      (tree : Dict Text (RunObj O)) (p k : Text)
      → leads tree p k ≡ true
      → declared tree_tool (tree_items tree) p k ≡ true
  unfolding tree_items
  leads-declared [] p k h = h
  leads-declared ((i, o) ∷ tree) p k h = ground (arith, h, leads-declared tree p k)

  -- The sorted tree: the same tasks, each behind those that lead to it.
  pub record SortedTree (tree : Dict Text (RunObj O)) : Type 0 where
    pub out : List (Text × Item Text)
    pub result : sort_tree_node tree ≡ some (sorted out)
    pub same_tasks : Perm out (iter_items (tree_items tree))
    pub in_order :
        (i j : ℕ) (x y : Text × Item Text)
        → get_elem? (iter_items (tree_items tree)) i ≡ some x
        → get_elem? (iter_items (tree_items tree)) j ≡ some y
        → get (index_keys 0 (iter_items (tree_items tree)) []) y.0 ≡ some j
        → j ≢ i
        → leads tree y.0 x.0 ≡ true
        → Precedes y x out

  -- A tree with distinct keys, in which no name is one character and no task comes before itself, as
  -- shown by a number that rises along every `next`, is sorted: the order has the same tasks, each
  -- after those whose `next` lists it.
  pub sort_tree_node-SortedTree :
      (tree : Dict Text (RunObj O)) (rank : Text → ℕ)
      → Nodup (keys (iter_items (tree_items tree)))
      → NoShort tree
      → ((p k : Text) → leads tree p k ≡ true → rank p < rank k)
      → SortedTree tree
  unfolding sort_tree_node
  sort_tree_node-SortedTree tree rank nodup long rises =
      let r =
        sort_items-SortedItems tree_tool (tree_items tree) true (long_rank rank) refl
          (long_rank-rises tree rank long rises) in
      record {
        out = r.out;
        result = tree_result tree r.out (
            sort_item_dict-same tree_tool (tree_items tree) true r.out nodup r.same_items r.result);
        same_tasks = r.same_items;
        in_order = λ i j x y at_i at_j placed other h.
            r.in_order i j x y at_i at_j placed other (leads-declared tree y.0 x.0 h);
      }
    where
      tree_result :
          (tree : Dict Text (RunObj O)) (out : List (Text × Item Text))
          → sort_item_dict tree_tool (tree_items tree) true ≡ some (sorted out)
          → sort_tree_node tree ≡ some (sorted out)
      tree_result [] out h = h
      tree_result (kv ∷ tree) out h = h
