-- ===== src/AutoYml/TaskTree/Links.antt =====
-- The `next` lists and the `prev` of a normal form are those of its dependences.
use smartlibs.Prelude.{
  List, [], ◌∷◌, ◌++◌, ◌≡◌, refl, sym, ap, ◌∙◌, ◌⊎◌, true, contains, Option, none, some, ◌==◌,
  arith, if◌then◌else◌, Eq-nat, Eq-list, list_eq_iff, append_assoc, Bool-cases, inl, inr,
  append-nil,
}
use smartlibs.Text.{Text}
use smartlibs.Dict.{Dict, set, get-set}
use smartlibs.Dag.{has_pair}
use smartlibs.AutoYml.TaskTree.{RunObj, task_at, link, link_all}

-- What comes after `p`, in order.
abbrev pub successors : List (Text × Text) → Text → List Text
successors [] p = []
successors ((i, j) ∷ dependance) p =
    let rest = successors dependance p in if i == p then j ∷ rest else rest

-- The last key that is said to come before `k`, or else what was there.
abbrev pub last_before : List (Text × Text) → Text → Option Text → Option Text
last_before [] k o = o
last_before ((i, j) ∷ dependance) k o = last_before dependance k (if j == k then some i else o)

pub contains-successors :
    (s : List (Text × Text)) (p k : Text) → contains k (successors s p) ≡ has_pair s p k
contains-successors [] p k = refl
contains-successors ((i, j) ∷ s) p k =
    ground (arith, contains-successors s p k, list_eq_iff j k, list_eq_iff k j)

last_before-or :
    (s : List (Text × Text)) (k q : Text) (o : Option Text)
    → last_before s k o ≡ some q
    → (has_pair s q k ≡ true) ⊎ (o ≡ some q)
last_before-or [] k q o h = inr h
last_before-or ((i, j) ∷ s) k q o h = elim (last_before-or s k q (if j == k then some i else o) h) [
  | inl p ↦ inl (ground (arith, p))
  | inr e ↦ elim (Bool-cases (j == k)) [
    | inl f ↦ inl (ground (arith, e, f, list_eq_iff i q))
    | inr f ↦ inr (ground (arith, e, f))
  ]
]

pub last_before-has_pair :
    (s : List (Text × Text)) (k q : Text) → last_before s k none ≡ some q → has_pair s q k ≡ true
last_before-has_pair s k q h = elim (last_before-or s k q none h) [
  | inl p ↦ p
  | inr bad ↦ absurd (cc bad)
]

module _ {O : Type 0} (no_opts : O) where
  pub task_at-set :
      (tree : Dict Text (RunObj O)) (k p : Text) (o : RunObj O)
      → task_at no_opts (set tree k o) p ≡ (if k == p then o else task_at no_opts tree p)
  task_at-set tree k p o = elim (Bool-cases (k == p)) [
    | inl e ↦ rw (get-set tree k p o, e, task_at)
    | inr e ↦ rw (get-set tree k p o, e, task_at)
  ]

  -- The first of the two writes of `link`.
  abbrev with_next : Dict Text (RunObj O) → Text → Text → RunObj O
  with_next tree i j = let o = task_at no_opts tree i in record o { next = o.next ++ j ∷ [] }

  after_next :
      (tree : Dict Text (RunObj O)) (i j p : Text)
      → task_at no_opts (set tree i (with_next tree i j)) p
        ≡ (if i == p then with_next tree p j else task_at no_opts tree p)
  after_next tree i j p =
      let t = task_at-set tree i p (with_next tree i j) in
      elim (Bool-cases (i == p)) [
        | inl e ↦ rw e (rw e at t ∙ ap (λ q. with_next tree q j) ((list_eq_iff i p).0 e))
        | inr e ↦ rw e (rw e at t)
      ]

  link-task_at :
      (tree : Dict Text (RunObj O)) (i j p : Text)
      → let mid = (if i == p then with_next tree p j else task_at no_opts tree p) in
        task_at no_opts (link no_opts tree i j) p
        ≡ (if j == p then record mid { prev = some i } else mid)
  unfolding link
  link-task_at tree i j p =
      let tree2 = set tree i (with_next tree i j) in
      let mid = after_next tree i j p in
      let first = task_at-set tree2 j p (record (task_at no_opts tree2 j) { prev = some i }) in
      elim (Bool-cases (j == p)) [
        | inl e ↦
            (let same = ap (task_at no_opts tree2) ((list_eq_iff j p).0 e) in
              rw e (rw e at first ∙ ap (λ (o : RunObj O). record o { prev = some i }) (same ∙ mid)))
        | inr e ↦ rw e (rw e at first ∙ mid)
      ]

  -- What the links of some dependences add, and nothing else: the keys after `p` to its `next`, in
  -- order, and the last key before it as its `prev`.
  pub link_all-task_at :
      (dependance : List (Text × Text)) (tree : Dict Text (RunObj O)) (p : Text)
      → let before = task_at no_opts tree p in
        let after = task_at no_opts (link_all no_opts dependance tree) p in
        (after.next ≡ before.next ++ successors dependance p)
        × (after.prev ≡ last_before dependance p before.prev)
        × (after.opts ≡ before.opts)
  unfolding link_all
  link_all-task_at [] tree p = (sym (append-nil (task_at no_opts tree p).next), refl, refl)
  link_all-task_at ((i, j) ∷ dependance) tree p =
      let (n, v, o) = link_all-task_at dependance (link no_opts tree i j) p in
      let step = link-task_at tree i j p in
      elim (Bool-cases (i == p)) [
        | inl e ↦ elim (Bool-cases (j == p)) [
          | inl f ↦
              let s = rw (e, f) at step in
              (
                rw e (
                    n
                    ∙ (ap (λ (r : RunObj O). r.next ++ successors dependance p) s
                        ∙ append_assoc (task_at no_opts tree p).next (j ∷ [])
                            (successors dependance p))),
                rw f (v ∙ ap (λ (r : RunObj O). last_before dependance p r.prev) s),
                o ∙ ap (λ (r : RunObj O). r.opts) s,
              )
          | inr f ↦
              let s = rw (e, f) at step in
              (
                rw e (
                    n
                    ∙ (ap (λ (r : RunObj O). r.next ++ successors dependance p) s
                        ∙ append_assoc (task_at no_opts tree p).next (j ∷ [])
                            (successors dependance p))),
                rw f (v ∙ ap (λ (r : RunObj O). last_before dependance p r.prev) s),
                o ∙ ap (λ (r : RunObj O). r.opts) s,
              )
        ]
        | inr e ↦ elim (Bool-cases (j == p)) [
          | inl f ↦
              let s = rw (e, f) at step in
              (
                rw e (n ∙ ap (λ (r : RunObj O). r.next ++ successors dependance p) s),
                rw f (v ∙ ap (λ (r : RunObj O). last_before dependance p r.prev) s),
                o ∙ ap (λ (r : RunObj O). r.opts) s,
              )
          | inr f ↦
              let s = rw (e, f) at step in
              (
                rw e (n ∙ ap (λ (r : RunObj O). r.next ++ successors dependance p) s),
                rw f (v ∙ ap (λ (r : RunObj O). last_before dependance p r.prev) s),
                o ∙ ap (λ (r : RunObj O). r.opts) s,
              )
        ]
      ]
