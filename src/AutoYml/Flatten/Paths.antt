-- ===== src/AutoYml/Flatten/Paths.antt =====
-- The keys of a flattened node are those that the paths through keys with a dot at their end make.
use smartlibs.Prelude.{
  ℕ, List, ◌++◌, ◌≡◌, refl, sym, ◌∙◌, ◌⊎◌, inl, inr, true, false, ◌||◌, some, ◌==◌, arith,
  if◌then◌else◌, list_eq_iff, Eq-nat, Eq-list, Bool-cases,
}
use smartlibs.Text.{Text}
use smartlibs.Nested.{Tree, null, leaf, dict, Branches, end, entry, read, write, holds, read-write}
use smartlibs.AutoYml.Flatten.{ends_in, put_below, flatten_from, dict_flattern}

module _ {V : Type 0} (flattern_end : List ℕ) where
  -- A value that a node has under a key, or below keys that end so, whose texts make up the key.
  pub data Reaches : Branches V → Text → Tree V → Type 0 where
    here :
        {k : Text} {v : Tree V} {more : Branches V}
        → ends_in flattern_end k ≡ false
        → Reaches (entry k v more) k v
    below :
        {k j key : Text} {v : Tree V} {sub more : Branches V}
        → ends_in flattern_end k ≡ true
        → Reaches sub j v
        → key ≡ k ++ j
        → Reaches (entry k (dict sub) more) key v
    later :
        {i k : Text} {v w : Tree V} {more : Branches V}
        → Reaches more k v
        → Reaches (entry i w more) k v

-- An item of a node.
abbrev pub Has : {V : Type 0} → Text → Tree V → Branches V → Type 0
Has k v end = ⊥
Has k v (entry i w more) = ((k ≡ i) × (v ≡ w)) ⊎ Has k v more

module _ {V : Type 0} where
  Has-write :
      (d : Branches V) (k : Text) (w : Tree V) (j : Text) (v : Tree V)
      → Has j v (write d k w)
      → ((j ≡ k) × (v ≡ w)) ⊎ Has j v d
  unfolding write
  Has-write end k w j v h = h
  Has-write (entry i u d) k w j v h = elim (Bool-cases (i == k)) [
    | inl e ↦ (elim (rw (e, write, Has) at h) [
      | inl (at_j, is_w) ↦ inl (at_j ∙ (list_eq_iff i k).0 e, is_w)
      | inr old ↦ inr (inr old)
    ])
    | inr e ↦ (elim (rw (e, write, Has) at h) [
      | inl same ↦ inr (inl same)
      | inr old ↦ elim (Has-write d k w j v old) [ inl new ↦ inl new | inr there ↦ inr (inr there) ]
    ])
  ]

  Has-put_below :
      (k : Text) (sub acc : Branches V) (j : Text) (v : Tree V)
      → Has j v (put_below k sub acc)
      → ((i : Text) × (j ≡ k ++ i) × Has i v sub) ⊎ Has j v acc
  unfolding put_below
  Has-put_below k end acc j v h = inr h
  Has-put_below k (entry i w more) acc j v h =
      elim (Has-put_below k more (write acc (k ++ i) w) j v h) [
        | inl (x, joined, there) ↦ inl (x, joined, inr there)
        | inr made ↦ elim (Has-write acc (k ++ i) w j v made) [
          | inl (joined, is_w) ↦ inl (i, joined, inl (refl, is_w))
          | inr old ↦ inr old
        ]
      ]

  read-Has : (d : Branches V) (k : Text) (v : Tree V) → read d k ≡ some v → Has k v d
  unfolding read
  read-Has end k v h = absurd (cc h)
  read-Has (entry i w d) k v h = elim (Bool-cases (i == k)) [
    | inl e ↦ inl (sym ((list_eq_iff i k).0 e), ground (arith, h, e))
    | inr e ↦ inr (read-Has d k v (ground (arith, h, e)))
  ]

module _ {V : Type 0} (flattern_end : List ℕ) where
  -- One plain item of the loop.
  Has-plain :
      (k : Text) (w : Tree V) (more acc : Branches V) (j : Text) (v : Tree V)
      → Reaches flattern_end more j v
        ⊎ Has j v (if ends_in flattern_end k then acc else write acc k w)
      → Reaches flattern_end (entry k w more) j v ⊎ Has j v acc
  Has-plain k w more acc j v (inl r) = inl (later r)
  Has-plain k w more acc j v (inr h) = elim (Bool-cases (ends_in flattern_end k)) [
    | inl e ↦ inr (rw e at h)
    | inr e ↦ elim (Has-write acc k w j v (rw e at h)) [
      | inl (same, is_w) ↦ inl (rw (same, is_w) (here e))
      | inr old ↦ inr old
    ]
  ]

  flatten_from-Has :
      (d acc : Branches V) (j : Text) (v : Tree V)
      → Has j v (flatten_from flattern_end d acc)
      → Reaches flattern_end d j v ⊎ Has j v acc
  unfolding flatten_from
  flatten_from-Has end acc j v h = inr h
  flatten_from-Has (entry k null more) acc j v h =
      Has-plain k null more acc j v (flatten_from-Has more _ j v h)
  flatten_from-Has (entry k (leaf x) more) acc j v h =
      Has-plain k (leaf x) more acc j v (flatten_from-Has more _ j v h)
  flatten_from-Has (entry k (dict sub) more) acc j v h =
      elim (Bool-cases (ends_in flattern_end k)) [
        | inr e ↦
            Has-plain k (dict sub) more acc j v (
              rw e (flatten_from-Has more (write acc k (dict sub)) j v (rw (e, flatten_from) at h)))
        | inl e ↦
            (elim (flatten_from-Has more (put_below k (flatten_from flattern_end sub end) acc) j v
              (rw (e, flatten_from) at h)) [
                | inl r ↦ inl (later r)
                | inr made ↦
                    elim (Has-put_below k (flatten_from flattern_end sub end) acc j v made) [
                      | inr old ↦ inr old
                      | inl (i, joined, there) ↦ elim (flatten_from-Has sub end i v there) [
                        | inl r ↦ inl (below e r joined)
                        | inr none_there ↦ elim none_there [ ]
                      ]
                    ]
              ])
      ]

  holds-write :
      (acc : Branches V) (k : Text) (w : Tree V) (j : Text)
      → (k == j || holds acc j) ≡ true
      → holds (write acc k w) j ≡ true
  unfolding holds
  holds-write acc k w j h = ground (arith, h, read-write acc k w j)

  holds-put_below :
      (k : Text) (sub acc : Branches V) (j : Text)
      → holds acc j ≡ true
      → holds (put_below k sub acc) j ≡ true
  unfolding put_below
  holds-put_below k end acc j h = h
  holds-put_below k (entry i w more) acc j h =
      holds-put_below k more (write acc (k ++ i) w) j
        (holds-write acc (k ++ i) w j (ground (arith, h)))

  put_below-holds :
      (k : Text) (sub acc : Branches V) (i : Text)
      → holds sub i ≡ true
      → holds (put_below k sub acc) (k ++ i) ≡ true
  unfolding put_below holds read
  put_below-holds k end acc i h = absurd (cc h)
  put_below-holds k (entry l w more) acc i h = elim (Bool-cases (l == i)) [
    | inl e ↦
        (let same = (list_eq_iff l i).0 e in
          rw same (
            holds-put_below k more (write acc (k ++ i) w) (k ++ i) (
              holds-write acc (k ++ i) w (k ++ i) (ground (arith, list_eq_iff (k ++ i) (k ++ i))))))
    | inr e ↦ put_below-holds k more (write acc (k ++ l) w) i (ground (arith, h, e))
  ]

  holds-flatten_from :
      (d acc : Branches V) (j : Text)
      → holds acc j ≡ true
      → holds (flatten_from flattern_end d acc) j ≡ true
  unfolding flatten_from
  holds-flatten_from end acc j h = h
  holds-flatten_from (entry k null more) acc j h =
      holds-flatten_from more _ j (ground (arith, h, holds-write acc k null j))
  holds-flatten_from (entry k (leaf x) more) acc j h =
      holds-flatten_from more _ j (ground (arith, h, holds-write acc k (leaf x) j))
  holds-flatten_from (entry k (dict sub) more) acc j h = holds-flatten_from more _ j (
      ground (
        arith,
        h,
        holds-write acc k (dict sub) j,
        holds-put_below k (flatten_from flattern_end sub end) acc j,
      ))

  here_holds :
      (k : Text) (v : Tree V) (more acc : Branches V)
      → ends_in flattern_end k ≡ false
      → holds (flatten_from flattern_end (entry k v more) acc) k ≡ true
  unfolding flatten_from
  here_holds k null more acc e =
      holds-flatten_from more _ k (ground (arith, e, holds-write acc k null k, list_eq_iff k k))
  here_holds k (leaf x) more acc e =
      holds-flatten_from more _ k (ground (arith, e, holds-write acc k (leaf x) k, list_eq_iff k k))
  here_holds k (dict sub) more acc e =
      holds-flatten_from more _ k
        (ground (arith, e, holds-write acc k (dict sub) k, list_eq_iff k k))

  later_holds :
      (i : Text) (w : Tree V) (more acc : Branches V) (k : Text)
      → ((acc2 : Branches V) → holds (flatten_from flattern_end more acc2) k ≡ true)
      → holds (flatten_from flattern_end (entry i w more) acc) k ≡ true
  unfolding flatten_from
  later_holds i null more acc k h = h _
  later_holds i (leaf x) more acc k h = h _
  later_holds i (dict sub) more acc k h = h _

  Reaches-holds :
      {d : Branches V} {j : Text} {v : Tree V}
      → Reaches flattern_end d j v
      → (acc : Branches V) → holds (flatten_from flattern_end d acc) j ≡ true
  unfolding flatten_from
  Reaches-holds (here {k} {v} {more} e) acc = here_holds k v more acc e
  Reaches-holds (below {k} {j} {key} {v} {sub} {more} e r joined) acc =
      rw (e, joined)
        (holds-flatten_from more (put_below k (flatten_from flattern_end sub end) acc) (k ++ j)
          (put_below-holds k (flatten_from flattern_end sub end) acc j (Reaches-holds r end)))
  Reaches-holds (later {i} {k} {v} {w} {more} r) acc =
      later_holds i w more acc k (λ acc2. Reaches-holds r acc2)

  -- A flattened node has no items but those that its paths make, with their values; and it has a key
  -- for each of its paths.
  pub dict_flattern-Reaches :
      (node : Branches V) (key : Text) (v : Tree V)
      → (read (dict_flattern flattern_end node) key ≡ some v → Reaches flattern_end node key v)
        × (Reaches flattern_end node key v → holds (dict_flattern flattern_end node) key ≡ true)
  unfolding dict_flattern
  dict_flattern-Reaches node key v = (
    λ h.
        elim (flatten_from-Has node end key v
          (read-Has (dict_flattern flattern_end node) key v h)) [
            | inl r ↦ r
            | inr none_there ↦ elim none_there [ ]
          ],
    λ r. Reaches-holds r end,
  )
