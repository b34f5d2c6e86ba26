-- ===== src/Dag/Sort/Insertion.antt =====
-- The sorted list has the same objects, and an object with a smaller key stands before one with a
-- greater key.
use mathlib.Core.List.{Perm}
use mathlib.Core.List.Perm
use smartlibs.Prelude.{
  ℕ, zero, suc, ◌+◌, ◌<◌, List, [], ◌∷◌, ◌++◌, ◌≡◌, refl, sym, ap, ◌∙◌, true, some, Eq-nat, arith,
  Bool-cases, inl, inr, ◌⊎◌, get_elem?, length,
}
use smartlibs.Dict.{get}
use smartlibs.Dag.Sort.{SortKey, SortKeys, key_lt, insert_by, sorted_by, objects, with_sort_keys}
use smartlibs.Dag.Sort.Lex.{UpTo, UpTo-trans, key_lt-UpTo}

abbrev pub Among : {A : Type 0} → A → List A → Type 0
Among a [] = ⊥
Among a (x ∷ xs) = (a ≡ x) ⊎ Among a xs

-- `y` stands before `x`.
pub record Precedes {A : Type 0} (y x : A) (l : List A) : Type 0 where
  pub front : List A
  pub middle : List A
  pub back : List A
  pub parts : l ≡ front ++ (y ∷ (middle ++ (x ∷ back)))

Among-split : {A : Type 0} (x : A) (l : List A) → Among x l → (b c : List A) × (l ≡ b ++ (x ∷ c))
Among-split x [] h = elim h [ ]
Among-split x (z ∷ l) (inl e) = ([], l, ap (λ t. t ∷ l) (sym e))
Among-split x (z ∷ l) (inr h) = let (b, c, e) = Among-split x l h in (z ∷ b, c, ap (λ t. z ∷ t) e)

module _ {A : Type 0} where
  abbrev NotBefore : SortKey → List (SortKey × A) → Type 0
  NotBefore k [] = Unit
  NotBefore k ((j, y) ∷ l) = UpTo k j × NotBefore k l

  abbrev IsSorted : List (SortKey × A) → Type 0
  IsSorted [] = Unit
  IsSorted ((k, x) ∷ l) = NotBefore k l × IsSorted l

  NotBefore-trans :
      (k j : SortKey) (l : List (SortKey × A)) → UpTo k j → NotBefore j l → NotBefore k l
  NotBefore-trans k j [] le h = tt
  NotBefore-trans k j ((i, y) ∷ l) le h = (UpTo-trans k j i le h.0, NotBefore-trans k j l le h.1)

  NotBefore-insert_by :
      (k j : SortKey) (x : A) (l : List (SortKey × A))
      → UpTo j k
      → NotBefore j l
      → NotBefore j (insert_by k x l)
  unfolding insert_by
  NotBefore-insert_by k j x [] le h = (le, tt)
  NotBefore-insert_by k j x ((i, y) ∷ l) le h = elim (Bool-cases (key_lt i k)) [
    | inl b ↦ rw (b, NotBefore) (h.0, NotBefore-insert_by k j x l le h.1)
    | inr b ↦ rw (b, NotBefore) (le, h)
  ]

  insert_by-IsSorted :
      (k : SortKey) (x : A) (l : List (SortKey × A)) → IsSorted l → IsSorted (insert_by k x l)
  unfolding insert_by
  insert_by-IsSorted k x [] h = (tt, tt)
  insert_by-IsSorted k x ((j, y) ∷ l) h = elim (Bool-cases (key_lt j k)) [
    | inl b ↦
        (rw (b, IsSorted)
          (NotBefore-insert_by k j x l (key_lt-UpTo j k b) h.0, insert_by-IsSorted k x l h.1))
    | inr b ↦ rw (b, IsSorted) ((b, NotBefore-trans k j l b h.0), h)
  ]

  sorted_by-IsSorted : (l : List (SortKey × A)) → IsSorted (sorted_by l)
  unfolding sorted_by
  sorted_by-IsSorted [] = tt
  sorted_by-IsSorted ((k, x) ∷ l) = insert_by-IsSorted k x (sorted_by l) (sorted_by-IsSorted l)

  insert_by-perm :
      (k : SortKey) (x : A) (l : List (SortKey × A))
      → Perm (objects (insert_by k x l)) (x ∷ objects l)
  unfolding insert_by
  insert_by-perm k x [] = Perm.refl (x ∷ [])
  insert_by-perm k x ((j, y) ∷ l) = elim (Bool-cases (key_lt j k)) [
    | inl b ↦ (rw b (Perm.trans (Perm.cons y (insert_by-perm k x l)) (Perm.swap x y (objects l))))
    | inr b ↦ rw b (Perm.refl (x ∷ y ∷ objects l))
  ]

  pub sorted_by-perm : (l : List (SortKey × A)) → Perm (objects (sorted_by l)) (objects l)
  unfolding sorted_by
  sorted_by-perm [] = Perm.refl []
  sorted_by-perm ((k, x) ∷ l) =
      Perm.trans (insert_by-perm k x (sorted_by l)) (Perm.cons x (sorted_by-perm l))

  Among-insert_by :
      (p : SortKey × A) (k : SortKey) (x : A) (l : List (SortKey × A))
      → Among p ((k, x) ∷ l)
      → Among p (insert_by k x l)
  unfolding insert_by
  Among-insert_by p k x [] h = h
  Among-insert_by p k x ((j, y) ∷ l) h = elim (Bool-cases (key_lt j k)) [
    | inr b ↦ rw (b, Among) h
    | inl b ↦
        (rw (b, Among)
          (elim h [
            | inl e ↦ inr (Among-insert_by p k x l (inl e))
            | inr (inl e) ↦ inl e
            | inr (inr a) ↦ inr (Among-insert_by p k x l (inr a))
          ]))
  ]

  Among-sorted_by : (p : SortKey × A) (l : List (SortKey × A)) → Among p l → Among p (sorted_by l)
  unfolding sorted_by
  Among-sorted_by p [] h = h
  Among-sorted_by p ((k, x) ∷ l) h =
      Among-insert_by p k x (sorted_by l)
        (elim h [ inl e ↦ inl e | inr a ↦ inr (Among-sorted_by p l a) ])

  Among-objects :
      (k : SortKey) (x : A) (l : List (SortKey × A)) → Among (k, x) l → Among x (objects l)
  Among-objects k x [] h = h
  Among-objects k x ((j, y) ∷ l) (inl e) = inl (ap (λ (p : SortKey × A). p.1) e)
  Among-objects k x ((j, y) ∷ l) (inr a) = inr (Among-objects k x l a)

  NotBefore-Among :
      (k j : SortKey) (y : A) (l : List (SortKey × A)) → NotBefore k l → Among (j, y) l → UpTo k j
  NotBefore-Among k j y [] h a = elim a [ ]
  NotBefore-Among k j y ((i, z) ∷ l) h (inl e) = rw (ap (λ (p : SortKey × A). p.0) e) h.0
  NotBefore-Among k j y ((i, z) ∷ l) h (inr a) = NotBefore-Among k j y l h.1 a

  IsSorted-Precedes :
      (kj ki : SortKey) (y x : A) (l : List (SortKey × A))
      → IsSorted l
      → key_lt kj ki ≡ true
      → Among (kj, y) l
      → Among (ki, x) l
      → Precedes y x (objects l)
  IsSorted-Precedes kj ki y x [] h lt a b = elim a [ ]
  IsSorted-Precedes kj ki y x ((k, z) ∷ l) h lt (inl e) (inl f) =
      let same : kj ≡ ki = ap (λ (p : SortKey × A). p.0) (e ∙ sym f) in
      let lt' = rw same at lt in
      let le' = rw same at (key_lt-UpTo kj ki lt) in absurd (cc (lt', le'))
  IsSorted-Precedes kj ki y x ((k, z) ∷ l) h lt (inl e) (inr b) =
      let (middle, back, parts) = Among-split x (objects l) (Among-objects ki x l b) in
      record {
        front = [];
        middle = middle;
        back = back;
        parts = cc (ap (λ (p : SortKey × A). p.1) e, parts);
      }
  IsSorted-Precedes kj ki y x ((k, z) ∷ l) h lt (inr a) (inl f) =
      let le = NotBefore-Among k kj y l h.0 a in
      let same : ki ≡ k = ap (λ (p : SortKey × A). p.0) f in
      let lt' = rw same at lt in absurd (cc (le, lt'))
  IsSorted-Precedes kj ki y x ((k, z) ∷ l) h lt (inr a) (inr b) =
      let r = IsSorted-Precedes kj ki y x l h.1 lt a b in
      record {
        front = z ∷ r.front;
        middle = r.middle;
        back = r.back;
        parts = ap (λ t. z ∷ t) r.parts;
      }

  pub sorted_by-Precedes :
      (kj ki : SortKey) (y x : A) (l : List (SortKey × A))
      → key_lt kj ki ≡ true
      → Among (kj, y) l
      → Among (ki, x) l
      → Precedes y x (objects (sorted_by l))
  sorted_by-Precedes kj ki y x l lt a b =
      IsSorted-Precedes kj ki y x (sorted_by l) (sorted_by-IsSorted l) lt
        (Among-sorted_by (kj, y) l a) (Among-sorted_by (ki, x) l b)

  -- Where every item has its key, the list that is sorted is there, with each object under its key.
  pub record Keyed (sort_keys : SortKeys) (i : ℕ) (xs : List A) : Type 0 where
    pub entries : List (SortKey × A)
    pub made : with_sort_keys sort_keys i xs ≡ some entries
    pub same : objects entries ≡ xs
    pub at_place :
        (p : ℕ) (k : SortKey) (x : A)
        → get_elem? xs p ≡ some x
        → get sort_keys (i + p) ≡ some k
        → Among (k, x) entries

  cons_at_place :
      (sort_keys : SortKeys) (i : ℕ) (k : SortKey) (x : A) (xs : List A)
      (r : Keyed sort_keys (i + 1) xs)
      → get sort_keys i ≡ some k
      → (p : ℕ) (l : SortKey) (y : A) → get_elem? (x ∷ xs) p ≡ some y
      → get sort_keys (i + p) ≡ some l
      → Among (l, y) ((k, x) ∷ r.entries)
  cons_at_place sort_keys i k x xs r own zero l y at_p at_l =
      let z : i + 0 ≡ i = omega arith in
      let at_i = rw z at at_l in inl (ground (arith, own, at_i, at_p))
  cons_at_place sort_keys i k x xs r own (suc p) l y at_p at_l =
      let z : i + suc p ≡ i + 1 + p = omega arith in inr (r.at_place p l y at_p (rw z at at_l))

  cons-Keyed :
      (sort_keys : SortKeys) (i : ℕ) (k : SortKey) (x : A) (xs : List A)
      → get sort_keys i ≡ some k
      → Keyed sort_keys (i + 1) xs
      → Keyed sort_keys i (x ∷ xs)
  unfolding with_sort_keys
  cons-Keyed sort_keys i k x xs own r = record {
    entries = (k, x) ∷ r.entries;
    made = rw (own, r.made, with_sort_keys) refl;
    same = ap (λ t. x ∷ t) r.same;
    at_place = cons_at_place sort_keys i k x xs r own;
  }

  pub with_sort_keys-Keyed :
      (sort_keys : SortKeys) (i : ℕ) (xs : List A)
      → ((p : ℕ) → p < length xs → (k : SortKey) × (get sort_keys (i + p) ≡ some k))
      → Keyed sort_keys i xs
  unfolding with_sort_keys
  with_sort_keys-Keyed sort_keys i [] h = record {
    entries = [];
    made = refl;
    same = refl;
    at_place = λ p k x at_p own. cc at_p;
  }
  with_sort_keys-Keyed sort_keys i (x ∷ xs) h =
      let (k, own) = h 0 (omega arith) in
      let here : i + 0 ≡ i = omega arith in
      let own' = rw here at own in
      cons-Keyed sort_keys i k x xs own' (
        with_sort_keys-Keyed sort_keys (i + 1) xs λ p lt.
          let (l, own_p) = h (suc p) (omega arith) in
          let there : i + 1 + p ≡ i + suc p = omega arith in (l, rw there own_p))
