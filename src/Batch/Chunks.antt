-- ===== src/Batch/Chunks.antt =====
-- The batches hold the items in order, and all but the last are full.
use Prim.Native.Nat.{max}
use native.Mathlib.Nat.{mod-add-mod, mod_self, mod-eq_of_lt, zero-mod}
use native.Mathlib.Decide.{ℕ_discrete}
use smartlibs.Prelude.{
  ℕ, zero, suc, ◌+◌, ◌%◌, ◌≤◌, ◌<◌, ◌⊎◌, ==_ne, List, [], ◌∷◌, ◌++◌, ◌≡◌, refl, sym, ap, ◌∙◌, inl,
  inr, map, arith, Eq-nat, nat_eq_iff, length, length-append, concat, append_assoc,
}
use smartlibs.Batch.{batch_loop, iter_fn}

-- Every batch but the last has `size` items, and the last has one to `size`.
abbrev pub Batches {ℓ} : {A : Type ℓ} → ℕ → List (List A) → Type 0
Batches size [] = Unit
Batches size (b ∷ []) = (0 < length b) × (length b ≤ size)
Batches size (b ∷ c ∷ bs) = (length b ≡ size) × Batches size (c ∷ bs)

-- With n items in the batch and room for another, the index is n modulo the size.
next_index :
    (size i n : ℕ)
    → i % size ≡ n
    → n < size
    → ((n + 1 ≡ size) × ((i + 1) % size ≡ 0)) ⊎ ((n + 1 < size) × ((i + 1) % size ≡ n + 1))
next_index size i n e lt =
    let next : (i + 1) % size ≡ (n + 1) % size =
      sym (mod-add-mod i size 1) ∙ ap (λ (k : ℕ). (k + 1) % size) e in
    elim (ℕ_discrete (n + 1) size) [
      | yes full ↦ inl (full, next ∙ (ap (λ (k : ℕ). k % size) full ∙ mod_self size))
      | no open_ ↦ let more : n + 1 < size = omega arith in inr (more, next ∙ mod-eq_of_lt more)
    ]

module _ {ℓ} {A : Type ℓ} where
  Batches-cons :
      (size : ℕ) (b : List A) (bs : List (List A))
      → 0 < size
      → length b ≡ size
      → Batches size bs
      → Batches size (b ∷ bs)
  Batches-cons size b [] pos full h = omega arith
  Batches-cons size b (c ∷ bs) pos full h = (full, h)

  concat-batch_loop :
      (size i : ℕ) (batch items : List A) → concat (batch_loop size i batch items) ≡ batch ++ items
  unfolding batch_loop
  concat-batch_loop size i [] [] = refl
  concat-batch_loop size i (b ∷ batch) [] = refl
  concat-batch_loop size i batch (x ∷ items) =
      let e = append_assoc batch (x ∷ []) items in
      ground (
        arith,
        ap (λ l. (batch ++ (x ∷ [])) ++ l) (concat-batch_loop size (i + 1) [] items),
        concat-batch_loop size (i + 1) (batch ++ x ∷ []) items,
        e,
      )

  batch_loop-Batches :
      (size i : ℕ) (batch items : List A)
      → 0 < size
      → i % size ≡ length batch
      → length batch < size
      → Batches size (batch_loop size i batch items)
  unfolding batch_loop
  batch_loop-Batches size i [] [] pos e lt = tt
  batch_loop-Batches size i (b ∷ batch) [] pos e lt = omega arith
  batch_loop-Batches size i batch (x ∷ items) pos e lt =
      let count = length-append batch (x ∷ []) in
      elim (next_index size i (length batch) e lt) [
        | inl (full, wrapped) ↦ rw ((nat_eq_iff ((i + 1) % size) 0).1 wrapped) (
            Batches-cons size (batch ++ x ∷ []) _ pos (omega (arith, count))
              (batch_loop-Batches size (i + 1) [] items pos wrapped pos))
        | inr (more, kept) ↦ rw (==_ne ((i + 1) % size) 0 (λ z. absurd (omega arith))) (
            batch_loop-Batches size (i + 1) (batch ++ x ∷ []) items pos (omega (arith, count))
              (omega (arith, count)))
      ]

  -- The batches, put together, are the items in their order: none is lost or doubled.
  pub concat-iter_fn : (size : ℕ) (items : List A) → concat (iter_fn size items) ≡ items
  unfolding iter_fn
  concat-iter_fn size items =
      ground (arith, concat-batch_loop size 0 [] items, concat-singles items)
    where
      concat-singles : (xs : List A) → concat (map (λ x. x ∷ []) xs) ≡ xs
      concat-singles [] = refl
      concat-singles (x ∷ xs) = ap (λ l. x ∷ l) (concat-singles xs)

  singles-Batches : (xs : List A) → Batches 1 (map (λ x. x ∷ []) xs)
  singles-Batches [] = tt
  singles-Batches (x ∷ xs) = Batches-cons 1 (x ∷ []) _ (omega arith) refl (singles-Batches xs)

  iter_fn-big :
      (size : ℕ) (items : List A) → 1 < size → iter_fn size items ≡ batch_loop size 0 [] items
  unfolding iter_fn
  iter_fn-big size items big = ground arith

  -- Every batch but the last is full, and the last holds between one item and a full batch; a batch
  -- size below two counts as one.
  pub iter_fn-Batches : (size : ℕ) (items : List A) → Batches (max size 1) (iter_fn size items)
  iter_fn-Batches zero items = unfold iter_fn in singles-Batches items
  iter_fn-Batches (suc zero) items = unfold iter_fn in singles-Batches items
  iter_fn-Batches (suc (suc n)) items =
      let size = suc (suc n) in
      let same : max size 1 ≡ size = omega arith in
      rw (same, iter_fn-big size items (omega arith))
        (batch_loop-Batches size 0 [] items (omega arith) (zero-mod size) (omega arith))
