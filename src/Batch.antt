-- ===== src/Batch.antt =====
-- smart/utils/batch/BatchIter.py: an iterator cut into batches. The items are a list, and so are
-- the batches that the generator yields.
pub mod Chunks
pub mod Recv
mod Samples
use smartlibs.Prelude.{
  ℕ, suc, ◌+◌, ◌%◌, List, [], ◌∷◌, ◌++◌, map, Bool, true, false, ◌==◌, if◌then◌else◌, ltb, Eq-nat,
  is_empty,
}

module _ {ℓ} {A : Type ℓ} where
  -- `if len(batch_item): yield batch_item`
  abbrev pub flush : List A → List (List A)
  flush batch = if is_empty batch then [] else batch ∷ []

  -- The loop of `iter_fn` from index i on, with the batch that is being filled.
  unfoldable pub batch_loop : ℕ → ℕ → List A → List A → List (List A)
  batch_loop batch_size i batch [] = flush batch
  batch_loop batch_size i batch (item ∷ items) =
      let filled = batch ++ item ∷ [] in
      let yielded = filled ∷ batch_loop batch_size (i + 1) [] items in
      let kept = batch_loop batch_size (i + 1) filled items in
      if (i + 1) % batch_size == 0 then yielded else kept

  unfoldable pub iter_fn : ℕ → List A → List (List A)
  unfolding batch_loop
  iter_fn batch_size items =
      if ltb batch_size 2 then map (λ item. item ∷ []) items else batch_loop batch_size 0 [] items
