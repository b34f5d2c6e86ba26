-- ===== src/Trees/Replay.antt =====
-- smart/auto/util/task_util.py: `safe_recv_data`, which keeps the item that is being handled in the
-- worker's state, so that the next run of the task gets it again.
use smartlibs.Prelude.{
  ℕ, zero, suc, ◌<◌, List, [], ◌∷◌, ◌++◌, ◌≡◌, refl, ap, ◌∙◌, Option, none, some, arith,
  if◌then◌else◌, ltb, append_assoc,
}

-- What one run leaves: `last_item` of the state, the items that are still to be received, the items
-- that it yielded, and those of them that the run handled without an error.
pub record RunEnd (A : Type 0) : Type 0 where
  pub last_item : Option (ℕ × A)
  pub rest : List A
  pub yielded : List A
  pub handled : List A

module _ {A : Type 0} where
  abbrev pub also : A → RunEnd A → RunEnd A
  also item e = record e { yielded = item ∷ e.yielded; handled = item ∷ e.handled }

  -- The loop over what is received. The run fails on the item that comes after `fails_at` others, and
  -- the generator is not resumed.
  unfoldable pub recv_items : ℕ → List A → ℕ → RunEnd A
  recv_items task_run_count [] fails_at = record {
    last_item = none;
    rest = [];
    yielded = [];
    handled = [];
  }
  recv_items task_run_count (item ∷ items) zero = record {
    last_item = some (task_run_count, item);
    rest = items;
    yielded = item ∷ [];
    handled = [];
  }
  recv_items task_run_count (item ∷ items) (suc fails_at) =
      also item (recv_items task_run_count items fails_at)

  -- The item that an earlier run left.
  unfoldable pub replayed : ℕ → Option (ℕ × A) → Option A
  replayed task_run_count none = none
  replayed task_run_count (some (prev_run_count, item)) =
      if ltb prev_run_count task_run_count then some item else none

  unfoldable pub safe_recv_data : ℕ → Option (ℕ × A) → List A → ℕ → RunEnd A
  unfolding recv_items replayed
  safe_recv_data task_run_count last_item items fails_at =
      elim (replayed task_run_count last_item) [
        | none ↦ recv_items task_run_count items fails_at
        | some item ↦ elim fails_at [
          | zero ↦ record { last_item = last_item; rest = items; yielded = item ∷ []; handled = [] }
          | suc more ↦ also item (recv_items task_run_count items more)
        ]
      ]

  -- The runs of a task, one after the other, each failing at some point: all that they handle, and
  -- what is left in the end.
  abbrev pub run_all : ℕ → Option (ℕ × A) → List A → List ℕ → List A × (Option (ℕ × A) × List A)
  run_all n last items [] = ([], (last, items))
  run_all n last items (fails_at ∷ runs) =
      let e = safe_recv_data n last items fails_at in
      let later = run_all (suc n) e.last_item e.rest runs in (e.handled ++ later.0, later.1)

  -- The items that are not handled yet.
  abbrev pub pending : Option (ℕ × A) → List A → List A
  pending none items = items
  pending (some (n, item)) items = item ∷ items

  -- The item that is left comes from an earlier run.
  abbrev pub Earlier : ℕ → Option (ℕ × A) → Type 0
  Earlier n none = Unit
  Earlier n (some (m, item)) = m < n

  recv_items-pending :
      (n : ℕ) (items : List A) (fails_at : ℕ)
      → ((recv_items n items fails_at).handled
            ++ pending (recv_items n items fails_at).last_item (recv_items n items fails_at).rest
          ≡ items)
        × Earlier (suc n) (recv_items n items fails_at).last_item
  unfolding recv_items
  recv_items-pending n [] fails_at = (refl, tt)
  recv_items-pending n (item ∷ items) zero = (refl, omega arith)
  recv_items-pending n (item ∷ items) (suc fails_at) =
      let rest = recv_items-pending n items fails_at in (ap (λ l. item ∷ l) rest.0, rest.1)

  safe_recv_data-pending :
      (n : ℕ) (last : Option (ℕ × A)) (items : List A) (fails_at : ℕ)
      → Earlier n last
      → ((safe_recv_data n last items fails_at).handled
            ++ pending
                (safe_recv_data n last items fails_at).last_item
                (safe_recv_data n last items fails_at).rest
          ≡ pending last items)
        × Earlier (suc n) (safe_recv_data n last items fails_at).last_item
  unfolding safe_recv_data replayed
  safe_recv_data-pending n none items fails_at h = recv_items-pending n items fails_at
  safe_recv_data-pending n (some (m, item)) items zero h = ground (arith, h)
  safe_recv_data-pending n (some (m, item)) items (suc more) h =
      let rest = recv_items-pending n items more in ground (arith, h, rest.0, rest.1)

  -- However often a task fails and is run again, its runs handle the items in order, each once: what
  -- they have handled and what is left are the items that there were.
  pub run_all-pending :
      (n : ℕ) (items : List A) (runs : List ℕ)
      → (run_all n none items runs).0
          ++ pending (run_all n none items runs).1.0 (run_all n none items runs).1.1
        ≡ items
  run_all-pending n items runs = run_from n none items runs tt
    where
      run_from :
          (n : ℕ) (last : Option (ℕ × A)) (items : List A) (runs : List ℕ)
          → Earlier n last
          → (run_all n last items runs).0
              ++ pending (run_all n last items runs).1.0 (run_all n last items runs).1.1
            ≡ pending last items
      run_from n last items [] h = refl
      run_from n last items (fails_at ∷ runs) h =
          let e = safe_recv_data n last items fails_at in
          let step = safe_recv_data-pending n last items fails_at h in
          append_assoc e.handled (run_all (suc n) e.last_item e.rest runs).0 (
            pending (run_all (suc n) e.last_item e.rest runs).1.0
              (run_all (suc n) e.last_item e.rest runs).1.1)
          ∙ (ap (λ l. e.handled ++ l) (run_from (suc n) e.last_item e.rest runs step.1) ∙ step.0)
