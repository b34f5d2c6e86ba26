-- ===== src/Retry.antt =====
-- smart/utils/retry.py (`RetryFn`) and the restart policy of a task's worker in
-- smart/auto/exec/task_pod.py. What the n-th run of the function does is an argument: `none` is an
-- exception.
pub mod Attempts
pub mod Restart
mod Samples
use smartlibs.Prelude.{
  ℕ, zero, suc, ◌+◌, ◌-◌, List, [], ◌∷◌, ◌++◌, Bool, true, false, not, ◌&&◌, ◌||◌, Option, none,
  some, ◌==◌, if◌then◌else◌, ltb, leb, Eq-nat, Eq-list,
}
use smartlibs.Text.{Text}

-- How a call of a RetryFn ends: the value, or RetryException; and how often the function ran and the
-- caller slept.
pub record Tried {ℓ} (A : Type ℓ) : Type ℓ where
  pub returned : Option A
  pub calls : ℕ
  pub sleeps : ℕ

module _ {ℓ} {A : Type ℓ} where
  -- `for retry_no in range(retry_limit)`, with `left` turns still to come.
  unfoldable pub retry_from : (ℕ → Option A) → Bool → ℕ → ℕ → ℕ → Tried A
  retry_from attempt has_interval retry_limit retry_no zero = record {
    returned = none;
    calls = 0;
    sleeps = 0;
  }
  retry_from attempt has_interval retry_limit retry_no (suc left) =
      let later = retry_from attempt has_interval retry_limit (retry_no + 1) left in
      let slept : ℕ = if has_interval && ltb retry_no (retry_limit - 1) then 1 else 0 in
      elim (attempt retry_no) [
        | some a ↦ record { returned = some a; calls = 1; sleeps = 0 }
        | none ↦ record {
          returned = later.returned;
          calls = later.calls + 1;
          sleeps = later.sleeps + slept;
        }
      ]

  -- `RetryFn.__call__`
  unfoldable pub retry : (ℕ → Option A) → Bool → ℕ → Tried A
  unfolding retry_from
  retry attempt has_interval retry_limit = retry_from attempt has_interval retry_limit 0 retry_limit

-- `_policy_restart`: its first part, and its second as `safe_parse_int` reads it.
pub record Policy : Type 0 where
  pub restart : Text
  pub restart_max_num : Option ℕ

abbrev pub always : Text
always = b'a' ∷ b'l' ∷ b'w' ∷ b'a' ∷ b'y' ∷ b's' ∷ []

abbrev pub on_error : Text
on_error = b'o' ∷ b'n' ∷ b'-' ∷ b'e' ∷ b'r' ∷ b'r' ∷ b'o' ∷ b'r' ∷ []

abbrev pub on_failure : Text
on_failure = b'o' ∷ b'n' ∷ b'-' ∷ b'f' ∷ b'a' ∷ b'i' ∷ b'l' ∷ b'u' ∷ b'r' ∷ b'e' ∷ []

abbrev pub within : Option ℕ → ℕ → Bool
within none error_count = true
within (some restart_max_num) error_count = leb error_count restart_max_num

-- `_err_cb`: whether to run again, from the worker's count of errors with this one.
unfoldable pub err_cb : Policy → ℕ → Bool
err_cb p error_count =
    if p.restart == always
    then true
    else if p.restart == on_error || p.restart == on_failure
    then within p.restart_max_num error_count
    else false

-- What a worker does, in order; the last two stand in its `finally`.
pub data Deed : Type 0 where
  ran failed restarted sent_end task_done : Deed

-- How far `run_task` is: it ran to its end, it raised, or it is still in its loop when the model's
-- runs are used up.
pub data Ending : Type 0 where
  completed raised running : Ending

abbrev pub then_do : List Deed → List Deed × Ending → List Deed × Ending
then_do deeds (later, ending) = (deeds ++ later, ending)

-- The `finally` block: `has_done` says whether there is an `on_task_done`.
unfoldable pub finally : Bool → Bool → List Deed
finally send_end_cmd has_done =
    let done : List Deed = if has_done then task_done ∷ [] else [] in
    if send_end_cmd then sent_end ∷ done else done

-- The loop of `run_task` from the error count on, for some runs; run n succeeds where `works n`.
unfoldable pub run_task : Policy → Bool → Bool → (ℕ → Bool) → ℕ → ℕ → List Deed × Ending
unfolding err_cb finally
run_task p send_end_cmd has_done works error_count zero = ([], running)
run_task p send_end_cmd has_done works error_count (suc runs) =
    let again = run_task p send_end_cmd has_done works (error_count + 1) runs in
    if works error_count
    then (ran ∷ finally send_end_cmd has_done, completed)
    else if err_cb p (error_count + 1)
    then then_do (failed ∷ restarted ∷ []) again
    else (failed ∷ finally send_end_cmd has_done, raised)
