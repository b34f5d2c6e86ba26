-- ===== src/Pip/ItemRecv.antt =====
-- smart/auto/pip/QueuePipItemRecv.py, which takes the values of `QueuePip.recv` one at a time, and
-- auto_tasks/tools/batch.py, which batches them.
pub mod Batched
use smartlibs.Prelude.{
  ℕ, zero, suc, ◌+◌, List, [], ◌∷◌, Bool, true, false, Option, none, some, if◌then◌else◌,
}
use smartlibs.Batch.Recv.{Answer, Round, Options, Trace, iter_fn}
use smartlibs.Batch.Recv
use smartlibs.Pip.{
  Event, arrived, timed_out, item, end_cmd, app_cmd, RecvOptions, Status, waiting, returned,
  raised_empty,
}

-- What one `next` on the generator gives: a value, or how the generator stands, with whether the
-- pipe is ended; and what is left in the queue.
pub data Next {ℓ} (V : Type ℓ) (K : Type ℓ) : Type ℓ where
  gave : V → List (Event V K) → Next V K
  halted : Status → Bool → List (Event V K) → Next V K

module _ {ℓ} {V K : Type ℓ} where
  unfoldable pub next_value : RecvOptions V → List (Event V K) → Next V K
  next_value o [] = halted waiting false []
  next_value o (timed_out ∷ events) =
      if o.raise_empty
      then halted raised_empty false events
      else if o.end_on_timeout
      then halted returned false events
      else gave o.timeout_item events
  next_value o (arrived (item x) ∷ events) = gave x events
  next_value o (arrived (end_cmd f) ∷ events) = halted returned true events
  next_value o (arrived (app_cmd k) ∷ events) = next_value o events

-- The values in the pipe, and the TimeoutEvent that stands for a time-out.
pub data Value {ℓ} (A : Type ℓ) : Type ℓ where
  plain : A → Value A
  timeout_event : Value A

module _ {ℓ} {A : Type ℓ} where
  -- The options that `QueuePipItemRecv.__init__` passes to `pip.recv`.
  abbrev pub item_options : RecvOptions (Value A)
  item_options = record {
    raise_empty = false;
    end_on_timeout = false;
    timeout_item = timeout_event;
    has_on_cmd = false;
  }

  -- Each call with the readings of the clock around it.
  unfoldable pub timed : (ℕ → ℕ) → ℕ → List (Answer A) → List (Round A)
  timed clock n [] = []
  timed clock n (a ∷ more) =
      record { begin_clock = clock n; rest_clock = clock (n + 1); reply = a }
      ∷ timed clock (n + 2) more

module _ {ℓ} {A K : Type ℓ} where
  -- `recv`: an item, or Empty, with `isEnded()` true from then on if the pipe is ended. A call that
  -- waits for the queue has no answer.
  abbrev pub reply_of : Next (Value A) K → Option (Answer A × List (Event (Value A) K))
  reply_of (gave (plain x) rest) = some (Recv.item x, rest)
  reply_of (gave timeout_event rest) = some (Recv.empty, rest)
  reply_of (halted waiting b rest) = none
  reply_of (halted returned true rest) = some (Recv.ended, rest)
  reply_of (halted returned false rest) = some (Recv.empty, rest)
  reply_of (halted raised_empty b rest) = some (Recv.empty, rest)

  unfoldable pub item_recv : List (Event (Value A) K) → Option (Answer A × List (Event (Value A) K))
  unfolding next_value
  item_recv events = reply_of (next_value item_options events)

  -- The answers of the next `calls` calls, up to the end.
  unfoldable pub answers : ℕ → List (Event (Value A) K) → List (Answer A)
  unfolding item_recv
  answers zero events = []
  answers (suc calls) events = elim (item_recv events) [
    | none ↦ []
    | some (Recv.ended, rest) ↦ Recv.ended ∷ []
    | some (Recv.empty, rest) ↦ Recv.empty ∷ answers calls rest
    | some (Recv.item x, rest) ↦ Recv.item x ∷ answers calls rest
  ]

  -- `BatchTask.recv`: the batches of an input pipe.
  unfoldable pub batch_task : Options → (ℕ → ℕ) → ℕ → List (Event (Value A) K) → Option (Trace A)
  unfolding iter_fn answers timed
  batch_task o clock calls events = iter_fn o (timed clock 0 (answers calls events))
