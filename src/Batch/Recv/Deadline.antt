-- ===== src/Batch/Recv/Deadline.antt =====
-- The time-outs of a batching receiver: the first item of a batch is waited for without a limit, and
-- no later wait goes past the batch's deadline.
use smartlibs.Prelude.{ℕ, ◌+◌, ◌≤◌, ◌≡◌, true, false, Option, none, some, arith}
use smartlibs.Batch.Recv.{Options, may_block, min_timeout, later_call, next_call}

abbrev pub or_now : Option ℕ → ℕ → ℕ
or_now none t = t
or_now (some ts) t = ts

-- With a batch time-out `bt` and the batch's clock begun at `ts` (now, if it has not begun), a call
-- for a later item either does not block, or blocks for a limit that ends by `ts + bt` and is no
-- longer than the limit on a single item; the clock that is kept is `ts`.
pub next_call-deadline :
    (o : Options) (ts_begin : Option ℕ) (t1 t2 bt limit : ℕ)
    → o.batch_timeout ≡ some bt
    → (next_call o false ts_begin t1 t2).0 ≡ record { blocking = true; limit = some limit }
    → (t2 + limit ≤ or_now ts_begin t1 + bt)
      × ((single : ℕ) → o.timeout ≡ some single → limit ≤ single)
      × ((next_call o false ts_begin t1 t2).1 ≡ some (or_now ts_begin t1))
unfolding next_call later_call may_block min_timeout
next_call-deadline o ts_begin t1 t2 bt limit e h =
    (ground arith, λ single s. ground arith, ground arith)
