-- ===== src/Batch/Recv.antt =====
-- smart/utils/batch/BatchItemRecv.py: batches from a receiver that may have nothing to give. Times
-- are counts of clock ticks, so a time-out is never negative, and what happens outside the loop is
-- a list of rounds: the two readings of the clock and the answer of `recv`.
pub mod Order
pub mod Deadline
use Prim.Native.Nat.{min}
use smartlibs.Prelude.{
  ℕ, zero, suc, ◌+◌, ◌-◌, List, [], ◌∷◌, ◌++◌, Bool, true, false, Option, none, some, if◌then◌else◌,
  leb, length, is_empty,
}

-- smart/utils/common/timeout.py with two values: `none` is "no limit".
unfoldable pub min_timeout : Option ℕ → Option ℕ → Option ℕ
min_timeout none b = b
min_timeout (some a) none = some a
min_timeout (some a) (some b) = some (min a b)

pub record Options : Type 0 where
  pub batch_size : ℕ
  pub block : Bool
  pub timeout : Option ℕ
  pub batch_timeout : Option ℕ

-- `recv` returns an item, raises Empty, or raises Empty with the receiver ended from then on.
pub data Answer {ℓ} (A : Type ℓ) : Type ℓ where
  item : A → Answer A
  empty : Answer A
  ended : Answer A

-- One turn of the loop: what `time.time()` returns, at first and then, and the answer of `recv`.
pub record Round {ℓ} (A : Type ℓ) : Type ℓ where
  pub begin_clock : ℕ
  pub rest_clock : ℕ
  pub reply : Answer A

-- The arguments of a `recv` call.
pub record Call : Type 0 where
  pub blocking : Bool
  pub limit : Option ℕ

-- `if batch_timeout is not None and batch_timeout <= 0: block = False`
unfoldable pub may_block : Options → Bool
may_block o = elim (o.batch_timeout) [
  | none ↦ o.block
  | some t ↦ if leb t 0 then false else o.block
]

-- The arguments for the second and later items of a batch, and the new `ts_begin`.
unfoldable pub later_call : Bool → Option ℕ → Option ℕ → Option ℕ → ℕ → ℕ → Call × Option ℕ
unfolding min_timeout
later_call false timeout batch_timeout ts_begin t1 t2 =
    (record { blocking = false; limit = none }, ts_begin)
later_call true timeout none ts_begin t1 t2 =
    (record { blocking = true; limit = min_timeout timeout none }, ts_begin)
later_call true timeout (some bt) ts_begin t1 t2 =
    let ts : ℕ = elim ts_begin [ none ↦ t1 | some t ↦ t ] in
    if leb (bt + ts) t2
    then (record { blocking = false; limit = none }, some ts)
    else (record { blocking = true; limit = min_timeout timeout (some (bt + ts - t2)) }, some ts)

-- The first item of a batch is waited for without a limit.
unfoldable pub next_call : Options → Bool → Option ℕ → ℕ → ℕ → Call × Option ℕ
unfolding later_call may_block
next_call o true ts_begin t1 t2 = (record { blocking = true; limit = none }, none)
next_call o false ts_begin t1 t2 = later_call (may_block o) o.timeout o.batch_timeout ts_begin t1 t2

-- What the generator has yielded, the calls that it has made, the batch that it holds, and
-- whether it has returned; it waits in `recv` otherwise.
pub record Trace {ℓ} (A : Type ℓ) : Type ℓ where
  pub batches : List (List A)
  pub calls : List Call
  pub held : List A
  pub finished : Bool

module _ {ℓ} {A : Type ℓ} where
  abbrev pub flush : List A → List (List A)
  flush batch = if is_empty batch then [] else batch ∷ []

  -- `if len(batch_item) >= batch_size: yield batch_item`
  unfoldable pub cut : ℕ → List A → List (List A) × List A
  cut batch_size batch = if leb batch_size (length batch) then (batch ∷ [], []) else ([], batch)

  -- A turn's yields, before those of the later turns.
  abbrev pub before : List (List A) → Call → Trace A → Trace A
  before yielded call later = record {
    batches = yielded ++ later.batches;
    calls = call ∷ later.calls;
    held = later.held;
    finished = later.finished;
  }

  abbrev pub stopped : Trace A
  stopped = record { batches = []; calls = []; held = []; finished = true }

  abbrev pub waiting : List A → Trace A
  waiting batch = record { batches = []; calls = []; held = batch; finished = false }

  -- What a turn does with the answer of `recv`, where `loop` is the rest of the loop.
  unfoldable pub turn : ℕ → List A → Call → (List A → Trace A) → Answer A → Trace A
  unfolding cut
  turn batch_size batch call loop (item x) =
      let (yielded, kept) = cut batch_size (batch ++ x ∷ []) in before yielded call (loop kept)
  turn batch_size batch call loop empty = before (flush batch) call (loop [])
  turn batch_size batch call loop ended = before (flush batch) call stopped

  -- The loop, from a batch and the time at which its clock began. A receiver that has ended leaves
  -- nothing to read, so the rounds behind its answer are not used.
  unfoldable pub recv_loop : Options → List A → Option ℕ → List (Round A) → Trace A
  unfolding next_call turn
  recv_loop o batch ts_begin [] = waiting batch
  recv_loop o batch ts_begin (r ∷ rounds) =
      let (call, ts) = next_call o (is_empty batch) ts_begin r.begin_clock r.rest_clock in
      turn o.batch_size batch call (λ kept. recv_loop o kept ts rounds) r.reply

  abbrev pub given : Answer A → List A → List A
  given (item x) later = x ∷ later
  given empty later = later
  given ended later = []

  -- The items that the receiver gave, up to its end.
  abbrev pub received : List (Round A) → List A
  received [] = []
  received (r ∷ rounds) = given r.reply (received rounds)

  -- `none` is an AttributeError: with blocking and no limit at all the code calls
  -- `self.recv_data`, which the class does not have.
  unfoldable pub iter_fn : Options → List (Round A) → Option (Trace A)
  unfolding recv_loop
  iter_fn o rounds =
      let looped = some (recv_loop o [] none rounds) in
      elim (o.timeout) [
        | some _ ↦ looped
        | none ↦ elim (o.batch_timeout) [
          | some _ ↦ looped
          | none ↦ if o.block then none else looped
        ]
      ]
