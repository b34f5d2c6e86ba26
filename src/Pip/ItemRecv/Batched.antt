-- ===== src/Pip/ItemRecv/Batched.antt =====
-- From the messages in a pipe to the batches of a task.
use smartlibs.Prelude.{
  ℕ, zero, suc, ◌+◌, ◌<◌, List, [], ◌∷◌, ◌++◌, ◌≡◌, refl, ap, sym, ◌∙◌, Bool, true, false, Option,
  none, some, arith, length, concat, append-nil, is_empty, ◌≢◌, ◌⊎◌, All,
}
use smartlibs.Batch.Recv.{
  Answer, Options, Round, Trace, iter_fn, received, given, recv_loop, turn, next_call, cut,
}
use smartlibs.Batch.Recv
use smartlibs.Batch.Recv.Order.{iter_fn-received, Fits}
use smartlibs.Pip.{
  Event, arrived, timed_out, item, end_cmd, app_cmd, Action, yielded, commanded, RecvOptions,
  recv_loop as pip_loop,
}
use smartlibs.Pip.ItemRecv.{
  Next, gave, halted, Value, plain, next_value, answers, timed, batch_task,
}

-- The values that a generator yielded.
abbrev pub values {ℓ} : {V K : Type ℓ} → List (Action V K) → List V
values [] = []
values (yielded v ∷ as_) = v ∷ values as_
values (commanded k ∷ as_) = values as_

abbrev pub rest_values {ℓ} : {V K : Type ℓ} → RecvOptions V → Next V K → List V
rest_values o (gave v events) = v ∷ values (pip_loop o events).actions
rest_values o (halted s e events) = []

-- Taking values one by one gives what the generator yields in one run.
pub next_value-recv {ℓ} :
    {V K : Type ℓ} (o : RecvOptions V) (events : List (Event V K))
    → values (pip_loop o events).actions ≡ rest_values o (next_value o events)
unfolding pip_loop next_value
next_value-recv o [] = refl
next_value-recv o (timed_out ∷ events) = ground arith
next_value-recv o (arrived (item x) ∷ events) = refl
next_value-recv o (arrived (end_cmd f) ∷ events) = refl
next_value-recv o (arrived (app_cmd k) ∷ events) = ground (arith, next_value-recv o events)

-- What reaches a pipe before its end command: items, commands, and waits that time out.
pub data Arrival {ℓ} (A : Type ℓ) (K : Type ℓ) : Type ℓ where
  datum : A → Arrival A K
  command : K → Arrival A K
  pause : Arrival A K

module _ {ℓ} {A : Type ℓ} where
  iter_fn-limited :
      (o : Options) (rounds : List (Round A))
      → (o.block ≡ false) ⊎ ((o.timeout ≢ none) ⊎ (o.batch_timeout ≢ none))
      → iter_fn o rounds ≡ some (recv_loop o [] none rounds)
  unfolding iter_fn
  iter_fn-limited o rounds limited = ground arith

module _ {ℓ} {A K : Type ℓ} where
  abbrev pub to_events : List (Arrival A K) → List (Event (Value A) K)
  to_events [] = []
  to_events (datum x ∷ ts) = arrived (item (plain x)) ∷ to_events ts
  to_events (command k ∷ ts) = arrived (app_cmd k) ∷ to_events ts
  to_events (pause ∷ ts) = timed_out ∷ to_events ts

  abbrev pub data_of : List (Arrival A K) → List A
  data_of [] = []
  data_of (datum x ∷ ts) = x ∷ data_of ts
  data_of (command k ∷ ts) = data_of ts
  data_of (pause ∷ ts) = data_of ts

  -- The answers that the receiver gives for such arrivals.
  abbrev answers_of : List (Arrival A K) → List (Answer A)
  answers_of [] = Recv.ended ∷ []
  answers_of (datum x ∷ ts) = Recv.item x ∷ answers_of ts
  answers_of (command k ∷ ts) = answers_of ts
  answers_of (pause ∷ ts) = Recv.empty ∷ answers_of ts

  answers_lem :
      (ts : List (Arrival A K)) (f : Bool) (later : List (Event (Value A) K)) (calls : ℕ)
      → length ts < calls
      → answers calls (to_events ts ++ arrived (end_cmd f) ∷ later) ≡ answers_of ts
  unfolding answers
  answers_lem ts f later zero h = absurd (omega arith)
  answers_lem [] f later (suc calls) h = refl
  answers_lem (datum x ∷ ts) f later (suc calls) h =
      ap (λ l. Recv.item x ∷ l) (answers_lem ts f later calls (omega arith))
  answers_lem (pause ∷ ts) f later (suc calls) h =
      ap (λ l. Recv.empty ∷ l) (answers_lem ts f later calls (omega arith))
  answers_lem (command k ∷ ts) f later (suc calls) h =
      answers_lem ts f later (suc calls) (omega arith)

  received-timed :
      (clock : ℕ → ℕ) (n : ℕ) (ts : List (Arrival A K))
      → received (timed clock n (answers_of ts)) ≡ data_of ts
  unfolding timed
  received-timed clock n [] = refl
  received-timed clock n (datum x ∷ ts) = ap (λ l. x ∷ l) (received-timed clock (n + 2) ts)
  received-timed clock n (command k ∷ ts) = received-timed clock n ts
  received-timed clock n (pause ∷ ts) = received-timed clock (n + 2) ts

  finished-timed :
      (o : Options) (clock : ℕ → ℕ) (n : ℕ) (ts : List (Arrival A K)) (batch : List A)
      (ts_begin : Option ℕ)
      → (recv_loop o batch ts_begin (timed clock n (answers_of ts))).finished ≡ true
  unfolding timed recv_loop
  finished-timed o clock n [] batch ts_begin = refl
  finished-timed o clock n (datum x ∷ ts) batch ts_begin =
      finished-timed o clock (n + 2) ts (cut o.batch_size (batch ++ x ∷ [])).1
        (next_call o (is_empty batch) ts_begin (clock n) (clock (n + 1))).1
  finished-timed o clock n (command k ∷ ts) batch ts_begin =
      finished-timed o clock n ts batch ts_begin
  finished-timed o clock n (pause ∷ ts) batch ts_begin =
      finished-timed o clock (n + 2) ts []
        (next_call o (is_empty batch) ts_begin (clock n) (clock (n + 1))).1

  -- A task that batches its input pipe, with a limit of some kind, yields the items that come before
  -- the end command, each once and in order, in batches of at least one item and at most the batch
  -- size, and then ends; commands and time-outs in between change only where the batches are cut.
  pub batch_task-data :
      (o : Options) (clock : ℕ → ℕ) (ts : List (Arrival A K)) (f : Bool)
      (later : List (Event (Value A) K)) (calls : ℕ)
      → length ts < calls
      → (o.block ≡ false) ⊎ ((o.timeout ≢ none) ⊎ (o.batch_timeout ≢ none))
      → (t : Trace A) × (batch_task o clock calls (to_events ts ++ arrived (end_cmd f) ∷ later)
          ≡ some t)
        × (concat t.batches ≡ data_of ts)
        × All (Fits o.batch_size) t.batches
        × (t.finished ≡ true)
  unfolding batch_task
  batch_task-data o clock ts f later calls enough limited =
      let rounds = timed clock 0 (answers_of ts) in
      let t = recv_loop o [] none rounds in
      let ran : iter_fn o rounds ≡ some t = iter_fn-limited o rounds limited in
      let (kept, cut_well) = iter_fn-received o rounds t ran in
      let done = finished-timed o clock 0 ts [] none in
      (
        t,
        rw (answers_lem ts f later calls enough) ran,
        sym (append-nil (concat t.batches))
            ∙ (ap (λ l. concat t.batches ++ l) (sym (cut_well.flushed done))
                ∙ (kept ∙ received-timed clock 0 ts)),
        cut_well.cut_right,
        done,
      )
