-- ===== src/Pip/Samples.antt =====
-- Small runs of the pipes.
use smartlibs.Prelude.{
  ℕ, List, [], ◌∷◌, ◌++◌, ◌≡◌, refl, true, false, none, some, concat, All, arith, inr, inl,
}
use smartlibs.Batch.Recv.{Options, Trace}
use smartlibs.Batch.Recv.Order.{Fits}
use smartlibs.Pip.{item, end_cmd, app_cmd, Event, arrived, timed_out, RecvOptions}
use smartlibs.Pip.Receive.{Traffic, datum, command}
use smartlibs.Pip.Fanout.{Use, create, put, use_all}
use smartlibs.Pip.ItemRecv.{batch_task}
use smartlibs.Pip.ItemRecv.Batched
use smartlibs.Pip.ItemRecv.Batched.{
  Arrival, values, rest_values, next_value-recv, to_events, data_of, batch_task-data,
}

abbrev options : RecvOptions ℕ
options = record { raise_empty = false; end_on_timeout = true; timeout_item = 0; has_on_cmd = true }

abbrev traffic : List (Traffic ℕ ℕ)
traffic = datum 1 ∷ command 7 ∷ datum 2 ∷ []

abbrev events : List (Event ℕ ℕ)
events = arrived (app_cmd 7) ∷ arrived (item 1) ∷ timed_out ∷ []

-- Two pipes, the second created behind the first message.
abbrev calls : List (Use ℕ)
calls = create ∷ put 1 ∷ create ∷ put 2 ∷ []

two_pipes : use_all [] calls ≡ (1 ∷ 2 ∷ []) ∷ (2 ∷ []) ∷ []
unfolding use_all
two_pipes = refl

abbrev limits : Options
limits = record { batch_size = 2; block = true; timeout = some 5; batch_timeout = none }

abbrev arriving : List (Arrival ℕ ℕ)
arriving =
    Batched.datum 1 ∷ Batched.pause ∷ Batched.datum 2 ∷ Batched.command 7 ∷ Batched.datum 3 ∷ []

clock : ℕ → ℕ
clock n = n

batched_example :
    (t : Trace ℕ) × (batch_task limits clock 6 (to_events arriving ++ arrived (end_cmd false) ∷ [])
      ≡ some t)
    × (concat t.batches ≡ data_of arriving)
    × All (Fits 2) t.batches
    × (t.finished ≡ true)
batched_example =
    batch_task-data limits clock arriving false [] 6 (omega arith) (inr (inl (λ e. cc)))
