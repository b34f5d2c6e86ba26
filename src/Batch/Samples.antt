-- ===== src/Batch/Samples.antt =====
-- Small batches.
use smartlibs.Prelude.{ℕ, List, [], ◌∷◌, ◌++◌, ◌≡◌, refl, true, false, none, some, concat}
use smartlibs.Batch
use smartlibs.Batch.Recv.{Options, Round, item, empty, ended, Trace, iter_fn, received, next_call}
use smartlibs.Batch.Recv.Order.{WellCut, iter_fn-received}

abbrev five : List ℕ
five = 1 ∷ 2 ∷ 3 ∷ 4 ∷ 5 ∷ []

pairs : Batch.iter_fn 2 five ≡ (1 ∷ 2 ∷ []) ∷ (3 ∷ 4 ∷ []) ∷ (5 ∷ []) ∷ []
unfolding Batch.iter_fn
pairs = refl

abbrev options : Options
options = record { batch_size = 2; block = true; timeout = some 5; batch_timeout = some 8 }

abbrev rounds : List (Round ℕ)
rounds =
    record { begin_clock = 0; rest_clock = 0; reply = item 1 }
    ∷ record { begin_clock = 3; rest_clock = 4; reply = item 2 }
    ∷ record { begin_clock = 5; rest_clock = 5; reply = item 3 }
    ∷ record { begin_clock = 6; rest_clock = 7; reply = empty }
    ∷ record { begin_clock = 8; rest_clock = 8; reply = ended }
    ∷ []

-- The second call has 5 ticks for a single item, and the batch 7 more.
abbrev trace : Trace ℕ
trace = record {
  batches = (1 ∷ 2 ∷ []) ∷ (3 ∷ []) ∷ [];
  calls =
      record { blocking = true; limit = none }
      ∷ record { blocking = true; limit = some 5 }
      ∷ record { blocking = true; limit = none }
      ∷ record { blocking = true; limit = some 5 }
      ∷ record { blocking = true; limit = none }
      ∷ [];
  held = [];
  finished = true;
}

run : iter_fn options rounds ≡ some trace
unfolding iter_fn
run = refl

received_example : (concat trace.batches ++ trace.held ≡ received rounds) × WellCut 2 trace
received_example = iter_fn-received options rounds trace run

late : (next_call options false (some 3) 9 9).0 ≡ record { blocking = true; limit = some 2 }
unfolding next_call
late = refl
