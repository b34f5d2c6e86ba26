-- ===== src/Pip/Workers/Samples.antt =====
-- Two workers and one item.
use smartlibs.Prelude.{ℕ, ◌+◌, ◌≤◌, List, [], ◌∷◌, ◌++◌, ◌≡◌, refl, map, arith, true, false}
use smartlibs.Pip.{Message, item, end_cmd}
use smartlibs.Pip.Workers.{
  Pod, Step, take_item, send_one, finish_item, read_end, report, Reach, here, next, start,
  on_queue_end, on_worker_done,
}
use smartlibs.Pip.Workers.Weight.{weigh, weigh_messages}
use smartlibs.Pip.Workers.Ends.{steps_of, steps_left, delivery_ends}
use smartlibs.Pip.Workers.Delivery.{delivery, delivery_progress}

abbrev run : ℕ → List ℕ
run x = (x + 1) ∷ []

abbrev messages : List (Message ℕ ℕ)
messages = item 4 ∷ []

abbrev last : Pod ℕ ℕ ℕ
last = record {
  queue = [];
  idle = 0;
  busy = [];
  stopping = 0;
  worker_done_count = 2;
  sent = item 5 ∷ end_cmd false ∷ [];
}

-- The first worker takes the item, the second forwards the end command, and both report.
path : Reach 2 run (start 2 run messages) last
unfolding on_queue_end on_worker_done
path =
    next
      (next
        (next
          (next
            (next (next (next here (take_item 4 _ 1 refl refl)) (read_end false [] 0 refl refl))
              (report 0 refl))
            (send_one 5 [] [] [] refl))
          (finish_item [] [] refl))
        (read_end true [] 0 refl refl))
      (report 0 refl)

delivery_example :
    (last.queue ≡ [])
    × (outputs : List ℕ) × (last.sent ≡ map item outputs ++ end_cmd false ∷ [])
    × ((w : ℕ → ℕ) → weigh w outputs ≡ weigh_messages run w messages)
delivery_example = delivery 2 run messages last (omega arith) (tt, tt) path refl

progress_example : (t : Pod ℕ ℕ ℕ) × Step 2 run (start 2 run messages) t
progress_example =
    delivery_progress 2 run messages (start 2 run messages) (omega arith) (tt, tt) here
      (λ e. absurd (omega arith))

ends_example : steps_of 2 run path + steps_left 2 run last ≤ steps_left 2 run (start 2 run messages)
ends_example = delivery_ends 2 run path
