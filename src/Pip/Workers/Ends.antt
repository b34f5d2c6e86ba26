-- ===== src/Pip/Workers/Ends.antt =====
-- Every run of a task's workers ends: each step uses something up.
use smartlibs.Prelude.{
  ℕ, zero, suc, ◌+◌, ◌-◌, ◌*◌, ◌≤◌, ◌<◌, List, [], ◌∷◌, ◌++◌, ◌≡◌, ap, Bool, true, false, replicate,
  length, arith,
}
use smartlibs.Pip.{Message, item, end_cmd, app_cmd}
use smartlibs.Pip.Workers.{
  Pod, Step, take_item, take_command, send_one, finish_item, read_end, report, Reach, here, next,
  on_queue_end, on_worker_done,
}

module _ {B : Type 0} where
  abbrev pub busy_steps : List (List B) → ℕ
  busy_steps [] = 0
  busy_steps (b ∷ bs) = length b + 1 + busy_steps bs

  busy_steps-append :
      (xs ys : List (List B)) → busy_steps (xs ++ ys) ≡ busy_steps xs + busy_steps ys
  busy_steps-append [] ys = omega arith
  busy_steps-append (x ∷ xs) ys = omega (arith, busy_steps-append xs ys)

module _ {A B K : Type 0} (worker_num : ℕ) (run : A → List B) where
  -- The steps that a message can still cause.
  abbrev pub message_steps : Message A K → ℕ
  message_steps (item x) = length (run x) + 2
  message_steps (app_cmd k) = 1
  message_steps (end_cmd true) = 2
  message_steps (end_cmd false) = 2 + 2 * (worker_num - 1)

  abbrev pub queue_steps : List (Message A K) → ℕ
  queue_steps [] = 0
  queue_steps (m ∷ ms) = message_steps m + queue_steps ms

  queue_steps-append :
      (xs ys : List (Message A K)) → queue_steps (xs ++ ys) ≡ queue_steps xs + queue_steps ys
  queue_steps-append [] ys = omega arith
  queue_steps-append (x ∷ xs) ys = omega (arith, queue_steps-append xs ys)

module _ {A B : Type 0} (K : Type 0) (worker_num : ℕ) (run : A → List B) where
  queue_steps-forwarded :
      (n : ℕ) → queue_steps worker_num run (replicate {A = Message A K} n (end_cmd true)) ≡ 2 * n
  queue_steps-forwarded zero = omega arith
  queue_steps-forwarded (suc n) = omega (arith, queue_steps-forwarded n)

  queue_steps-on_queue_end :
      (f : Bool)
      → queue_steps worker_num run (on_queue_end {K = K} worker_num run f) + 2
        ≡ message_steps {K = K} worker_num run (end_cmd f)
  unfolding on_queue_end
  queue_steps-on_queue_end true = omega arith
  queue_steps-on_queue_end false = omega (arith, queue_steps-forwarded (worker_num - 1))

module _ {A B K : Type 0} (worker_num : ℕ) (run : A → List B) where
  abbrev pub steps_left : Pod A B K → ℕ
  steps_left s = queue_steps worker_num run s.queue + busy_steps s.busy + s.stopping

  steps_left-on_worker_done :
      (s : Pod A B K) → steps_left (on_worker_done worker_num run s) ≤ steps_left s
  unfolding on_worker_done
  steps_left-on_worker_done s = ground arith

  steps_left-Step : {s t : Pod A B K} → Step worker_num run s t → steps_left t < steps_left s
  steps_left-Step {s} (take_item x q i e ei) = omega (arith, ap (queue_steps worker_num run) e)
  steps_left-Step {s} (take_command k q i e ei) = omega (arith, ap (queue_steps worker_num run) e)
  steps_left-Step {s} (send_one b bs before after e) = omega (
    arith,
    ap busy_steps e,
    busy_steps-append before ((b ∷ bs) ∷ after),
    busy_steps-append before (bs ∷ after),
  )
  steps_left-Step {s} (finish_item before after e) = omega (
    arith,
    ap busy_steps e,
    busy_steps-append before ([] ∷ after),
    busy_steps-append before after,
  )
  steps_left-Step {s} (read_end f q i e ei) = omega (
    arith,
    ap (queue_steps worker_num run) e,
    queue_steps-append worker_num run q (on_queue_end worker_num run f),
    queue_steps-on_queue_end K worker_num run f,
  )
  steps_left-Step {s} (report k e) =
      omega (arith, steps_left-on_worker_done (record s { stopping = k }))

  -- How many steps a run has.
  abbrev pub steps_of : {s t : Pod A B K} → Reach worker_num run s t → ℕ
  steps_of here = 0
  steps_of (next r step) = steps_of r + 1

  -- However the workers interleave, the steps of a run and the steps that are left in its last
  -- state are together at most the steps that are left in its first state: no run goes on for ever.
  pub delivery_ends :
      {s t : Pod A B K} (r : Reach worker_num run s t) → steps_of r + steps_left t ≤ steps_left s
  delivery_ends here = omega arith
  delivery_ends (next r step) = omega (arith, delivery_ends r, steps_left-Step step)
