-- ===== src/Pip/Workers/Delivery.antt =====
-- Whatever the interleaving: every output is sent once, the end command comes once and last, and
-- the workers never wait for ever.
use smartlibs.Prelude.{
  ℕ, zero, suc, ◌+◌, ◌≤◌, ◌<◌, List, [], ◌∷◌, ◌++◌, ◌≡◌, refl, sym, ap, ◌∙◌, true, false, replicate,
  length, length-zero, All, arith, map, ◌≢◌,
}
use smartlibs.Pip.{Message, item, end_cmd, app_cmd}
use smartlibs.Pip.Workers.{
  Pod, Step, take_item, take_command, send_one, finish_item, read_end, report, Reach, here, next,
  start,
}
use smartlibs.Pip.Workers.Weight.{weigh, weigh_all, weigh_messages, weigh_messages-append}
use smartlibs.Pip.Workers.Invariant.{
  IsPlain, Phase, flowing, ending, IsSound, closing, closing_open,
}
use smartlibs.Pip.Workers.Steps.{
  take_item-IsSound, take_command-IsSound, send_one-IsSound, finish_item-IsSound,
}
use smartlibs.Pip.Workers.Endings.{read_end-IsSound, report-IsSound}

module _ {A B K : Type 0} (worker_num : ℕ) (run : A → List B) where
  Step-IsSound :
      {messages : List (Message A K)} {s t : Pod A B K}
      → Step worker_num run s t
      → IsSound worker_num run messages s
      → IsSound worker_num run messages t
  Step-IsSound {messages} {s} (take_item x q i eq ei) inv =
      take_item-IsSound worker_num run messages s inv x q i eq ei
  Step-IsSound {messages} {s} (take_command k q i eq ei) inv =
      take_command-IsSound worker_num run messages s inv k q eq
  Step-IsSound {messages} {s} (send_one b bs before after eb) inv =
      send_one-IsSound worker_num run messages s inv b bs before after eb
  Step-IsSound {messages} {s} (finish_item before after eb) inv =
      finish_item-IsSound worker_num run messages s inv before after eb
  Step-IsSound {messages} {s} (read_end f q i eq ei) inv =
      read_end-IsSound worker_num run messages s inv f q i eq ei
  Step-IsSound {messages} {s} (report k es) inv = report-IsSound worker_num run messages s inv k es

  start-IsSound :
      (messages : List (Message A K))
      → 0 < worker_num
      → All IsPlain messages
      → IsSound worker_num run messages (start worker_num run messages)
  start-IsSound messages pos plain = record {
    phase = flowing messages plain refl refl refl;
    workers = omega arith;
    outputs = [];
    sent_so_far = sym (closing_open worker_num run 0 pos);
    conserved = λ w. omega (arith, weigh_messages-append run w messages (end_cmd false ∷ []));
  }

  Reach-IsSound :
      {messages : List (Message A K)} {s t : Pod A B K}
      → IsSound worker_num run messages s
      → Reach worker_num run s t
      → IsSound worker_num run messages t
  Reach-IsSound inv here = inv
  Reach-IsSound inv (next r step) = Step-IsSound step (Reach-IsSound inv r)

  all_done :
      {messages : List (Message A K)} (s : Pod A B K)
      → IsSound worker_num run messages s
      → worker_num ≤ s.worker_done_count
      → 0 < worker_num
      → (s.queue ≡ [])
        × (outputs : List B) × (s.sent ≡ map item outputs ++ end_cmd false ∷ [])
        × ((w : B → ℕ) → weigh w outputs ≡ weigh_messages run w messages)
  all_done {messages} s inv done pos = by_phase inv.phase
    where
      finished : closing {K = K} worker_num run s.worker_done_count ≡ end_cmd false ∷ []
      finished = ground arith

      no_busy : s.busy ≡ []
      no_busy = length-zero s.busy (omega (arith, inv.workers))

      by_phase :
          Phase worker_num run s
          → (s.queue ≡ [])
            × (outputs : List B) × (s.sent ≡ map item outputs ++ end_cmd false ∷ [])
            × ((w : B → ℕ) → weigh w outputs ≡ weigh_messages run w messages)
      by_phase (flowing ms plain e stop none_done) = absurd (omega arith)
      by_phase (ending e) =
          let none_left : s.idle + length s.busy ≡ 0 = omega (arith, inv.workers) in
          let empty : s.queue ≡ [] = e ∙ ap (λ n. replicate n (end_cmd true)) none_left in
          (
            empty,
            inv.outputs,
            inv.sent_so_far ∙ ap (λ l. map item inv.outputs ++ l) finished,
            λ w.
                omega (
                  arith,
                  inv.conserved w,
                  ap (weigh_all w) no_busy,
                  ap (weigh_messages run w) empty,
                ),
          )

  -- Where there is at least one worker and no end command among the messages before the upstream
  -- one: when the last of the workers has reported, the pipe is empty, and downstream has been sent
  -- the outputs of all the items, each as often as the items give it, then one end command, and
  -- nothing else; so it is for every interleaving.
  pub delivery :
      (messages : List (Message A K)) (s : Pod A B K)
      → 0 < worker_num
      → All IsPlain messages
      → Reach worker_num run (start worker_num run messages) s
      → s.worker_done_count ≡ worker_num
      → (s.queue ≡ [])
        × (outputs : List B) × (s.sent ≡ map item outputs ++ end_cmd false ∷ [])
        × ((w : B → ℕ) → weigh w outputs ≡ weigh_messages run w messages)
  delivery messages s pos plain r done =
      all_done s (Reach-IsSound (start-IsSound messages pos plain) r) (omega arith) pos

  CanStep : Pod A B K → Type 0
  CanStep s = (t : Pod A B K) × Step worker_num run s t

  busy_steps : (s : Pod A B K) (b : List B) (bs : List (List B)) → s.busy ≡ b ∷ bs → CanStep s
  unfolding CanStep
  busy_steps s [] bs e = (_, finish_item [] bs e)
  busy_steps s (b ∷ rest) bs e = (_, send_one b rest [] bs e)

  idle_steps :
      (s : Pod A B K) (m : Message A K) (q : List (Message A K)) (i : ℕ)
      → s.queue ≡ m ∷ q
      → s.idle ≡ suc i
      → CanStep s
  unfolding CanStep
  idle_steps s (item x) q i e ei = (_, take_item x q i e ei)
  idle_steps s (app_cmd k) q i e ei = (_, take_command k q i e ei)
  idle_steps s (end_cmd f) q i e ei = (_, read_end f q i e ei)

  waiting_steps : (s : Pod A B K) (i : ℕ) → Phase worker_num run s → s.idle ≡ suc i → CanStep s
  waiting_steps s i (flowing [] plain e stop done) ei = idle_steps s _ [] i e ei
  waiting_steps s i (flowing (m ∷ ms) plain e stop done) ei = idle_steps s m _ i e ei
  waiting_steps s i (ending e) ei =
      let more : s.idle + length s.busy ≡ suc (i + length s.busy) = omega arith in
      idle_steps s (end_cmd true) _ i (e ∙ ap (λ n. replicate n (end_cmd true)) more) ei

  -- Where there is at least one worker and no end command among the messages before the upstream
  -- one: in every state that is reached before all workers have reported,
  -- some worker can go on: no worker waits for an end command that never comes.
  pub delivery_progress :
      (messages : List (Message A K)) (s : Pod A B K)
      → 0 < worker_num
      → All IsPlain messages
      → Reach worker_num run (start worker_num run messages) s
      → s.worker_done_count ≢ worker_num
      → (t : Pod A B K) × Step worker_num run s t
  delivery_progress messages s pos plain r open_ = by_parts s.idle s.stopping s.busy refl refl refl
    where
      inv : IsSound worker_num run messages s
      inv = Reach-IsSound (start-IsSound messages pos plain) r

      by_parts :
          (i k : ℕ) (b : List (List B))
          → s.idle ≡ i
          → s.stopping ≡ k
          → s.busy ≡ b
          → (t : Pod A B K) × Step worker_num run s t
      by_parts i k (b ∷ bs) ei ek eb = unfold CanStep in busy_steps s b bs eb
      by_parts i (suc k) [] ei ek eb = (_, report k ek)
      by_parts (suc i) zero [] ei ek eb = unfold CanStep in waiting_steps s i inv.phase ei
      by_parts zero zero [] ei ek eb =
          absurd (open_ (omega (arith, inv.workers, ap (length {A = List B}) eb)))
