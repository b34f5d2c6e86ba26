-- ===== src/Pip/Workers/Endings.antt =====
-- The steps that end a worker keep the invariant.
use smartlibs.Prelude.{
  Bool-cases, ℕ, suc, ◌+◌, ◌-◌, List, [], ◌∷◌, ◌++◌, ◌≡◌, sym, ap, ◌∙◌, Bool, true, false, leb,
  replicate, length, arith, append-nil, map, inl, inr,
}
use smartlibs.Pip.{Message, item, end_cmd}
use smartlibs.Pip.Workers.{Pod, on_queue_end, on_worker_done}
use smartlibs.Pip.Workers.Weight.{weigh, weigh_all, weigh_messages, weigh_messages-ends}
use smartlibs.Pip.Workers.Invariant.{
  flowing_head, ending_head, Phase, flowing, ending, IsSound, closing, closing_open,
}

module _ {A B K : Type 0} (worker_num : ℕ) (run : A → List B) where
  module _ (messages : List (Message A K)) (s : Pod A B K)
      (inv : IsSound worker_num run messages s) where
    open inv use {phase, workers, outputs, sent_so_far, conserved}

    pub read_end-IsSound :
        (f : Bool) (q : List (Message A K)) (i : ℕ)
        → s.queue ≡ end_cmd f ∷ q
        → s.idle ≡ suc i
        → IsSound worker_num run messages (record s {
          queue = q ++ on_queue_end worker_num run f;
          idle = i;
          stopping = suc s.stopping;
        })
    read_end-IsSound f q i eq ei = record {
      phase = new_phase f eq phase;
      workers = omega arith;
      outputs = outputs;
      sent_so_far = sent_so_far;
      conserved = λ w. forwarded f eq w;
    }
      where
        forwarded :
            (f : Bool)
            → s.queue ≡ end_cmd f ∷ q
            → (w : B → ℕ)
            → weigh w outputs
                + weigh_all w s.busy
                + weigh_messages run w (q ++ on_queue_end worker_num run f)
              ≡ weigh_messages run w messages
        forwarded true eq w =
            unfold on_queue_end in
            omega (
              arith,
              conserved w,
              ap (weigh_messages run w) eq,
              ap (weigh_messages run w) (append-nil q),
            )
        forwarded false eq w =
            unfold on_queue_end in
            omega (
              arith,
              conserved w,
              ap (weigh_messages run w) eq,
              weigh_messages-ends run w (worker_num - 1) q,
            )

        new_phase :
            (f : Bool)
            → s.queue ≡ end_cmd f ∷ q
            → Phase worker_num run s
            → Phase worker_num run (record s {
              queue = q ++ on_queue_end worker_num run f;
              idle = i;
              stopping = suc s.stopping;
            })
        new_phase true eq (flowing ms plain e stop done) =
            elim (flowing_head ms q (end_cmd true) (sym e ∙ eq) plain) [
              | inl (ms', rest, plain', wrong) ↦ absurd wrong
              | inr (first, empty) ↦ cc
            ]
        new_phase false eq (flowing ms plain e stop done) =
            elim (flowing_head ms q (end_cmd false) (sym e ∙ eq) plain) [
              | inl (ms', rest, plain', wrong) ↦ absurd wrong
              | inr (first, empty) ↦
                  let left : i + length s.busy ≡ worker_num - 1 = omega (arith, workers) in
                  ending (
                    unfold on_queue_end in
                    ap (λ l. l ++ replicate (worker_num - 1) (end_cmd true)) empty
                    ∙ ap (λ n. replicate n (end_cmd true)) (sym left))
            ]
        new_phase true eq (ending e) =
            let (k, count, same, rest) = ending_head _ q (end_cmd true) (sym e ∙ eq) in
            let left : k ≡ i + length s.busy = omega arith in
            ending (
              unfold on_queue_end in
              append-nil q ∙ (rest ∙ ap (λ n. replicate n (end_cmd true)) left))
        new_phase false eq (ending e) =
            let h = ending_head _ q (end_cmd false) (sym e ∙ eq) in cc h.2

    -- Once a worker has read an end command, only forwarded ones are left in the pipe.
    pub only_ends :
        (k : ℕ) → s.stopping ≡ suc k → s.queue ≡ replicate (s.idle + length s.busy) (end_cmd true)
    only_ends k es = by_phase phase
      where
        by_phase :
            Phase worker_num run s → s.queue ≡ replicate (s.idle + length s.busy) (end_cmd true)
        by_phase (flowing ms plain e stop done) = absurd (omega arith)
        by_phase (ending e) = e

    pub report-IsSound :
        (k : ℕ)
        → s.stopping ≡ suc k
        → IsSound worker_num run messages
            (on_worker_done worker_num run (record s { stopping = k }))
    unfolding on_worker_done
    report-IsSound k es = elim (Bool-cases (leb worker_num (s.worker_done_count + 1))) [
      | inl last ↦ rw last (last_one last)
      | inr others ↦ rw others (one_of_several others)
    ]
      where
        ends : s.queue ≡ replicate (s.idle + length s.busy) (end_cmd true)
        ends = only_ends k es

        open_ : closing {K = K} worker_num run s.worker_done_count ≡ []
        open_ = closing_open worker_num run s.worker_done_count (omega (arith, workers))

        one_of_several :
            leb worker_num (s.worker_done_count + 1) ≡ false
            → IsSound worker_num run messages
                (record s { stopping = k; worker_done_count = s.worker_done_count + 1 })
        one_of_several others = record {
          phase = ending ends;
          workers = omega (arith, workers);
          outputs = outputs;
          sent_so_far = sent_so_far ∙ ap (λ l. map item outputs ++ l) (rw others open_);
          conserved = conserved;
        }

        last_one :
            leb worker_num (s.worker_done_count + 1) ≡ true
            → IsSound worker_num run messages (record s {
              queue = [];
              stopping = k;
              worker_done_count = s.worker_done_count + 1;
              sent = s.sent ++ end_cmd false ∷ [];
            })
        last_one last =
            let all_done : s.idle + length s.busy ≡ 0 = ground (arith, workers) in
            let empty : s.queue ≡ [] = ends ∙ ap (λ n. replicate n (end_cmd true)) all_done in
            record {
              phase = ending (ap (λ n. replicate n (end_cmd true)) (sym all_done));
              workers = omega (arith, workers);
              outputs = outputs;
              sent_so_far = rw last (
                  ap (λ l. l ++ end_cmd false ∷ [])
                    (sent_so_far ∙ (ap (λ l. map item outputs ++ l) open_ ∙ append-nil _)));
              conserved = λ w. omega (arith, conserved w, ap (weigh_messages run w) empty);
            }
