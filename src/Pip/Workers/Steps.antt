-- ===== src/Pip/Workers/Steps.antt =====
-- Every step of the workers keeps the invariant.
use smartlibs.Prelude.{
  ℕ, suc, ◌+◌, ◌<◌, List, [], ◌∷◌, ◌++◌, ◌≡◌, sym, ap, ◌∙◌, length, length-append, arith,
  append-nil, map, inl, inr,
}
use mathlib.Core.List.{map-append}
use smartlibs.Pip.{Message, item, app_cmd}
use smartlibs.Pip.Workers.{Pod}
use smartlibs.Pip.Workers.Weight.{weigh_all, weigh-append, weigh_all-append, weigh_messages}
use smartlibs.Pip.Workers.Invariant.{
  flowing_head, ending_head, Phase, flowing, ending, IsSound, closing, closing_open,
}

module _ {A B K : Type 0} (worker_num : ℕ) (run : A → List B) where
  module _ (messages : List (Message A K)) (s : Pod A B K)
      (inv : IsSound worker_num run messages s) where
    open inv use {phase, workers, outputs, sent_so_far, conserved}

    pub take_item-IsSound :
        (x : A) (q : List (Message A K)) (i : ℕ)
        → s.queue ≡ item x ∷ q
        → s.idle ≡ suc i
        → IsSound worker_num run messages (record s { queue = q; idle = i; busy = run x ∷ s.busy })
    take_item-IsSound x q i eq ei = record {
      phase = new_phase phase;
      workers = omega arith;
      outputs = outputs;
      sent_so_far = sent_so_far;
      conserved = λ w. omega (arith, conserved w, ap (weigh_messages run w) eq);
    }
      where
        new_phase :
            Phase worker_num run s
            → Phase worker_num run (record s { queue = q; idle = i; busy = run x ∷ s.busy })
        new_phase (flowing ms plain e stop done) =
            elim (flowing_head ms q (item x) (sym e ∙ eq) plain) [
              | inl (ms', rest, plain', _) ↦ flowing ms' plain' rest stop done
              | inr (wrong, _) ↦ cc
            ]
        new_phase (ending e) = let h = ending_head _ q (item x) (sym e ∙ eq) in cc h.2

    pub take_command-IsSound :
        (k : K) (q : List (Message A K))
        → s.queue ≡ app_cmd k ∷ q
        → IsSound worker_num run messages (record s { queue = q })
    take_command-IsSound k q eq = record {
      phase = new_phase phase;
      workers = workers;
      outputs = outputs;
      sent_so_far = sent_so_far;
      conserved = λ w. omega (arith, conserved w, ap (weigh_messages run w) eq);
    }
      where
        new_phase : Phase worker_num run s → Phase worker_num run (record s { queue = q })
        new_phase (flowing ms plain e stop done) =
            elim (flowing_head ms q (app_cmd k) (sym e ∙ eq) plain) [
              | inl (ms', rest, plain', _) ↦ flowing ms' plain' rest stop done
              | inr (wrong, _) ↦ cc
            ]
        new_phase (ending e) = let h = ending_head _ q (app_cmd k) (sym e ∙ eq) in cc h.2

    -- While a worker is busy not all are done, so downstream has had no end command.
    still_open : 0 < length s.busy → closing {K = K} worker_num run s.worker_done_count ≡ []
    still_open pos = closing_open worker_num run s.worker_done_count (omega (arith, workers))

    pub send_one-IsSound :
        (b : B) (bs : List B) (before after : List (List B))
        → s.busy ≡ before ++ (b ∷ bs) ∷ after
        → IsSound worker_num run messages
            (record s { busy = before ++ bs ∷ after; sent = s.sent ++ item b ∷ [] })
    send_one-IsSound b bs before after eb =
        let size = ap length eb in
        let l1 = length-append before ((b ∷ bs) ∷ after) in
        let l2 = length-append before (bs ∷ after) in
        let same : length (before ++ bs ∷ after) ≡ length s.busy = omega (arith, size, l1, l2) in
        record {
          phase = new_phase same phase;
          workers = omega (arith, workers, same);
          outputs = outputs ++ b ∷ [];
          sent_so_far = one_more (still_open (omega (arith, size, l1)));
          conserved = λ w. omega (
            arith,
            conserved w,
            ap (weigh_all w) eb,
            weigh_all-append w before ((b ∷ bs) ∷ after),
            weigh_all-append w before (bs ∷ after),
            weigh-append w outputs (b ∷ []),
          );
        }
      where
        one_more :
            closing {K = K} worker_num run s.worker_done_count ≡ []
            → s.sent ++ item b ∷ []
              ≡ map item (outputs ++ b ∷ []) ++ closing {K = K} worker_num run s.worker_done_count
        one_more open_ =
            ap (λ l. l ++ item b ∷ [])
              (sent_so_far ∙ (ap (λ l. map item outputs ++ l) open_ ∙ append-nil _))
            ∙ (sym (map-append item outputs (b ∷ []))
                ∙ (sym (append-nil _) ∙ ap (λ l. map item (outputs ++ b ∷ []) ++ l) (sym open_)))

        new_phase :
            length (before ++ bs ∷ after) ≡ length s.busy
            → Phase worker_num run s
            → Phase worker_num run
                (record s { busy = before ++ bs ∷ after; sent = s.sent ++ item b ∷ [] })
        new_phase same (flowing ms plain e stop done) = flowing ms plain e stop done
        new_phase same (ending e) = ending (rw same e)

    pub finish_item-IsSound :
        (before after : List (List B))
        → s.busy ≡ before ++ [] ∷ after
        → IsSound worker_num run messages (record s { busy = before ++ after; idle = suc s.idle })
    finish_item-IsSound before after eb =
        let size = ap length eb in
        let l1 = length-append before ([] ∷ after) in
        let l2 = length-append before after in
        let same : suc s.idle + length (before ++ after) ≡ s.idle + length s.busy =
          omega (arith, size, l1, l2) in
        record {
          phase = new_phase same phase;
          workers = omega (arith, workers, same);
          outputs = outputs;
          sent_so_far = sent_so_far;
          conserved = λ w. omega (
            arith,
            conserved w,
            ap (weigh_all w) eb,
            weigh_all-append w before ([] ∷ after),
            weigh_all-append w before after,
          );
        }
      where
        new_phase :
            suc s.idle + length (before ++ after) ≡ s.idle + length s.busy
            → Phase worker_num run s
            → Phase worker_num run (record s { busy = before ++ after; idle = suc s.idle })
        new_phase same (flowing ms plain e stop done) = flowing ms plain e stop done
        new_phase same (ending e) = ending (rw same e)
