-- ===== src/Pip/Workers.antt =====
-- smart/auto/exec/task_pod.py: the workers of one task share its input pipe. The first worker that
-- reads the upstream end command forwards one to each of the others (`_on_queue_end`), and the last
-- worker that is done sends the end command downstream and cleans the pipe (`_on_worker_done`).
-- The threads or processes interleave freely: a step relation. What a worker makes of an item, one
-- after the other, is the list `run x`.
mod Weight
mod Invariant
mod Steps
mod Endings
pub mod Delivery
mod Ends
mod Samples
use smartlibs.Prelude.{
  ℕ, zero, suc, ◌+◌, ◌-◌, List, [], ◌∷◌, ◌++◌, ◌≡◌, Bool, true, false, leb, if◌then◌else◌,
  replicate,
}
use smartlibs.Pip.{Message, item, end_cmd, app_cmd}

pub record Pod (A B K : Type 0) : Type 0 where
  pub queue : List (Message A K)
  -- The workers that wait for a message, and what each busy worker has still to send.
  pub idle : ℕ
  pub busy : List (List B)
  -- The workers whose generator has ended, and the count of those that reported to be done.
  pub stopping : ℕ
  pub worker_done_count : ℕ
  -- What the task has sent downstream.
  pub sent : List (Message B K)

module _ {A B K : Type 0} (worker_num : ℕ) (run : A → List B) where
  -- `_on_queue_end`: the messages that are put into the pipe.
  unfoldable pub on_queue_end : Bool → List (Message A K)
  on_queue_end true = []
  on_queue_end false = replicate (worker_num - 1) (end_cmd true)

  -- `_on_worker_done`, under the lock of the counter.
  unfoldable pub on_worker_done : Pod A B K → Pod A B K
  on_worker_done s =
      let counted = record s { worker_done_count = s.worker_done_count + 1 } in
      if leb worker_num (s.worker_done_count + 1)
      then record counted { queue = []; sent = s.sent ++ end_cmd false ∷ [] }
      else counted

  pub data Step (s : Pod A B K) : Pod A B K → Type 0 where
    take_item :
        (x : A) (q : List (Message A K)) (i : ℕ)
        → s.queue ≡ item x ∷ q
        → s.idle ≡ suc i
        → Step s (record s { queue = q; idle = i; busy = run x ∷ s.busy })
    take_command :
        (k : K) (q : List (Message A K)) (i : ℕ)
        → s.queue ≡ app_cmd k ∷ q
        → s.idle ≡ suc i
        → Step s (record s { queue = q })
    send_one :
        (b : B) (bs : List B) (before after : List (List B))
        → s.busy ≡ before ++ (b ∷ bs) ∷ after
        → Step s (record s { busy = before ++ bs ∷ after; sent = s.sent ++ item b ∷ [] })
    finish_item :
        (before after : List (List B))
        → s.busy ≡ before ++ [] ∷ after
        → Step s (record s { busy = before ++ after; idle = suc s.idle })
    read_end :
        (no_forward : Bool) (q : List (Message A K)) (i : ℕ)
        → s.queue ≡ end_cmd no_forward ∷ q
        → s.idle ≡ suc i
        → Step s
            (record s { queue = q ++ on_queue_end no_forward; idle = i; stopping = suc s.stopping })
    report : (k : ℕ) → s.stopping ≡ suc k → Step s (on_worker_done (record s { stopping = k }))

  pub data Reach (s : Pod A B K) : Pod A B K → Type 0 where
    here : Reach s s
    next : {t u : Pod A B K} → Reach s t → Step t u → Reach s u

  -- The upstream task has sent its messages and then its end command.
  abbrev pub start : List (Message A K) → Pod A B K
  start messages = record {
    queue = messages ++ end_cmd false ∷ [];
    idle = worker_num;
    busy = [];
    stopping = 0;
    worker_done_count = 0;
    sent = [];
  }
