-- ===== src/Pip/Workers/Invariant.antt =====
-- The invariant of a task's workers.
use smartlibs.Prelude.{
  ℕ, zero, suc, ◌+◌, ◌<◌, List, [], ◌∷◌, ◌++◌, ◌≡◌, refl, true, false, leb, if◌then◌else◌,
  replicate, length, All, arith, map, ◌⊎◌, inl, inr,
}
use mathlib.Core.Path.{subst}
use smartlibs.Pip.{Message, item, end_cmd}
use smartlibs.Pip.Workers.{Pod}
use smartlibs.Pip.Workers.Weight.{weigh, weigh_all, weigh_messages}

abbrev pub IsPlain : {A K : Type 0} → Message A K → Type 0
IsPlain (end_cmd f) = ⊥
IsPlain _ = Unit

module _ {A K : Type 0} where
  -- The head of a queue in its first phase, and what is left.
  pub flowing_head :
      (ms q : List (Message A K)) (m : Message A K)
      → ms ++ end_cmd false ∷ [] ≡ m ∷ q
      → All IsPlain ms
      → ((ms' : List (Message A K)) × (q ≡ ms' ++ end_cmd false ∷ []) × All IsPlain ms' × IsPlain m)
        ⊎ ((m ≡ end_cmd false) × (q ≡ []))
  flowing_head [] q m e plain = inr (cc, cc)
  flowing_head (m' ∷ ms) q m e plain =
      let same : m' ≡ m = cc in
      let rest : q ≡ ms ++ end_cmd false ∷ [] = cc in
      inl (ms, rest, plain.1, subst IsPlain same plain.0)

  -- The head of a queue of forwarded end commands.
  pub ending_head :
      (n : ℕ) (q : List (Message A K)) (m : Message A K)
      → replicate n (end_cmd true) ≡ m ∷ q
      → (k : ℕ) × (n ≡ suc k) × (m ≡ end_cmd true) × (q ≡ replicate k (end_cmd true))
  ending_head zero q m e = cc
  ending_head (suc k) q m e = (k, refl, cc, cc)

module _ {A B K : Type 0} (worker_num : ℕ) (run : A → List B) where
  -- Before the end command is read it stands behind the other messages; after that the pipe holds
  -- one forwarded end command for each worker that is still at work.
  pub data Phase (s : Pod A B K) : Type 0 where
    flowing :
        (ms : List (Message A K))
        → All IsPlain ms
        → s.queue ≡ ms ++ end_cmd false ∷ []
        → s.stopping ≡ 0
        → s.worker_done_count ≡ 0
        → Phase s
    ending : s.queue ≡ replicate (s.idle + length s.busy) (end_cmd true) → Phase s

  abbrev pub closing : ℕ → List (Message B K)
  closing done = if leb worker_num done then end_cmd false ∷ [] else []

  pub record IsSound (messages : List (Message A K)) (s : Pod A B K) : Type 0 where
    pub phase : Phase s
    pub workers : s.idle + length s.busy + s.stopping + s.worker_done_count ≡ worker_num
    pub outputs : List B
    pub sent_so_far : s.sent ≡ map item outputs ++ closing s.worker_done_count
    pub conserved :
        (w : B → ℕ)
        → weigh w outputs + weigh_all w s.busy + weigh_messages run w s.queue
          ≡ weigh_messages run w messages

  pub closing_open : (done : ℕ) → done < worker_num → closing done ≡ []
  closing_open done lt = ground arith
