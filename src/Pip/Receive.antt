-- ===== src/Pip/Receive.antt =====
-- What `QueuePip.recv` yields of the traffic in its queue.
use smartlibs.Prelude.{
  List, [], ◌∷◌, ◌++◌, ◌≡◌, refl, ap, Bool, true, false, some, arith, if◌then◌else◌,
}
use smartlibs.Pip.{
  item, end_cmd, app_cmd, Event, arrived, RecvOptions, Action, yielded, commanded, returned, then_,
  recv_loop, recv,
}

-- What a queue holds before the end command: items and application commands.
pub data Traffic {ℓ} (A : Type ℓ) (K : Type ℓ) : Type ℓ where
  datum : A → Traffic A K
  command : K → Traffic A K

module _ {ℓ} {A K : Type ℓ} where
  abbrev pub arrivals : List (Traffic A K) → List (Event A K)
  arrivals [] = []
  arrivals (datum x ∷ ts) = arrived (item x) ∷ arrivals ts
  arrivals (command k ∷ ts) = arrived (app_cmd k) ∷ arrivals ts

  -- What the caller of `recv` is to see of the traffic.
  abbrev pub seen : Bool → List (Traffic A K) → List (Action A K)
  seen on_cmd [] = []
  seen on_cmd (datum x ∷ ts) = yielded x ∷ seen on_cmd ts
  seen on_cmd (command k ∷ ts) =
      let rest = seen on_cmd ts in if on_cmd then commanded k ∷ rest else rest

  -- Up to the end command every item is yielded once and in order, the application commands go to
  -- `on_cmd` in their places, then the generator returns with the pipe ended; what stands behind the
  -- end command stays in the queue.
  pub recv_in_order :
      (o : RecvOptions A) (ts : List (Traffic A K)) (f : Bool) (later : List (Event A K))
      → recv o false (arrivals ts ++ arrived (end_cmd f) ∷ later) ≡ record {
        actions = seen o.has_on_cmd ts;
        status = returned;
        is_ended = true;
        ended_by = some f;
        unread = later;
      }
  unfolding recv
  recv_in_order o [] f later = unfold recv_loop in refl
  recv_in_order o (datum x ∷ ts) f later =
      unfold recv_loop in ap (then_ (yielded x)) (recv_in_order o ts f later)
  recv_in_order o (command k ∷ ts) f later =
      unfold recv_loop in ground (arith, recv_in_order o ts f later)
