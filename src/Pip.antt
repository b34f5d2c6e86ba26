-- ===== src/Pip.antt =====
-- smart/auto/pip: the queue pipe between tasks, its commands, and the broadcast to several pipes.
-- What the queue gives is a list of the answers of `Queue.get`, in the order of the calls.
pub mod Receive
pub mod Fanout
pub mod ItemRecv
pub mod Workers
mod Samples
use smartlibs.Prelude.{
  List, [], ◌∷◌, ◌++◌, map, Bool, true, false, Option, none, some, if◌then◌else◌,
}

-- cmd.py: `Command(CommandType.end, no_forward=...)` and `Command(CommandType.app, **args)`; an
-- item is any other value in a queue.
pub data Message {ℓ} (A : Type ℓ) (K : Type ℓ) : Type ℓ where
  item : A → Message A K
  end_cmd : (no_forward : Bool) → Message A K
  app_cmd : (args : K) → Message A K

-- One call of `queue.get`: a message, or Empty.
pub data Event {ℓ} (A : Type ℓ) (K : Type ℓ) : Type ℓ where
  arrived : Message A K → Event A K
  timed_out : Event A K

pub record RecvOptions {ℓ} (A : Type ℓ) : Type ℓ where
  pub raise_empty : Bool
  pub end_on_timeout : Bool
  -- What `on_timeout()` returns, or Python's None (a value too) where there is no such function.
  pub timeout_item : A
  pub has_on_cmd : Bool

-- What the generator does for its caller: a value yielded, or `on_cmd` called.
pub data Action {ℓ} (A : Type ℓ) (K : Type ℓ) : Type ℓ where
  yielded : A → Action A K
  commanded : K → Action A K

-- How far the generator is: it waits for the queue, it has returned, or it has raised Empty.
pub data Status : Type 0 where
  waiting returned raised_empty : Status

pub record Received {ℓ} (A : Type ℓ) (K : Type ℓ) : Type ℓ where
  pub actions : List (Action A K)
  pub status : Status
  pub is_ended : Bool
  -- The command that `on_end` was called with: whether it says `no_forward`.
  pub ended_by : Option Bool
  pub unread : List (Event A K)

module _ {ℓ} {A K : Type ℓ} where
  abbrev pub then_ : Action A K → Received A K → Received A K
  then_ a r = record r { actions = a ∷ r.actions }

  abbrev pub stop_at : Status → Bool → Option Bool → List (Event A K) → Received A K
  stop_at status is_ended ended_by unread = record {
    actions = [];
    status = status;
    is_ended = is_ended;
    ended_by = ended_by;
    unread = unread;
  }

  -- The loop of `QueuePip.recv` while the pipe has not ended.
  unfoldable pub recv_loop : RecvOptions A → List (Event A K) → Received A K
  recv_loop o [] = stop_at waiting false none []
  recv_loop o (timed_out ∷ events) =
      let later = recv_loop o events in
      if o.raise_empty
      then stop_at raised_empty false none events
      else if o.end_on_timeout
      then stop_at returned false none events
      else then_ (yielded o.timeout_item) later
  recv_loop o (arrived (item x) ∷ events) = then_ (yielded x) (recv_loop o events)
  recv_loop o (arrived (end_cmd f) ∷ events) = stop_at returned true (some f) events
  recv_loop o (arrived (app_cmd args) ∷ events) =
      let later = recv_loop o events in if o.has_on_cmd then then_ (commanded args) later else later

  -- A pipe that has ended yields nothing more and reads nothing more.
  unfoldable pub recv : RecvOptions A → Bool → List (Event A K) → Received A K
  unfolding recv_loop
  recv o true events = stop_at returned true none events
  recv o false events = recv_loop o events

-- Broadcast.py: one list of the messages of each pipe, in the order of `create_pip`.
module _ {ℓ} {M : Type ℓ} where
  unfoldable pub create_pip : List (List M) → List (List M)
  create_pip pips = pips ++ [] ∷ []

  unfoldable pub send : List (List M) → M → List (List M)
  send [] message = []
  send (pip ∷ pips) message = (pip ++ message ∷ []) ∷ send pips message
