-- ===== src/Store/Wait.antt =====
-- smart/utils/store/store.py: `wait` of `ContextState`, on the states that it finds turn by turn.
use Prim.Native.Nat.{min}
use smartlibs.Prelude.{
  ℕ, ◌+◌, ◌-◌, List, [], ◌∷◌, ◌++◌, ◌≡◌, false, not, ◌&&◌, none, some, ◌==◌, arith, if◌then◌else◌,
  ltb, Eq-nat,
}
use smartlibs.Text.{Text}
use smartlibs.Nested.{Tree, null, read, holds}
use smartlibs.Store.{ContextState, find_op, found_get}

-- What a wait ends with; `waiting` is a wait that has seen all turns that are given.
pub data Waited (V : Type 0) : Type 0 where
  got : Tree V → Waited V
  timed_out : Waited V
  waiting : Waited V

-- The state at a look, and the clock after the sleep that follows it.
pub record Turn (V : Type 0) : Type 0 where
  pub store : ContextState V
  pub now : ℕ

module _ {V : Type 0} where
  -- The end of the wait and the sleeps, in milliseconds.
  unfoldable pub wait_loop : List Text → ℕ → ℕ → ℕ → List (Turn V) → List ℕ → Waited V × List ℕ
  unfolding find_op read
  wait_loop key_path timeout begin_ts sleep_ts [] slept = (waiting, slept)
  wait_loop key_path timeout begin_ts sleep_ts (turn ∷ turns) slept =
      elim (find_op (found_get null) false turn.store key_path).1 [
        | some rst ↦ (got rst, slept)
        | none ↦
            if not (timeout == 0) && ltb timeout (turn.now - begin_ts)
            then (timed_out, slept ++ sleep_ts ∷ [])
            else wait_loop key_path timeout begin_ts (min (sleep_ts + 5) 5000) turns
                (slept ++ sleep_ts ∷ [])
      ]

  unfoldable pub wait : List Text → ℕ → ℕ → List (Turn V) → Waited V × List ℕ
  unfolding wait_loop
  wait key_path timeout begin_ts turns = wait_loop key_path timeout begin_ts 1 turns []

  -- A wait for a key of the state itself that is missing does not wait: it returns None at the first
  -- look, whatever its time-out.
  pub wait-missing :
      (key : Text) (timeout begin_ts : ℕ) (turn : Turn V) (turns : List (Turn V))
      → holds turn.store.state key ≡ false
      → wait (key ∷ []) timeout begin_ts (turn ∷ turns) ≡ (got null, [])
  unfolding wait find_op holds
  wait-missing key timeout begin_ts turn turns h = ground (arith, h)
