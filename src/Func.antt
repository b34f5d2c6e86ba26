-- ===== src/Func.antt =====
-- smart/utils/bound.py: functions with bound arguments, and functions that keep their result. A
-- function takes positional and keyword arguments and returns a value, or None.
pub mod Once
mod Samples
use smartlibs.Prelude.{List, [], ◌∷◌, ◌++◌, Bool, true, false, Option, none, some, Eq-nat, Eq-list}
use smartlibs.Text.{Text}
use smartlibs.Dict.{Dict, set, update}

abbrev pub Kwargs : Type 0 → Type 0
Kwargs V = Dict Text V

abbrev pub Function : Type 0 → Type 0
Function V = List V → Kwargs V → Option V

pub record BoundFn (V : Type 0) : Type 0 where
  pub func : Function V
  pub fn_args : Option (List V)
  pub fn_kwargs : Option (Kwargs V)

-- `OnceFn`, with the result that it keeps.
pub record OnceFn (V : Type 0) : Type 0 where
  pub bound_fn : BoundFn V
  pub rst : Option V

module _ {V : Type 0} where
  unfoldable pub bind : BoundFn V → List V → Kwargs V → BoundFn V
  bind fn args kwargs = record fn { fn_args = some args; fn_kwargs = some kwargs }

  unfoldable pub bind_args : BoundFn V → List V
  bind_args fn = elim fn.fn_args [ none ↦ [] | some args ↦ args ]

  unfoldable pub bind_kwargs : BoundFn V → Kwargs V
  bind_kwargs fn = elim fn.fn_kwargs [ none ↦ [] | some kwargs ↦ kwargs ]

  -- The call of a bound function: its own arguments come first, and a keyword of the call overrides
  -- its own.
  unfoldable pub bound_call : BoundFn V → List V → Kwargs V → Option V
  unfolding bind_args bind_kwargs update set
  bound_call fn args kwargs = fn.func (bind_args fn ++ args) (update (bind_kwargs fn) kwargs)

  -- The call of a function that keeps its result, with whether the function itself is called.
  unfoldable pub once_call : OnceFn V → List V → Kwargs V → OnceFn V × (Option V × Bool)
  unfolding bound_call
  once_call fn args kwargs = elim fn.rst [
    | some rst ↦ (fn, (some rst, false))
    | none ↦ let rst = bound_call fn.bound_fn args kwargs in (record fn { rst = rst }, (rst, true))
  ]

  unfoldable pub once_fn : Function V → List V → Kwargs V → OnceFn V
  unfolding bind
  once_fn func fn_args fn_kwargs = record {
    bound_fn = bind (record { func = func; fn_args = none; fn_kwargs = none }) fn_args fn_kwargs;
    rst = none;
  }
