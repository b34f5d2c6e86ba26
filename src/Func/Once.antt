-- ===== src/Func/Once.antt =====
-- How often a function that keeps its result is called.
use smartlibs.Prelude.{
  List, [], ◌∷◌, ◌≡◌, refl, Bool, true, false, Option, none, some, Option-cases, inl, inr, arith,
  map,
}
use smartlibs.Func.{Kwargs, Function, BoundFn, OnceFn, bound_call, once_call, once_fn}

module _ {V : Type 0} where
  -- The results of some calls, each with whether it called the function itself.
  abbrev pub calls : OnceFn V → List (List V × Kwargs V) → List (Option V × Bool)
  calls fn [] = []
  calls fn ((args, kwargs) ∷ rest) = let c = once_call fn args kwargs in c.1 ∷ calls c.0 rest

  -- The calls as they should be: the function is called until it gives a result, which is kept.
  abbrev pub kept : BoundFn V → List (List V × Kwargs V) → List (Option V × Bool)
  kept fn [] = []
  kept fn ((args, kwargs) ∷ rest) =
      let later = kept fn rest in
      elim (bound_call fn args kwargs) [
        | none ↦ (none, true) ∷ later
        | some v ↦ (some v, true) ∷ map (λ c. (some v, false)) rest
      ]

  calls-some :
      (fn : OnceFn V) (v : V) (cs : List (List V × Kwargs V))
      → fn.rst ≡ some v
      → calls fn cs ≡ map (λ c. (some v, false)) cs
  unfolding once_call
  calls-some fn v [] h = refl
  calls-some fn v ((args, kwargs) ∷ cs) h = ground (arith, h, calls-some fn v cs h)

  calls-none :
      (fn : OnceFn V) (cs : List (List V × Kwargs V))
      → fn.rst ≡ none
      → calls fn cs ≡ kept fn.bound_fn cs
  unfolding once_call
  calls-none fn [] h = refl
  calls-none fn ((args, kwargs) ∷ cs) h = elim (Option-cases (bound_call fn.bound_fn args kwargs)) [
    | inl e ↦ ground (arith, h, e, calls-none (record fn { rst = none }) cs refl)
    | inr (v, e) ↦ ground (arith, h, e, calls-some (record fn { rst = some v }) v cs refl)
  ]

  -- A function that is to be called once is called, with its bound arguments before those of the call,
  -- until it returns something else than None; that result is what every later call returns, and the
  -- function is not called any more.
  pub once_fn-kept :
      (func : Function V) (fn_args : List V) (fn_kwargs : Kwargs V) (cs : List (List V × Kwargs V))
      → calls (once_fn func fn_args fn_kwargs) cs
        ≡ kept (once_fn func fn_args fn_kwargs).bound_fn cs
  unfolding once_fn
  once_fn-kept func fn_args fn_kwargs cs = calls-none (once_fn func fn_args fn_kwargs) cs refl
