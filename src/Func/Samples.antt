-- ===== src/Func/Samples.antt =====
-- A function that returns its first argument, and None without arguments.
use smartlibs.Prelude.{ℕ, [], ◌∷◌, ◌≡◌, refl, true, false, none, some}
use smartlibs.Func.{Function, once_fn, once_call}
use smartlibs.Func.Once.{calls}

abbrev head : Function ℕ
head [] kwargs = none
head (x ∷ args) kwargs = some x

kept_run :
    calls (once_fn head [] []) (([], []) ∷ (4 ∷ [], []) ∷ (5 ∷ [], []) ∷ [])
    ≡ (none, true) ∷ (some 4, true) ∷ (some 4, false) ∷ []
unfolding once_fn once_call
kept_run = refl
