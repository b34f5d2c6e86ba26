-- ===== src/FnChain/Samples.antt =====
-- A chain of two blocks.
use smartlibs.Prelude.{ℕ, List, [], ◌∷◌, ◌≡◌, refl, Bool, true, false, Option, none, some, concat}
use smartlibs.FnChain.{dict_result, other_result, FnItem, run_chain}
use smartlibs.FnChain.Once.{due, run_chain-due, run_chain-again}

abbrev given : FnItem Bool ℕ
given = record {
  func = λ kwargs. dict_result ((b'a' ∷ [], 1) ∷ []);
  bind_kwargs = [];
  fn_type = true;
  name = b'g' ∷ [];
  result = other_result;
  called = false;
}

-- It returns what it is given.
abbrev passing : FnItem Bool ℕ
passing = record {
  func = λ kwargs. dict_result kwargs;
  bind_kwargs = (b'b' ∷ [], 2) ∷ [];
  fn_type = true;
  name = b'p' ∷ [];
  result = other_result;
  called = false;
}

abbrev chain : List (List (FnItem Bool ℕ))
chain = (given ∷ []) ∷ (passing ∷ []) ∷ []

abbrev filter : Option (Bool → Bool)
filter = some (λ fn_type. fn_type)

handed_on : (run_chain filter true chain).1 ≡ (b'a' ∷ [], 1) ∷ (b'b' ∷ [], 2) ∷ []
unfolding run_chain
handed_on = refl

-- Without a filter nothing runs.
no_filter : (run_chain none false chain).2 ≡ []
unfolding run_chain
no_filter = refl

due_example : (run_chain filter true chain).2 ≡ due filter true (concat chain)
due_example = run_chain-due filter true chain

again_example :
    run_chain filter true (run_chain filter true chain).0
    ≡ ((run_chain filter true chain).0, (run_chain filter true chain).1, [])
again_example = run_chain-again filter chain
