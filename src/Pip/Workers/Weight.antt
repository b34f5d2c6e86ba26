-- ===== src/Pip/Workers/Weight.antt =====
-- Weights of outputs: what a task sends, compared as a collection.
use smartlibs.Prelude.{ℕ, zero, suc, ◌+◌, List, [], ◌∷◌, ◌++◌, ◌≡◌, refl, true, replicate, arith}
use smartlibs.Pip.{Message, item, end_cmd, app_cmd}

-- The weight of a list of outputs, for a weight of each. Two lists have the same weights for every
-- function just when they hold the same outputs as often.
abbrev pub weigh : {B : Type 0} → (B → ℕ) → List B → ℕ
weigh w [] = 0
weigh w (b ∷ bs) = w b + weigh w bs

abbrev pub weigh_all : {B : Type 0} → (B → ℕ) → List (List B) → ℕ
weigh_all w [] = 0
weigh_all w (bs ∷ bss) = weigh w bs + weigh_all w bss

pub weigh-append :
    {B : Type 0} (w : B → ℕ) (xs ys : List B) → weigh w (xs ++ ys) ≡ weigh w xs + weigh w ys
weigh-append w [] ys = omega arith
weigh-append w (x ∷ xs) ys = omega (arith, weigh-append w xs ys)

pub weigh_all-append :
    {B : Type 0} (w : B → ℕ) (xs ys : List (List B))
    → weigh_all w (xs ++ ys) ≡ weigh_all w xs + weigh_all w ys
weigh_all-append w [] ys = omega arith
weigh_all-append w (x ∷ xs) ys = omega (arith, weigh_all-append w xs ys)

module _ {A B K : Type 0} (run : A → List B) (w : B → ℕ) where
  -- What the items among some messages weigh once they are run.
  abbrev pub weigh_messages : List (Message A K) → ℕ
  weigh_messages [] = 0
  weigh_messages (item x ∷ ms) = weigh w (run x) + weigh_messages ms
  weigh_messages (end_cmd f ∷ ms) = weigh_messages ms
  weigh_messages (app_cmd k ∷ ms) = weigh_messages ms

  pub weigh_messages-append :
      (xs ys : List (Message A K))
      → weigh_messages (xs ++ ys) ≡ weigh_messages xs + weigh_messages ys
  weigh_messages-append [] ys = omega arith
  weigh_messages-append (item x ∷ xs) ys = omega (arith, weigh_messages-append xs ys)
  weigh_messages-append (end_cmd f ∷ xs) ys = weigh_messages-append xs ys
  weigh_messages-append (app_cmd k ∷ xs) ys = weigh_messages-append xs ys

  pub weigh_messages-ends :
      (n : ℕ) (q : List (Message A K))
      → weigh_messages (q ++ replicate n (end_cmd true)) ≡ weigh_messages q
  weigh_messages-ends zero [] = refl
  weigh_messages-ends (suc n) [] = weigh_messages-ends n []
  weigh_messages-ends n (item x ∷ q) = omega (arith, weigh_messages-ends n q)
  weigh_messages-ends n (end_cmd f ∷ q) = weigh_messages-ends n q
  weigh_messages-ends n (app_cmd k ∷ q) = weigh_messages-ends n q
