-- ===== src/Pip/Fanout.antt =====
-- Broadcast.py: what each pipe of a broadcast receives.
use smartlibs.Prelude.{List, [], ◌∷◌, ◌++◌, ◌≡◌, refl, sym, ap, ◌∙◌, map, append-nil, append_assoc}
use smartlibs.Pip.{create_pip, send}

-- The calls that a broadcast gets, in their order.
pub data Use {ℓ} (M : Type ℓ) : Type ℓ where
  create : Use M
  put : M → Use M

module _ {ℓ} {M : Type ℓ} where
  unfoldable pub use_all : List (List M) → List (Use M) → List (List M)
  unfolding create_pip send
  use_all pips [] = pips
  use_all pips (create ∷ uses) = use_all (create_pip pips) uses
  use_all pips (put m ∷ uses) = use_all (send pips m) uses

  -- The messages of all the sends among some calls.
  abbrev pub sends : List (Use M) → List M
  sends [] = []
  sends (create ∷ uses) = sends uses
  sends (put m ∷ uses) = m ∷ sends uses

  -- For each pipe that the calls create, in order, the sends behind its creation.
  abbrev pub since_creation : List (Use M) → List (List M)
  since_creation [] = []
  since_creation (create ∷ uses) = sends uses ∷ since_creation uses
  since_creation (put m ∷ uses) = since_creation uses

  abbrev pub receive : List M → List (List M) → List (List M)
  receive ms pips = map (λ pip. pip ++ ms) pips

  send_lem : (m : M) (pips : List (List M)) → send pips m ≡ receive (m ∷ []) pips
  unfolding send
  send_lem m [] = refl
  send_lem m (pip ∷ pips) = ap (λ l. (pip ++ m ∷ []) ∷ l) (send_lem m pips)

  receive-receive :
      (ms ns : List M) (pips : List (List M))
      → receive ns (receive ms pips) ≡ receive (ms ++ ns) pips
  receive-receive ms ns [] = refl
  receive-receive ms ns (pip ∷ pips) =
      rw (append_assoc pip ms ns) (ap (λ l. (pip ++ (ms ++ ns)) ∷ l) (receive-receive ms ns pips))

  receive-nil : (pips : List (List M)) → receive [] pips ≡ pips
  receive-nil [] = refl
  receive-nil (pip ∷ pips) = rw (append-nil pip) (ap (λ l. pip ∷ l) (receive-nil pips))

  receive-append :
      (ms : List M) (ps qs : List (List M)) → receive ms (ps ++ qs) ≡ receive ms ps ++ receive ms qs
  receive-append ms [] qs = refl
  receive-append ms (p ∷ ps) qs = ap (λ l. (p ++ ms) ∷ l) (receive-append ms ps qs)

  -- Each pipe of a broadcast ends up with what it held, and behind it every message that was sent
  -- after it was there, in the order of the sends; pipes stand in the order of their creation.
  pub use_all-receive :
      (pips : List (List M)) (uses : List (Use M))
      → use_all pips uses ≡ receive (sends uses) pips ++ since_creation uses
  unfolding use_all
  use_all-receive pips [] = rw (receive-nil pips) (sym (append-nil pips))
  use_all-receive pips (create ∷ uses) =
      unfold create_pip in
      use_all-receive (pips ++ [] ∷ []) uses
      ∙ (ap (λ l. l ++ since_creation uses) (receive-append (sends uses) pips ([] ∷ []))
          ∙ append_assoc (receive (sends uses) pips) (sends uses ∷ []) (since_creation uses))
  use_all-receive pips (put m ∷ uses) =
      use_all-receive (send pips m) uses
      ∙ ap (λ l. l ++ since_creation uses)
          (ap (receive (sends uses)) (send_lem m pips) ∙ receive-receive (m ∷ []) (sends uses) pips)
