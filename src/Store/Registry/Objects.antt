-- ===== src/Store/Registry/Objects.antt =====
-- Which requests to a store give the same object.
use smartlibs.Prelude.{
  ℕ, suc, ◌<◌, List, [], ◌∷◌, ◌≡◌, sym, ◌⊎◌, true, ◌&&◌, inl, inr, Option, none, some, Option-cases,
  ◌==◌, ==_refl, list_eq_iff, nat_eq_iff, arith, if◌then◌else◌, Eq-nat, Eq-list,
}
use mathlib.Core.Path.{subst}
use smartlibs.Text.{Text}
use smartlibs.Dict.{get, set, get-set}
use smartlibs.Store.Registry.{ContextStore, or_new, get_store, object_of}

module _ {V : Type 0} where
  -- The object under a type and a name, if it has been made.
  abbrev pub object_at : ContextStore V → ℕ → Text → Option ℕ
  object_at s ns name = get (get_store s ns) name

  object_at-object_of :
      (s : ContextStore V) (ns : ℕ) (name : Text) (ms : ℕ) (other : Text)
      → object_at (object_of s ns name).0 ms other
        ≡ (if ns == ms && name == other then some (object_of s ns name).1 else object_at s ms other)
  unfolding object_of get_store
  object_at-object_of s ns name ms other = ground (
    arith,
    get-set s.stores ns ms (set (or_new (get s.stores ns)) name s.next),
    get-set (or_new (get s.stores ns)) name other s.next,
    nat_eq_iff ns ms,
    list_eq_iff name other,
  )

  -- Every object has a number below the next one.
  abbrev Below : ContextStore V → Type 0
  Below s =
      (ns : ℕ) (name : Text) (object : ℕ) → object_at s ns name ≡ some object → object < s.next

  -- No object has two types or names.
  abbrev Unique : ContextStore V → Type 0
  Unique s =
      (ns : ℕ) (name : Text) (ms : ℕ) (other : Text) (object : ℕ)
      → object_at s ns name ≡ some object
      → object_at s ms other ≡ some object
      → (ns == ms && name == other) ≡ true

  object_of-found :
      (s : ContextStore V) (ns : ℕ) (name : Text) (object : ℕ)
      → object_at s ns name ≡ some object
      → object_of s ns name ≡ (s, object)
  unfolding object_of
  object_of-found s ns name object h = ground (arith, h)

  object_of-new :
      (s : ContextStore V) (ns : ℕ) (name : Text)
      → object_at s ns name ≡ none
      → ((object_of s ns name).1 ≡ s.next) × ((object_of s ns name).0.next ≡ suc s.next)
  unfolding object_of
  object_of-new s ns name h = ground (arith, h)

  Below-object_of :
      (s : ContextStore V) (ns : ℕ) (name : Text) → Below s → Below (object_of s ns name).0
  Below-object_of s ns name below ms other object h = elim (Option-cases (object_at s ns name)) [
    | inl e ↦ ground (
      arith,
      h,
      object_of-new s ns name e,
      object_at-object_of s ns name ms other,
      below ms other object,
    )
    | inr (found, e) ↦
        subst (λ r. Below r.0) (sym (object_of-found s ns name found e)) below ms other object h
  ]

  Unique-object_of :
      (s : ContextStore V) (ns : ℕ) (name : Text)
      → Below s
      → Unique s
      → Unique (object_of s ns name).0
  Unique-object_of s ns name below unique is i os j object h k =
      elim (Option-cases (object_at s ns name)) [
        | inl e ↦ ground (
          arith,
          h,
          k,
          object_of-new s ns name e,
          object_at-object_of s ns name is i,
          object_at-object_of s ns name os j,
          below is i object,
          below os j object,
          unique is i os j object,
          nat_eq_iff ns is,
          nat_eq_iff ns os,
          nat_eq_iff is os,
          list_eq_iff name i,
          list_eq_iff name j,
          list_eq_iff i j,
        )
        | inr (found, e) ↦
            subst (λ r. Unique r.0) (sym (object_of-found s ns name found e)) unique is i os j
              object h k
      ]

  -- Some requests, one after the other.
  abbrev pub ask_all : ContextStore V → List (ℕ × Text) → ContextStore V
  ask_all s [] = s
  ask_all s ((ns, name) ∷ asked) = ask_all (object_of s ns name).0 asked

  Below-ask_all : (s : ContextStore V) (asked : List (ℕ × Text)) → Below s → Below (ask_all s asked)
  Below-ask_all s [] h = h
  Below-ask_all s ((ns, name) ∷ asked) h =
      Below-ask_all (object_of s ns name).0 asked (Below-object_of s ns name h)

  Unique-ask_all :
      (s : ContextStore V) (asked : List (ℕ × Text)) → Below s → Unique s → Unique (ask_all s asked)
  Unique-ask_all s [] b h = h
  Unique-ask_all s ((ns, name) ∷ asked) b h =
      Unique-ask_all (object_of s ns name).0 asked (Below-object_of s ns name b)
        (Unique-object_of s ns name b h)

  object_at-asked :
      (s : ContextStore V) (ns : ℕ) (name : Text)
      → object_at (object_of s ns name).0 ns name ≡ some (object_of s ns name).1
  object_at-asked s ns name =
      ground (arith, object_at-object_of s ns name ns name, nat_eq_iff ns ns, ==_refl name)

  still_there :
      (s : ContextStore V) (asked : List (ℕ × Text)) (ns : ℕ) (name : Text) (object : ℕ)
      → object_at s ns name ≡ some object
      → object_at (ask_all s asked) ns name ≡ some object
  still_there s [] ns name object h = h
  still_there s ((ms, other) ∷ asked) ns name object h =
      still_there (object_of s ms other).0 asked ns name object
        (after (Option-cases (object_at s ms other)))
    where
      after :
          (object_at s ms other ≡ none) ⊎ ((a : ℕ) × (object_at s ms other ≡ some a))
          → object_at (object_of s ms other).0 ns name ≡ some object
      after (inl e) = ground (
        arith,
        e,
        h,
        object_at-object_of s ms other ns name,
        nat_eq_iff ms ns,
        list_eq_iff other name,
      )
      after (inr (a, e)) =
          subst (λ r. object_at r.0 ns name ≡ some object) (sym (object_of-found s ms other a e)) h

  abbrev pub new_store : ContextStore V
  new_store = record { stores = []; values = []; next = 0 }

  same-object :
      (t : ContextStore V)
      → Below t
      → Unique t
      → (ns : ℕ) (name : Text) (first : ℕ) → object_at t ns name ≡ some first
      → (ms : ℕ) (other : Text) → ((object_of t ms other).1 == first) ≡ (ns == ms && name == other)
  same-object t below unique ns name first h ms other = elim (Option-cases (object_at t ms other)) [
    | inl e ↦ ground (
      arith,
      e,
      h,
      object_of-new t ms other e,
      below ns name first h,
      nat_eq_iff ns ms,
      list_eq_iff name other,
    )
    | inr (found, e) ↦ ground (
      arith,
      e,
      h,
      object_of-found t ms other found e,
      unique ns name ms other first h,
      nat_eq_iff ns ms,
      list_eq_iff name other,
    )
  ]

Below-new_store : (V : Type 0) → Below (new_store {V = V})
unfolding get_store get
Below-new_store V ns name object h = ground (arith, h)

Unique-new_store : (V : Type 0) → Unique (new_store {V = V})
unfolding get_store get
Unique-new_store V ns name ms other object h k = ground (arith, h)

-- Two requests to one store, whatever was asked before them and between them, give the same object if
-- they are of one type and one name, and else two objects.
pub object_of-object_of :
    (V : Type 0) (before between : List (ℕ × Text)) (ns : ℕ) (name : Text) (ms : ℕ) (other : Text)
    → let s = ask_all (new_store {V = V}) before in
      let first = object_of s ns name in
      ((object_of (ask_all first.0 between) ms other).1 == first.1) ≡ (ns == ms && name == other)
object_of-object_of V before between ns name ms other =
    let s = ask_all (new_store {V = V}) before in
    let first = object_of s ns name in
    let b = Below-ask_all new_store before (Below-new_store V) in
    let u = Unique-ask_all new_store before (Below-new_store V) (Unique-new_store V) in
    let b1 = Below-object_of s ns name b in
    same-object (ask_all first.0 between) (Below-ask_all first.0 between b1)
      (Unique-ask_all first.0 between b1 (Unique-object_of s ns name b u)) ns name first.1
      (still_there first.0 between ns name first.1 (object_at-asked s ns name)) ms other
