-- ===== src/Store/Laws.antt =====
-- How the operations of a store see each other.
use mathlib.Core.Option
use smartlibs.Prelude.{
  List, [], ◌∷◌, ◌≡◌, refl, sym, ap, ◌∙◌, inl, inr, Bool, true, false, not, ◌&&◌, some,
  Option-cases, arith, Eq-nat, Eq-list,
}
use smartlibs.Text.{Text}
use smartlibs.Nested.{Tree, Branches, read, holds, read-write-at, read-write-other}
use smartlibs.Store.{
  ContextState, sub_obj, find_in, written_back, find_op, or_value, found_get, found_set,
  found_get_or_set, get, set, get_or_set,
}
use smartlibs.Store.Paths.{
  read_path, blocked, parent, last_key, apart, tree_cases, read_path-parent, find_in-blocked,
  find_in-hit, find_in-read, find_in-apart,
}

module _ {V : Type 0} where
  find_in-get :
      (d : Tree V) (obj : Branches V) (key : Text) (path : List Text)
      → or_value (Option.map (λ a. a.1) (find_in (found_get d) false key path obj).1) d
        ≡ or_value (read_path obj key path) d
  unfolding find_in sub_obj
  find_in-get d obj key [] = ground arith
  find_in-get d obj key (l ∷ p) = elim (tree_cases (read obj key)) [
    | inl e ↦ ground (arith, e)
    | inr (inl e) ↦ ground (arith, e)
    | inr (inr (inl (v, e))) ↦ ground (arith, e)
    | inr (inr (inr (sub, e))) ↦ ground (arith, e, find_in-get d sub l p)
  ]

  -- A read along a path is the value there, or the default.
  pub get_lem :
      (st : ContextState V) (key : Text) (path : List Text) (d : Tree V)
      → get st (key ∷ path) d ≡ or_value (read_path st.state key path) d
  unfolding get find_op
  get_lem st key [] d = ground arith
  get_lem st key (l ∷ p) d = find_in-get d st.state key (l ∷ p)

  -- A state whose writes below the first key are kept.
  abbrev pub writable : ContextState V → Bool
  writable st = not (st.shared && st.readonly)

  set_state :
      (st : ContextState V) (key : Text) (path : List Text) (value : Tree V)
      → writable st ≡ true
      → blocked st.state key path ≡ false
      → (set st (key ∷ path) value).0.state ≡ (find_in (found_set value) true key path st.state).0
  unfolding set find_op written_back find_in
  set_state st key [] value w h = refl
  set_state st key (l ∷ p) value w h =
      ground (arith, w, find_in-hit (found_set value) st.state key (l ∷ p) h)

  set_hit :
      (st : ContextState V) (key : Text) (path : List Text) (value : Tree V)
      → blocked st.state key path ≡ false
      → (set st (key ∷ path) value).1 ≡ true
  unfolding set find_op
  set_hit st key [] value h = refl
  set_hit st key (l ∷ p) value h =
      ground (arith, find_in-hit (found_set value) st.state key (l ∷ p) h)

  -- A write along a path that nothing blocks, to a state that keeps its writes, returns True; a read
  -- along the path sees the value, and a read along a path that parts from it sees what it saw.
  pub get-set :
      (st : ContextState V) (key : Text) (path : List Text) (value d : Tree V)
      → writable st ≡ true
      → blocked st.state key path ≡ false
      → (i : Text) (q : List Text) → apart key path i q ≡ true
      → ((set st (key ∷ path) value).1 ≡ true)
        × (get (set st (key ∷ path) value).0 (key ∷ path) d ≡ value)
        × (get (set st (key ∷ path) value).0 (i ∷ q) d ≡ get st (i ∷ q) d)
  get-set st key path value d w h i q a =
      let st2 = (set st (key ∷ path) value).0 in
      let f = found_set value in
      let here = set_state st key path value w h in
      (
        set_hit st key path value h,
        get_lem st2 key path d
            ∙ ap (λ o. or_value o d)
                (ap (λ obj. read_path obj key path) here
                  ∙ (find_in-read f st.state key path h
                      ∙ read-write-at (parent st.state key path) (last_key key path) value)),
        get_lem st2 i q d
            ∙ (ap (λ o. or_value o d)
                  (ap (λ obj. read_path obj i q) here
                    ∙ find_in-apart f (λ obj k j. read-write-other obj k value j) st.state key path
                        h i q a)
                ∙ sym (get_lem st i q d)),
      )

  held :
      (obj : Branches V) (key l : Text) (p : List Text)
      → blocked obj key (l ∷ p) ≡ true
      → holds obj key ≡ true
  unfolding holds
  held obj key l p h = ground (arith, h)

  -- A write along a path on which something else than a dictionary stands returns None and changes
  -- nothing.
  pub set-blocked :
      (st : ContextState V) (key : Text) (path : List Text) (value : Tree V)
      → blocked st.state key path ≡ true
      → set st (key ∷ path) value ≡ (st, false)
  unfolding set find_op written_back
  set-blocked st key [] value h = cc
  set-blocked st key (l ∷ p) value h = ground (
    arith,
    find_in-blocked (found_set value) true st.state key (l ∷ p) h,
    held st.state key l p h,
  )

  -- A write below the first key of a shared state that is read-only returns True, though it changes
  -- nothing.
  pub set-readonly :
      (st : ContextState V) (key l : Text) (p : List Text) (value : Tree V)
      → writable st ≡ false
      → holds st.state key ≡ true
      → blocked st.state key (l ∷ p) ≡ false
      → set st (key ∷ l ∷ p) value ≡ (st, true)
  unfolding set find_op written_back
  set-readonly st key l p value w m h =
      ground (arith, w, m, find_in-hit (found_set value) st.state key (l ∷ p) h)

  held_value :
      (obj : Branches V) (key l : Text) (p : List Text) (v : Tree V)
      → read_path obj key (l ∷ p) ≡ some v
      → holds obj key ≡ true
  unfolding holds
  held_value obj key l p v h = ground (arith, h)

  get_or_set_value :
      (st : ContextState V) (key : Text) (path : List Text) (d : Tree V)
      → blocked st.state key path ≡ false
      → (get_or_set st (key ∷ path) d).1 ≡ or_value (read_path st.state key path) d
  unfolding get_or_set find_op
  get_or_set_value st key [] d h = ground arith
  get_or_set_value st key (l ∷ p) d h = ground (
    arith,
    find_in-hit (found_get_or_set d) st.state key (l ∷ p) h,
    read_path-parent st.state key (l ∷ p),
  )

  get_or_set_read :
      (st : ContextState V) (key : Text) (path : List Text) (d : Tree V)
      → writable st ≡ true
      → blocked st.state key path ≡ false
      → read_path (get_or_set st (key ∷ path) d).0.state key path
        ≡ some (or_value (read_path st.state key path) d)
  unfolding get_or_set find_op written_back find_in
  get_or_set_read st key [] d w h = ground (arith, read-write-at st.state key d)
  get_or_set_read st key (l ∷ p) d w h = elim (Option-cases (read_path st.state key (l ∷ p))) [
    | inl e ↦ ground (
      arith,
      w,
      e,
      find_in-hit (found_get_or_set d) st.state key (l ∷ p) h,
      find_in-read (found_get_or_set d) st.state key (l ∷ p) h,
      read_path-parent st.state key (l ∷ p),
      read-write-at (parent st.state key (l ∷ p)) (last_key key (l ∷ p)) d,
    )
    | inr (v, e) ↦ ground (
      arith,
      w,
      e,
      find_in-hit (found_get_or_set d) st.state key (l ∷ p) h,
      find_in-read (found_get_or_set d) st.state key (l ∷ p) h,
      read_path-parent st.state key (l ∷ p),
      held_value st.state key l p v e,
    )
  ]

  -- Along a path that nothing blocks, in a state that keeps its writes, `get_or_set` returns what a
  -- read with the same default would, and afterwards every read along the path returns that value.
  pub get_or_set-get :
      (st : ContextState V) (key : Text) (path : List Text) (default_val d : Tree V)
      → writable st ≡ true
      → blocked st.state key path ≡ false
      → ((get_or_set st (key ∷ path) default_val).1 ≡ get st (key ∷ path) default_val)
        × (get (get_or_set st (key ∷ path) default_val).0 (key ∷ path) d
            ≡ get st (key ∷ path) default_val)
  get_or_set-get st key path default_val d w h =
      let st2 = (get_or_set st (key ∷ path) default_val).0 in
      let read_there = get_lem st key path default_val in
      (
        get_or_set_value st key path default_val h ∙ sym read_there,
        get_lem st2 key path d
            ∙ (ap (λ o. or_value o d) (get_or_set_read st key path default_val w h)
                ∙ sym read_there),
      )
