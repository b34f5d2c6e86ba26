-- ===== src/AutoYml/Extend/Laws.antt =====
-- What a node has when it has been extended.
use smartlibs.Prelude.{
  List, [], ◌∷◌, ◌≡◌, refl, ap, ◌∙◌, inl, inr, Bool, true, false, Option, none, some, Option-cases,
  Bool-cases, ◌==◌, arith, if◌then◌else◌, list_eq_iff, Eq-nat, Eq-list,
}
use smartlibs.Text.{Text}
use smartlibs.Nested.{
  Tree, Branches, end, entry, read, write, remove, holds, read-write, read-remove,
}
use smartlibs.AutoYml.Extend.{
  Ref, or_else, to_extend_dict, add_missing, add_extends, extend_rest, extend_sub, extend_subs,
  parse_syntax_extend, and_sub-eq-some,
}

add_missing-read :
    {V : Type 0} (node d : Branches V) (k : Text)
    → read (add_missing node d) k ≡ or_else (read node k) (read d k)
unfolding add_missing read holds
add_missing-read node end k = ground arith
add_missing-read node (entry i v more) k = ground (
  arith,
  list_eq_iff i k,
  read-write node i v k,
  add_missing-read node more k,
  add_missing-read (write node i v) more k,
)

module _ {V : Type 0} (truthy : Tree V → Bool) (configs : Tree V) where
  -- What the first of the extended dictionaries that has the key has there.
  abbrev pub inherited : Option (List Text) → List Ref → Text → Option (Tree V)
  inherited context_path [] k = none
  inherited context_path (r ∷ refs) k = elim (to_extend_dict truthy configs context_path r) [
    | none ↦ none
    | some d ↦ or_else (read d k) (inherited context_path refs k)
  ]

  add_extends-read :
      (context_path : Option (List Text)) (refs : List Ref) (node node2 : Branches V) (k : Text)
      → add_extends truthy configs context_path refs node ≡ some node2
      → read node2 k ≡ or_else (read node k) (inherited context_path refs k)
  unfolding add_extends
  add_extends-read c [] node node2 k h = ground (arith, h)
  add_extends-read c (r ∷ refs) node node2 k h =
      elim (Option-cases (to_extend_dict truthy configs c r)) [
        | inl e ↦ let bad = rw (e, add_extends) at h in absurd (cc bad)
        | inr (d, e) ↦
            (let ih =
                add_extends-read c refs (add_missing node d) node2 k (rw (e, add_extends) at h) in
              rw (e, inherited) (ground (arith, ih, add_missing-read node d k)))
      ]

  module _ (refs_of : Option (Tree V) → List Ref) (plain_key extend_key : Text) where
    -- A value of a node after the parse: itself, or its parsed subnode.
    abbrev pub parsed : Bool → Tree V → Option (Tree V)
    parsed deep_parse v =
        if deep_parse then extend_sub truthy configs refs_of plain_key extend_key v else some v

    abbrev pub parsed_at : Bool → Option (Tree V) → Option (Tree V)
    parsed_at deep_parse none = none
    parsed_at deep_parse (some v) = parsed deep_parse v

    extend_subs-read :
        (node done : Branches V) (k : Text)
        → extend_subs truthy configs refs_of plain_key extend_key node ≡ some done
        → read done k ≡ (if extend_key == k then none else parsed_at true (read node k))
    unfolding extend_subs read
    extend_subs-read end done k h = ground (arith, h)
    extend_subs-read (entry i v more) done k h = elim (Bool-cases (i == extend_key)) [
      | inl e ↦
          (let ih = extend_subs-read more done k (rw (e, extend_subs) at h) in
            ground
              (arith, ih, e, list_eq_iff i k, list_eq_iff i extend_key, list_eq_iff extend_key k))
      | inr e ↦
          (let (w, rest, ew, er, ed) = and_sub-eq-some i _ _ (rw (e, extend_subs) at h) in
            let ih = extend_subs-read more rest k er in
            ground (
              arith,
              ih,
              e,
              ew,
              ed,
              list_eq_iff i k,
              list_eq_iff i extend_key,
              list_eq_iff extend_key k,
            ))
    ]

    done_subs-read :
        (deep_parse : Bool) (node done : Branches V) (k : Text)
        → (if deep_parse
            then extend_subs truthy configs refs_of plain_key extend_key node
            else some (remove node extend_key))
          ≡ some done
        → read done k ≡ (if extend_key == k then none else parsed_at deep_parse (read node k))
    done_subs-read true node done k h = extend_subs-read node done k h
    done_subs-read false node done k h = elim (Option-cases (read node k)) [
      | inl e ↦ ground (arith, h, e, read-remove node extend_key k)
      | inr (v, e) ↦ ground (arith, h, e, read-remove node extend_key k)
    ]

    extend_rest-eq-some :
        (c : Option (List Text)) (node : Branches V) (subs : Option (Branches V))
        {node2 : Branches V}
        → holds node plain_key ≡ false
        → extend_rest truthy configs c refs_of plain_key extend_key node subs ≡ some node2
        → (done : Branches V) × (subs ≡ some done)
          × (add_extends truthy configs c (refs_of (read node extend_key)) done ≡ some node2)
    unfolding extend_rest
    extend_rest-eq-some c node none bare h =
        let bad = rw (bare, extend_rest) at h in absurd (cc bad)
    extend_rest-eq-some c node (some done) bare h = (done, refl, rw (bare, extend_rest) at h)

    -- A node without the plain key that extends some paths: under every key it then has its own value,
    -- which a deep parse has parsed, and where it has none of its own, that of the first of the
    -- extended dictionaries with the key; what stood under the extending key is no value of its own.
    pub parse_syntax_extend-read :
        (deep_parse : Bool) (context_path : Option (List Text)) (node node2 : Branches V)
        → holds node plain_key ≡ false
        → parse_syntax_extend truthy configs refs_of plain_key extend_key deep_parse context_path
            node
          ≡ some node2
        → (k : Text)
        → read node2 k
          ≡ or_else
              (if extend_key == k then none else parsed_at deep_parse (read node k))
              (inherited context_path (refs_of (read node extend_key)) k)
    unfolding parse_syntax_extend
    parse_syntax_extend-read deep_parse c node node2 bare h k =
        let (done, subs, added) = extend_rest-eq-some c node _ bare h in
        add_extends-read c (refs_of (read node extend_key)) done node2 k added
        ∙ ap (λ o. or_else o (inherited c (refs_of (read node extend_key)) k))
            (done_subs-read deep_parse node done k subs)
