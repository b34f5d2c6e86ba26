-- ===== src/Dag/Items/Ordered.antt =====
-- sort_item_dict orders a dictionary as sort_items orders its items: with distinct keys, the OrderedDict
-- of the sorted pairs is those pairs.
use mathlib.Core.List.{Perm, Nodup, Nodup-cons, Mem, mem-cons_of_mem, mem-cons_self, append-nil}
use mathlib.Core.List.Perm
use smartlibs.Prelude.{
  List, [], ◌∷◌, ◌++◌, map, ◌≡◌, refl, sym, ap, ◌∙◌, Bool, false, some, Comparable, ◌==◌, arith,
  contains, Bool-cases, Option-cases, inl, inr, is_empty, if◌then◌else◌, append_assoc,
}
use smartlibs.Dict.{Dict, keys, set-fresh, update}
use smartlibs.Dag.{Item, DagItemsTool, get_dependance_set}
use smartlibs.Dag.Sort.{sorted, dag_sort}
use smartlibs.Dag.Items.{iter_items, sort_items, sort_item_dict, ordered_dict}

module _ {K V : Type 0} where
  keys-map : (m : Dict K V) → keys m ≡ map (λ (kv : K × V). kv.0) m
  keys-map [] = refl
  keys-map ((k, v) ∷ m) = ap (λ l. k ∷ l) (keys-map m)

  keys-perm : (m n : Dict K V) → Perm m n → Perm (keys m) (keys n)
  keys-perm m n p = rw (keys-map m, keys-map n) (Perm.map (λ (kv : K × V). kv.0) p)

  Mem-keys : (m out : Dict K V) (k : K) (v : V) → Mem k (keys (m ++ (k, v) ∷ out))
  Mem-keys [] out k v = mem-cons_self
  Mem-keys ((i, w) ∷ m) out k v = mem-cons_of_mem i (Mem-keys m out k v)

module _ {K V : Type 0} ⦃e : Comparable K⦄ where
  fresh_key :
      (m out : Dict K V) (k : K) (v : V)
      → Nodup (keys (m ++ (k, v) ∷ out))
      → contains k (keys m) ≡ false
  fresh_key [] out k v h = refl
  fresh_key ((i, w) ∷ m) out k v h =
      let (new, rest) = Nodup-cons.0 h in
      elim (Bool-cases (k == i)) [
        | inl same ↦ absurd (new (rw (← (e.is_same_iff k i).0 same) (Mem-keys m out k v)))
        | inr other ↦ rw (other, contains) (fresh_key m out k v rest)
      ]

  update-append : (m out : Dict K V) → Nodup (keys (m ++ out)) → update m out ≡ m ++ out
  unfolding update
  update-append m [] h = sym (append-nil m)
  update-append m ((k, v) ∷ out) h =
      let next : m ++ (k, v) ∷ out ≡ (m ++ (k, v) ∷ []) ++ out =
        sym (append_assoc m ((k, v) ∷ []) out) in
      rw (set-fresh m k v (fresh_key m out k v h))
        (update-append (m ++ (k, v) ∷ []) out (rw next at h) ∙ sym next)

  pub update-Nodup : (out : Dict K V) → Nodup (keys out) → update [] out ≡ out
  update-Nodup out h = update-append [] out h

module _ {K : Type 0} ⦃e : Comparable K⦄ where
  dict_result :
      {V : Type 0} (l out : List (K × V)) (raise : Bool) (s : List (K × K))
      → dag_sort l s raise ≡ sorted out
      → Nodup (keys out)
      → (if is_empty s then sorted l else ordered_dict (dag_sort l s raise)) ≡ sorted out
  unfolding dag_sort ordered_dict
  dict_result [] out raise [] sorts nodup = sorts
  dict_result (x ∷ l) out raise [] sorts nodup = sorts
  dict_result l out raise (p ∷ s) sorts nodup =
      rw (sorts, ordered_dict) (ap sorted (update-Nodup out nodup))

  pub sort_item_dict-same :
      (tool : DagItemsTool) (items : List (Item K)) (raise : Bool) (out : List (K × Item K))
      → Nodup (keys (iter_items items))
      → Perm out (iter_items items)
      → sort_items tool items raise ≡ some (sorted out)
      → sort_item_dict tool items raise ≡ some (sorted out)
  unfolding sort_items sort_item_dict
  sort_item_dict-same tool items raise out nodup perm h =
      let nodup_out = Perm.nodup (Perm.symm (keys-perm out (iter_items items) perm)) nodup in
      elim (Option-cases (get_dependance_set tool items)) [
        | inl e ↦ let bad = rw (e, sort_items) at h in absurd (cc bad)
        | inr (s, e) ↦
            (let done = rw (e, sort_items) at h in
              let sorts : dag_sort (iter_items items) s raise ≡ sorted out = ground (arith, done) in
              rw (e, sort_item_dict)
                (ap some (dict_result (iter_items items) out raise s sorts nodup_out)))
      ]
