-- ===== src/Pager.antt =====
-- auto_tasks/tools/t_pager.py: one page of the items that a task receives.
mod Samples
use smartlibs.Prelude.{
  ℕ, zero, suc, ◌+◌, ◌-◌, ◌*◌, ◌≤◌, List, [], ◌∷◌, ◌≡◌, refl, ap, ◌∙◌, Bool, true, false,
  Bool-cases, inl, inr, arith, if◌then◌else◌, ltb, leb, take, drop,
}

one_more : (n size : ℕ) → suc n * size ≡ 0 + (suc n - 1) * size + size
one_more n size = grind arith

module _ {A : Type 0} where
  abbrev pub also : A → List A × List A → List A × List A
  also item (page, rest) = (item ∷ page, rest)

  -- The loop from item `i` on: what is yielded, and what is left to be received.
  unfoldable pub page_from : ℕ → ℕ → ℕ → Bool → List A → List A × List A
  page_from i start end recv_rest [] = ([], [])
  page_from i start end recv_rest (item ∷ items) = elim (ltb i start) [
    | true ↦ page_from (suc i) start end recv_rest items
    | false ↦ elim (leb end i) [
      | true ↦ ([], if recv_rest then [] else items)
      | false ↦ also item (page_from (suc i) start end recv_rest items)
    ]
  ]

  unfoldable pub page : ℕ → ℕ → Bool → List A → List A × List A
  unfolding page_from
  page page_num page_size recv_rest items =
      page_from 0 ((page_num - 1) * page_size) (page_num * page_size) recv_rest items

  page_from-take :
      (i size start end : ℕ) (recv_rest : Bool) (items : List A)
      → start ≤ i
      → end ≡ i + size
      → (page_from i start end recv_rest items).0 ≡ take size items
  unfolding page_from
  page_from-take i zero start end recv_rest [] h e = refl
  page_from-take i (suc size) start end recv_rest [] h e = refl
  page_from-take i zero start end recv_rest (item ∷ items) h e = ground (arith, h, e)
  page_from-take i (suc size) start end recv_rest (item ∷ items) h e =
      ground (arith, h, e, page_from-take (suc i) size start end recv_rest items)

  page_from-drop :
      (i skip size start end : ℕ) (recv_rest : Bool) (items : List A)
      → start ≡ i + skip
      → end ≡ i + skip + size
      → (page_from i start end recv_rest items).0 ≡ take size (drop skip items)
  unfolding page_from
  page_from-drop i zero size start end recv_rest items s e =
      page_from-take i size start end recv_rest items (omega arith) (omega arith)
  page_from-drop i (suc skip) zero start end recv_rest [] s e = refl
  page_from-drop i (suc skip) (suc size) start end recv_rest [] s e = refl
  page_from-drop i (suc skip) size start end recv_rest (item ∷ items) s e = ground (
    arith,
    s,
    page_from-drop (suc i) skip size start end recv_rest items (omega arith) (omega arith),
  )

  page_from-rest : (i start end : ℕ) (items : List A) → (page_from i start end true items).1 ≡ []
  unfolding page_from
  page_from-rest i start end [] = refl
  page_from-rest i start end (item ∷ items) = ground (arith, page_from-rest (suc i) start end items)

  -- A page, counted from 1, holds the items behind those of the pages before it, as many as its size
  -- says or fewer at the end; with `recv_rest` nothing is left to be received.
  pub page-take :
      (page_num page_size : ℕ) (recv_rest : Bool) (items : List A)
      → 1 ≤ page_num
      → ((page page_num page_size recv_rest items).0
          ≡ take page_size (drop ((page_num - 1) * page_size) items))
        × ((page page_num page_size true items).1 ≡ [])
  unfolding page
  page-take zero page_size recv_rest items h = absurd (omega arith)
  page-take (suc n) page_size recv_rest items h = (
    page_from-drop 0 ((suc n - 1) * page_size) page_size ((suc n - 1) * page_size)
        (suc n * page_size) recv_rest items (omega arith) (one_more n page_size),
    page_from-rest 0 ((suc n - 1) * page_size) (suc n * page_size) items,
  )
