-- ===== src/Batch/Recv/Order.antt =====
-- What a batching receiver yields: every item once, in order, in batches of the right size.
use Prim.Native.Nat.{max}
use mathlib.Core.Path.{subst}
use smartlibs.Prelude.{
  ℕ, ◌≤◌, ◌<◌, List, [], ◌∷◌, ◌++◌, ◌≡◌, refl, ap, true, Option, none, some, arith, sym, ◌∙◌,
  All-append, is_empty, length, length-append, concat, append_assoc, append-nil, All,
}
use smartlibs.Batch.Recv.{
  Options, Round, Answer, item, empty, ended, Trace, flush, cut, before, stopped, recv_loop,
  received, given, turn, iter_fn, Call, next_call,
}

module _ {ℓ} {A : Type ℓ} where
  concat-append : (xs ys : List (List A)) → concat (xs ++ ys) ≡ concat xs ++ concat ys
  concat-append [] ys = refl
  concat-append (x ∷ xs) ys = rw (concat-append xs ys) (rw append_assoc)

  concat-cut : (size : ℕ) (batch : List A) → concat (cut size batch).0 ++ (cut size batch).1 ≡ batch
  unfolding cut
  concat-cut size batch = ground (arith, append-nil batch, append-nil (batch ++ []))

  concat-flush : (batch : List A) → concat (flush batch) ≡ batch
  concat-flush [] = refl
  concat-flush (x ∷ batch) = append-nil (x ∷ batch)

  -- Whatever came out, and what is held, are the batch and the items that came in.
  abbrev Conserves : List A → Trace A → Type ℓ
  Conserves items t = concat t.batches ++ t.held ≡ items

  before-Conserves :
      (yielded : List (List A)) (call : Call) (items : List A) (t : Trace A)
      → Conserves items t
      → Conserves (concat yielded ++ items) (before yielded call t)
  before-Conserves yielded call items t h =
      rw (concat-append yielded t.batches, append_assoc (concat yielded) (concat t.batches) t.held)
        (ap (λ l. concat yielded ++ l) h)

  turn-Conserves :
      (size : ℕ) (batch : List A) (call : Call) (loop : List A → Trace A) (later : List A)
      (reply : Answer A)
      → ((kept : List A) → Conserves (kept ++ later) (loop kept))
      → Conserves (batch ++ given reply later) (turn size batch call loop reply)
  unfolding turn
  turn-Conserves size batch call loop later (item x) h =
      let (yielded, kept) = cut size (batch ++ x ∷ []) in
      subst (λ l. Conserves l (before yielded call (loop kept)))
        (sym (append_assoc (concat yielded) kept later)
          ∙ (ap (λ l. l ++ later) (concat-cut size (batch ++ x ∷ []))
              ∙ append_assoc batch (x ∷ []) later))
        (before-Conserves yielded call (kept ++ later) (loop kept) (h kept))
  turn-Conserves size batch call loop later empty h =
      subst (λ l. Conserves (l ++ later) (before (flush batch) call (loop []))) (concat-flush batch)
        (before-Conserves (flush batch) call later (loop []) (h []))
  turn-Conserves size batch call loop later ended h =
      subst (λ l. Conserves (l ++ []) (before (flush batch) call stopped)) (concat-flush batch)
        (before-Conserves (flush batch) call [] stopped refl)

  recv_loop-Conserves :
      (o : Options) (rounds : List (Round A)) (batch : List A) (ts : Option ℕ)
      → Conserves (batch ++ received rounds) (recv_loop o batch ts rounds)
  unfolding recv_loop
  recv_loop-Conserves o [] batch ts = sym (append-nil batch)
  recv_loop-Conserves o (r ∷ rounds) batch ts =
      let (call, ts') = next_call o (is_empty batch) ts r.begin_clock r.rest_clock in
      turn-Conserves o.batch_size batch call (λ kept. recv_loop o kept ts' rounds) (received rounds)
        r.reply (λ kept. recv_loop-Conserves o rounds kept ts')

  abbrev pub Fits : ℕ → List A → Type 0
  Fits size b = (0 < length b) × (length b ≤ max size 1)

  -- Every batch fits, the batch that is held has room, and a finished generator holds nothing.
  pub record WellCut (size : ℕ) (t : Trace A) : Type ℓ where
    pub cut_right : All (Fits size) t.batches
    pub room : length t.held < max size 1
    pub flushed : t.finished ≡ true → t.held ≡ []

  flush-Fits :
      (size : ℕ) (batch : List A) → length batch < max size 1 → All (Fits size) (flush batch)
  flush-Fits size [] h = tt
  flush-Fits size (x ∷ batch) h = omega arith

  cut-Fits :
      (size : ℕ) (batch : List A)
      → 0 < length batch
      → length batch ≤ max size 1
      → All (Fits size) (cut size batch).0 × (length (cut size batch).1 < max size 1)
  unfolding cut
  cut-Fits size batch pos h = ground arith

  turn-WellCut :
      (size : ℕ) (batch : List A) (call : Call) (loop : List A → Trace A) (reply : Answer A)
      → length batch < max size 1
      → ((kept : List A) → length kept < max size 1 → WellCut size (loop kept))
      → WellCut size (turn size batch call loop reply)
  turn-WellCut size batch call loop (item x) room h =
      let count = length-append batch (x ∷ []) in
      let (good, small) =
        cut-Fits size (batch ++ x ∷ []) (omega (arith, count)) (omega (arith, count)) in
      let later = h (cut size (batch ++ x ∷ [])).1 small in
      unfold turn in
      record {
        cut_right = All-append (Fits size) (cut size (batch ++ x ∷ [])).0 _ good later.cut_right;
        room = later.room;
        flushed = later.flushed;
      }
  turn-WellCut size batch call loop empty room h =
      let later = h [] (omega arith) in
      unfold turn in
      record {
        cut_right =
            All-append (Fits size) (flush batch) _ (flush-Fits size batch room) later.cut_right;
        room = later.room;
        flushed = later.flushed;
      }
  turn-WellCut size batch call loop ended room h =
      unfold turn in
      record {
        cut_right = All-append (Fits size) (flush batch) [] (flush-Fits size batch room) tt;
        room = omega arith;
        flushed = λ _. refl;
      }

  recv_loop-WellCut :
      (o : Options) (rounds : List (Round A)) (batch : List A) (ts : Option ℕ)
      → length batch < max o.batch_size 1
      → WellCut o.batch_size (recv_loop o batch ts rounds)
  unfolding recv_loop
  recv_loop-WellCut o [] batch ts room = record { cut_right = tt; room = room; flushed = λ e. cc }
  recv_loop-WellCut o (r ∷ rounds) batch ts room =
      let (call, ts') = next_call o (is_empty batch) ts r.begin_clock r.rest_clock in
      turn-WellCut o.batch_size batch call (λ kept. recv_loop o kept ts' rounds) r.reply room
        (λ kept small. recv_loop-WellCut o rounds kept ts' small)

  -- However the receiver answers, the yielded batches and the batch that is held are the received
  -- items in their order; each yielded batch has at least one item and at most the batch size, and a
  -- generator that has returned holds nothing back.
  pub iter_fn-received :
      (o : Options) (rounds : List (Round A)) (t : Trace A)
      → iter_fn o rounds ≡ some t
      → (concat t.batches ++ t.held ≡ received rounds) × WellCut o.batch_size t
  unfolding iter_fn
  iter_fn-received o rounds t h =
      let same : recv_loop o [] none rounds ≡ t = ground arith in
      subst (λ u. Conserves (received rounds) u × WellCut o.batch_size u) same
        (recv_loop-Conserves o rounds [] none, recv_loop-WellCut o rounds [] none (omega arith))
