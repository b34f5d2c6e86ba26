-- ===== src/FnChain/Once.antt =====
-- Which functions a run starts, and that a chain that runs `once` starts each of them one time.
use smartlibs.Prelude.{
  List, [], ◌∷◌, ◌++◌, ◌≡◌, refl, sym, Bool, true, not, ◌&&◌, Option, if◌then◌else◌, arith, concat,
}
use smartlibs.Text.{Text}
use smartlibs.Dict.{Dict, update}
use smartlibs.FnChain.{
  FnItem, accepts, call, add_result, run_item, run_block, run_blocks, run_chain,
}

module _ {T V : Type 0} where
  -- The names of the items that a run is to start, in their order.
  abbrev pub due : Option (T → Bool) → Bool → List (FnItem T V) → List Text
  due fn_filter once [] = []
  due fn_filter once (i ∷ items) =
      let rest = due fn_filter once items in
      if accepts fn_filter i.fn_type && not (once && i.called) then i.name ∷ rest else rest

  -- A run after a run leaves the item and the log as they are.
  run_item-again :
      (f : Option (T → Bool)) (k k' : Dict Text V) (i : FnItem T V)
      → run_item f true k' (run_item f true k i).0 ≡ ((run_item f true k i).0, [])
  unfolding run_item call
  run_item-again f k k' i = ground arith

  run_block-again :
      (f : Option (T → Bool)) (k k' : Dict Text V) (items : List (FnItem T V)) (rst : Dict Text V)
      → run_block f true k' (run_block f true k items rst).0 rst
        ≡ ((run_block f true k items rst).0, (run_block f true k items rst).1, [])
  unfolding run_block
  run_block-again f k k' [] rst = refl
  run_block-again f k k' (i ∷ items) rst =
      rw (run_item-again f k k' i)
        (rw (run_block-again f k k' items (add_result rst (run_item f true k i).0.result)) refl)

  run_blocks-again :
      (f : Option (T → Bool)) (chain : List (List (FnItem T V))) (rst : Dict Text V)
      → run_blocks f true (run_blocks f true chain rst).0 rst
        ≡ ((run_blocks f true chain rst).0, (run_blocks f true chain rst).1, [])
  unfolding run_blocks
  run_blocks-again f [] rst = refl
  run_blocks-again f (block ∷ chain) rst =
      rw (run_block-again f rst rst block [])
        (rw (run_blocks-again f chain (update rst (run_block f true rst block []).1)) refl)

  run_item-due :
      (f : Option (T → Bool)) (once : Bool) (k : Dict Text V) (i : FnItem T V) (l : List Text)
      → (run_item f once k i).1 ++ l
        ≡ (if accepts f i.fn_type && not (once && i.called) then i.name ∷ l else l)
  unfolding run_item call
  run_item-due f once k i l = ground arith

  run_block-due :
      (f : Option (T → Bool)) (once : Bool) (k : Dict Text V) (items : List (FnItem T V))
      (rst : Dict Text V)
      → (run_block f once k items rst).2 ≡ due f once items
  unfolding run_block
  run_block-due f once k [] rst = refl
  run_block-due f once k (i ∷ items) rst =
      rw (run_block-due f once k items (add_result rst (run_item f once k i).0.result))
        (run_item-due f once k i (due f once items))

  due-append :
      (f : Option (T → Bool)) (once : Bool) (xs ys : List (FnItem T V))
      → due f once (xs ++ ys) ≡ due f once xs ++ due f once ys
  due-append f once [] ys = refl
  due-append f once (i ∷ xs) ys = ground (arith, due-append f once xs ys)

  run_blocks-due :
      (f : Option (T → Bool)) (once : Bool) (chain : List (List (FnItem T V))) (rst : Dict Text V)
      → (run_blocks f once chain rst).2 ≡ due f once (concat chain)
  unfolding run_blocks
  run_blocks-due f once [] rst = refl
  run_blocks-due f once (block ∷ chain) rst =
      let (block', block_rst, log) = run_block f once rst block [] in
      rw (run_block-due f once rst block [], run_blocks-due f once chain (update rst block_rst))
        (sym (due-append f once block (concat chain)))

  -- A run of a chain starts exactly the functions that the filter accepts, block after block, each
  -- once; where it runs with `once`, it leaves out those that have been called before.
  pub run_chain-due :
      (f : Option (T → Bool)) (once : Bool) (chain : List (List (FnItem T V)))
      → (run_chain f once chain).2 ≡ due f once (concat chain)
  unfolding run_chain
  run_chain-due f once chain = run_blocks-due f once chain []

  -- A second run with `once` and the same filter starts nothing, changes no function's state, and
  -- returns the result of the first run.
  pub run_chain-again :
      (f : Option (T → Bool)) (chain : List (List (FnItem T V)))
      → run_chain f true (run_chain f true chain).0
        ≡ ((run_chain f true chain).0, (run_chain f true chain).1, [])
  unfolding run_chain
  run_chain-again f chain = run_blocks-again f chain []
