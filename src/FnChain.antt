-- ===== src/FnChain.antt =====
-- smart/auto/exec/fn_chain.py: the functions of a task, in blocks that hand their results on.
-- What a function is, with its bound positional arguments, is a map from keyword arguments to its
-- result; T is the type of the `fn_type` tags. A call is logged by the item's name, as the code does.
pub mod Once
mod Samples
use smartlibs.Prelude.{
  List, [], ◌∷◌, ◌++◌, Bool, true, false, ◌&&◌, Option, none, some, if◌then◌else◌, Eq-nat, Eq-list,
  is_empty,
}
use smartlibs.Text.{Text}
use smartlibs.Dict.{Dict, update}

-- What a function returns: a dictionary, or any other value, None among them.
pub data Result (V : Type 0) : Type 0 where
  dict_result : Dict Text V → Result V
  other_result : Result V

pub record FnItem (T V : Type 0) : Type 0 where
  pub func : Dict Text V → Result V
  pub bind_kwargs : Dict Text V
  pub fn_type : T
  pub name : Text
  pub result : Result V
  pub called : Bool

-- A filter reads the type of an item; `none` is Python's None.
abbrev pub accepts : {T : Type 0} → Option (T → Bool) → T → Bool
accepts none fn_type = false
accepts (some p) fn_type = p fn_type

-- `block_rst.update(fn_rst)`, where it is a dictionary; an empty one changes nothing.
unfoldable pub add_result : {V : Type 0} → Dict Text V → Result V → Dict Text V
unfolding update
add_result block_rst (dict_result d) = update block_rst d
add_result block_rst other_result = block_rst

module _ {T V : Type 0} where
  -- `FnItem.call`: the item after the call, and what is logged.
  unfoldable pub call : FnItem T V → Dict Text V → Bool → FnItem T V × List Text
  unfolding update
  call fn_item kwargs once =
      let merged : Dict Text V =
        if is_empty kwargs then fn_item.bind_kwargs else update fn_item.bind_kwargs kwargs in
      if once && fn_item.called
      then (fn_item, [])
      else (record fn_item { result = fn_item.func merged; called = true }, fn_item.name ∷ [])

  -- What the loop of `run_block` does with an item.
  unfoldable pub run_item :
      Option (T → Bool) → Bool → Dict Text V → FnItem T V → FnItem T V × List Text
  unfolding call
  run_item fn_filter once kwargs fn_item =
      if accepts fn_filter fn_item.fn_type then call fn_item kwargs once else (fn_item, [])

  -- The items after the run, the result of the block, and the log.
  unfoldable pub run_block :
      Option (T → Bool)
      → Bool
      → Dict Text V
      → List (FnItem T V)
      → Dict Text V
      → List (FnItem T V) × Dict Text V × List Text
  unfolding run_item add_result
  run_block fn_filter once kwargs [] block_rst = ([], block_rst, [])
  run_block fn_filter once kwargs (fn_item ∷ items) block_rst =
      let (ran, log) = run_item fn_filter once kwargs fn_item in
      let (items', rst, logs) =
        run_block fn_filter once kwargs items (add_result block_rst ran.result) in
      (ran ∷ items', rst, log ++ logs)

  -- The loop of `run_chain`: the blocks after the run, the result of the chain, and the log.
  unfoldable pub run_blocks :
      Option (T → Bool)
      → Bool
      → List (List (FnItem T V))
      → Dict Text V
      → List (List (FnItem T V)) × Dict Text V × List Text
  unfolding run_block update
  run_blocks fn_filter once [] chain_rst = ([], chain_rst, [])
  run_blocks fn_filter once (block ∷ blocks) chain_rst =
      let (block', block_rst, log) = run_block fn_filter once chain_rst block [] in
      let (blocks', rst, logs) = run_blocks fn_filter once blocks (update chain_rst block_rst) in
      (block' ∷ blocks', rst, log ++ logs)

  unfoldable pub run_chain :
      Option (T → Bool)
      → Bool
      → List (List (FnItem T V))
      → List (List (FnItem T V)) × Dict Text V × List Text
  unfolding run_blocks
  run_chain fn_filter once chain = run_blocks fn_filter once chain []
