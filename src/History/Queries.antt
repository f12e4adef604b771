-- ===== src/History/Queries.antt =====
-- The questions that `History` answers about its chains (crates/ergo-state/src/history.rs), and its
-- pruning of old blocks.
pub mod Locator
pub mod Pruning
use ergo_rust_node.Prelude.{
  ℕ, zero, suc, ◌+◌, ◌-◌, ◌*◌, ◌%◌, ◌^◌, Bool, true, false, ◌&&◌, Option, none, some, List, [], ◌∷◌,
  ◌++◌, ltb, leb, ◌==◌, if◌then◌else◌, length, min, max, Result, ok, err, ◌>>=◌, u32_mod,
}
use ergo_rust_node.Storage.{
  Storage, WriteBatch, block_transactions, extensions, ad_proofs, metadata, new, delete, put_one,
}
use ergo_rust_node.Storage.Bytes.{be_u32}
use ergo_rust_node.State.{StateError}
use ergo_rust_node.History.{Header, ChainLib, get_header, get_by_height}
use ergo_rust_node.History.Blocks.{has_transactions}
use ergo_rust_node.History.Chain.{
  History, is_header, minimal_full_block_height_key, is_headers_chain_synced_key,
}

-- The height after a step back: at least 1.
abbrev pub step_back : ℕ → ℕ → ℕ
step_back height step = if ltb (height - step) 1 then 1 else height - step

module _ (s : Storage) (lib : ChainLib) where
  -- The locator with the header of `height`, if there is one.
  unfoldable pub locate : s.Db → ℕ → List (List ℕ) → Result StateError (List (List ℕ))
  locate db height locator = do
    found ← get_by_height s lib db height
    ok (elim found [ none ↦ locator | some header ↦ locator ++ (header.id ∷ []) ])

  -- The rounds of the loop; with no fuel left there is no answer. `step *= 2` is at `u32`.
  unfoldable pub locator_loop :
      s.Db → ℕ → ℕ → ℕ → List (List ℕ) → Option (Result StateError (List (List ℕ)))
  locator_loop db zero height step locator = none
  locator_loop db (suc fuel) height step locator = elim (locate db height locator) [
    | err e ↦ some (err e)
    | ok found ↦
        let step' = if ltb 10 (length found) then (step * 2) % u32_mod else step in
        let rest = locator_loop db fuel (step_back height step) step' found in
        if height == 1 then some (ok found) else rest
  ]

  unfoldable pub get_header_locator : History s → Option (Result StateError (List (List ℕ)))
  get_header_locator h =
      let located = locator_loop h.storage h.best_height h.best_height 1 [] in
      if h.best_height == 0 then some (ok []) else located

  unfoldable pub find_common_ancestor :
      s.Db → List (List ℕ) → Result StateError (Option (List ℕ × ℕ))
  find_common_ancestor db [] = ok none
  find_common_ancestor db (id ∷ ids) = do
    found ← get_header s lib db id
    elim found [
      | none ↦ find_common_ancestor db ids
      | some header ↦ do
        main ← get_by_height s lib db header.height
        (if is_header main header.id
            then ok (some (header.id, header.height))
            else find_common_ancestor db ids)
    ]

  unfoldable pub chain_gap : History s → ℕ
  chain_gap h = h.best_height - h.best_full_block_height

  unfoldable pub set_headers_chain_synced : History s → Bool → History s
  set_headers_chain_synced h synced = record h {
    storage =
        put_one s h.storage metadata is_headers_chain_synced_key
          (if synced then 1 ∷ [] else 0 ∷ []);
    is_headers_chain_synced = synced;
  }

  unfoldable pub should_download_block_at_height : History s → ℕ → Bool
  should_download_block_at_height h height =
      h.is_headers_chain_synced && leb h.minimal_full_block_height height

  -- The sections of the block at one height, if its transactions are there.
  unfoldable pub prune_block : s.Db → Option Header → WriteBatch × ℕ → WriteBatch × ℕ
  prune_block db none acc = acc
  prune_block db (some header) (batch, pruned) =
      if has_transactions s db header.id
      then (
        delete (delete (delete batch block_transactions header.id) extensions header.id) ad_proofs
            header.id,
        pruned + 1,
      )
      else (batch, pruned)

  -- `for h in GENESIS_HEIGHT..height`, with `count` heights left from `h` on.
  unfoldable pub prune_loop : s.Db → ℕ → ℕ → WriteBatch × ℕ → Result StateError (WriteBatch × ℕ)
  prune_loop db h zero acc = ok acc
  prune_loop db h (suc count) acc = do
    found ← get_by_height s lib db h
    prune_loop db (h + 1) count (prune_block db found acc)

  unfoldable pub prune_blocks_below : s.Db → ℕ → Result StateError s.Db
  prune_blocks_below db height = do
    (batch, pruned) ← prune_loop db 1 (height - 1) (new, 0)
    ok (if ltb 0 pruned then s.write_batch db batch else db)

  abbrev pub voting_epoch_length : ℕ
  voting_epoch_length = 1024

  unfoldable pub extension_with_parameters_height : ℕ → ℕ
  extension_with_parameters_height height =
      if ltb height voting_epoch_length then 1 else height - height % voting_epoch_length

  -- `PruningConfig::is_enabled`: the sign of an `i32`.
  unfoldable pub is_enabled : ℕ → Bool
  is_enabled blocks_to_keep = ltb blocks_to_keep (2 ^ 31)

  -- `blocks_to_keep - 1` is a `u32` subtraction.
  unfoldable pub new_minimal_height : History s → ℕ → ℕ
  new_minimal_height h height =
      let floor =
        max h.minimal_full_block_height (height - (h.blocks_to_keep + u32_mod - 1) % u32_mod) in
      let kept =
        if ltb voting_epoch_length floor
        then min floor (extension_with_parameters_height floor)
        else floor in
      if is_enabled h.blocks_to_keep then kept else 1

  -- The history with the new minimal height, and marked as synced if it was not.
  unfoldable pub with_minimal : History s → ℕ → History s
  with_minimal h minimal =
      let h' : History s = record h {
        storage = put_one s h.storage metadata minimal_full_block_height_key (be_u32 minimal);
        minimal_full_block_height = minimal;
      } in
      if h.is_headers_chain_synced then h' else set_headers_chain_synced h' true

  unfoldable pub update_best_full_block_pruning :
      History s → Header → History s × Result StateError ℕ
  update_best_full_block_pruning h header =
      let minimal = new_minimal_height h header.height in
      let h' = with_minimal h minimal in
      if ltb h.minimal_full_block_height minimal && is_enabled h.blocks_to_keep
      then elim (prune_blocks_below h'.storage minimal) [
        | err e ↦ (h', err e)
        | ok db ↦ (record h' { storage = db }, ok minimal)
      ]
      else (h', ok minimal)
