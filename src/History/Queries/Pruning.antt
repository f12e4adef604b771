-- ===== src/History/Queries/Pruning.antt =====
-- Pruning keeps what it has to keep (crates/ergo-state/src/history.rs).
use ergo_rust_node.Prelude.{
  ℕ, ◌+◌, ◌-◌, ◌%◌, ◌^◌, ◌≤◌, ◌<◌, ◌≡◌, refl, ◌⊎◌, inl, inr, true, ◌&&◌, Bool-cases, ltb, max,
  Result-cases, arith,
}
use ergo_rust_node.Storage.{Storage}
use ergo_rust_node.History.{Header, ChainLib}
use ergo_rust_node.History.Chain.{History}
use ergo_rust_node.History.Queries.{
  extension_with_parameters_height, is_enabled, new_minimal_height, with_minimal,
  update_best_full_block_pruning, prune_blocks_below, set_headers_chain_synced,
  should_download_block_at_height,
}

module _ (s : Storage) (lib : ChainLib) where
  -- With 1 to 2^31 - 1 blocks to keep, the minimal height never falls below the old one, if that is at
  -- most 1024 or the start of an epoch; it stays so; and the last `blocks_to_keep` blocks stay above it
  -- when the old minimal height left them.
  new_minimal_height_lem :
      (h : History s) (height : ℕ)
      → 0 < h.blocks_to_keep
      → h.blocks_to_keep < 2 ^ 31
      → ((h.minimal_full_block_height ≤ 1024) ⊎ (h.minimal_full_block_height % 1024 ≡ 0))
      → (let m = new_minimal_height s lib h height in
          (h.minimal_full_block_height ≤ m)
          × (m ≤ max h.minimal_full_block_height (height + 1 - h.blocks_to_keep))
          × ((m ≤ 1024) ⊎ (m % 1024 ≡ 0)))
  unfolding new_minimal_height is_enabled extension_with_parameters_height
  new_minimal_height_lem h height pos small old = (ground arith, ground arith, ground arith)

  with_minimal_lem :
      (h : History s) (m : ℕ)
      → ((with_minimal s lib h m).minimal_full_block_height ≡ m)
        × ((with_minimal s lib h m).is_headers_chain_synced ≡ true)
  unfolding with_minimal set_headers_chain_synced
  with_minimal_lem h m = elim (Bool-cases h.is_headers_chain_synced) [
    | inl e ↦ rw e (refl, refl)
    | inr e ↦ rw e (refl, refl)
  ]

  update_minimal :
      (h : History s) (header : Header)
      → (let h' = (update_best_full_block_pruning s lib h header).0 in
          (h'.minimal_full_block_height ≡ new_minimal_height s lib h header.height)
          × (h'.is_headers_chain_synced ≡ true))
  unfolding update_best_full_block_pruning
  update_minimal h header =
      let m = new_minimal_height s lib h header.height in
      elim (Bool-cases (ltb h.minimal_full_block_height m && is_enabled s lib h.blocks_to_keep)) [
        | inr e ↦ rw e (with_minimal_lem h m)
        | inl e ↦
            elim (Result-cases (prune_blocks_below s lib (with_minimal s lib h m).storage m)) [
              | inl (db, q) ↦ rw (update_best_full_block_pruning, e, q) (with_minimal_lem h m)
              | inr (x, q) ↦ rw (update_best_full_block_pruning, e, q) (with_minimal_lem h m)
            ]
      ]

  -- With 1 to 2^31 - 1 blocks to keep, after the update for a new best full block (also when pruning
  -- fails): the minimal height is not below the old one, if that is at most 1024 or the start of an epoch,
  -- and it is again one of these; and each block that is not below the old minimal height and is one of
  -- the last blocks to keep, or above, is one to download.
  pub update_best_full_block_pruning_lem :
      (h : History s) (header : Header) (j : ℕ)
      → 0 < h.blocks_to_keep
      → h.blocks_to_keep < 2 ^ 31
      → ((h.minimal_full_block_height ≤ 1024) ⊎ (h.minimal_full_block_height % 1024 ≡ 0))
      → h.minimal_full_block_height ≤ j
      → header.height < j + h.blocks_to_keep
      → (let h' = (update_best_full_block_pruning s lib h header).0 in
          (h.minimal_full_block_height ≤ h'.minimal_full_block_height)
          × ((h'.minimal_full_block_height ≤ 1024) ⊎ (h'.minimal_full_block_height % 1024 ≡ 0))
          × (should_download_block_at_height s lib h' j ≡ true))
  unfolding should_download_block_at_height
  update_best_full_block_pruning_lem h header j pos small old above recent =
      let p = new_minimal_height_lem h header.height pos small old in
      let q = update_minimal h header in rw (q.0, q.1) (p.0, p.2, ground (arith, p.1))
