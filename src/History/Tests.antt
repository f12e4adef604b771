-- ===== src/History/Tests.antt =====
-- The theorems at a short chain with a fork (crates/ergo-state/src/history.rs).
use ergo_rust_node.Prelude.{
  ℕ, ◌+◌, ◌-◌, ◌^◌, ◌%◌, ◌≤◌, ◌<◌, ◌≡◌, refl, inl, ◌⊎◌, true, false, not, ◌&&◌, Option, none, some,
  is_some, List, [], ◌∷◌, ltb, if◌then◌else◌, max, Result, ok, err, saturating_add_u32, arith,
}
use ergo_rust_node.Storage.{new, put, delete, put_one, contains}
use ergo_rust_node.Storage.Example.{log}
use ergo_rust_node.State.{StateError}
use ergo_rust_node.Utxo.Codec.{with_len, read_u32, read_item}
use ergo_rust_node.History.{
  Header, ChainSelection, reorg, put_with_bytes_batched, put_batched, put_header, get_header,
  get_by_height, contains_header, range_loop, get_range, ids_loop, get_ids_range,
}
use ergo_rust_node.History.Example.{lib, id, header}
use ergo_rust_node.History.Difficulty.{nbits_to_target, max_target, nbits_to_difficulty}
use ergo_rust_node.History.Blocks.{
  fields_bytes, serialize_extension, read_bytes, read_fields, deserialize_extension,
  put_extension_batched, put_ad_proofs_batched, txs_bytes, serialize_transactions,
  put_transactions_batched, read_txs, deserialize_transactions, get_extension, get_ad_proofs,
  has_transactions, put_extension, put_ad_proofs, put_transactions, get_transactions,
}
use ergo_rust_node.History.Blocks.RoundTrip
use ergo_rust_node.History.Chain.{
  or_zero, History, FullBlock, loaded_id, loaded_u32, loaded_flag, is_header, with_pruning,
  loaded_difficulty, init_from_storage_with_pruning, get_cumulative_difficulty, parent_cumulative,
  store_cumulative_difficulty, fork_loop, find_fork_height, put_best, selection_of, select_header,
  append_header_internal, put_optional_proofs, add_block_to_batch, put_best_full,
  finalize_block_batch, append_full_block, update_in_memory_state,
}
use ergo_rust_node.History.Chain.Best
use ergo_rust_node.History.Chain.Best.{IsBest, append_all}
use ergo_rust_node.History.Chain.Persistence
use ergo_rust_node.History.Chain.Persistence.{IsPersisted, Call, header_call, block_call, run}
use ergo_rust_node.History.Chain.Fork
use ergo_rust_node.History.Chain.Fork.{IsMeeting}
use ergo_rust_node.History.Chain.Batched
use ergo_rust_node.History.Chain.Batched.Stored.{AreDistinct, AreStored}
use ergo_rust_node.History.Chain.Batched.{
  append_headers_batched, parent_in_batch, add_header, batch_loop, start_of, select_batch, work_of,
  last_of,
}
use ergo_rust_node.History.Queries.{
  locate, locator_loop, get_header_locator, find_common_ancestor, chain_gap,
  set_headers_chain_synced, should_download_block_at_height, prune_block, prune_loop,
  prune_blocks_below, extension_with_parameters_height, is_enabled, new_minimal_height,
  with_minimal, update_best_full_block_pruning,
}
use ergo_rust_node.History.Queries.Locator
use ergo_rust_node.History.Queries.Pruning

abbrev start : History log
start = with_pruning log [] (2 ^ 32 - 1)

abbrev plain : Header → Header × Option (List ℕ)
plain h = (h, none)

-- A main chain 2, 3, 4 and a fork 13, 14 that leaves it after 2.
abbrev forked : History log
forked = append_all log lib start (
    plain (header 2 1 2)
    ∷ plain (header 3 2 3)
    ∷ plain (header 4 3 4)
    ∷ plain (header 13 2 3)
    ∷ plain (header 14 13 4)
    ∷ [])

-- A header with more work on the fork, no higher than the main chain.
abbrev heavy : Header
heavy = record { id = id 15; parent_id = id 13; height = 4; n_bits = 0x1f00ffff; state_root = [] }

abbrev reorganised : History log × Result StateError ChainSelection
reorganised = append_header_internal log lib forked heavy none

abbrev block : FullBlock lib
block = record {
  header = header 2 1 2;
  transactions = 5 ∷ 6 ∷ [];
  extension = record {
    header_id = id 2;
    fields = record { key = 0 ∷ 1 ∷ []; value = 7 ∷ [] } ∷ [];
  };
  ad_proofs = some (record { header_id = id 2; proof_bytes = 8 ∷ [] });
}

abbrev with_block : History log
with_block = (append_full_block log lib start block).0

abbrev pruning : History log
pruning = record with_block { blocks_to_keep = 1; minimal_full_block_height = 1 }

abbrev pruned : History log × Result StateError ℕ
pruned = update_best_full_block_pruning log lib pruning (header 3 2 3)

-- The main chain and the fork part after height 2, but the index has the fork's header at height 3: the
-- reorganisation says 3.
program :
    (forked.best_header_id ≡ some (id 4))
    × (forked.best_cumulative_difficulty ≡ 6)
    × (reorganised.1 ≡ ok (reorg 3 1))
    × (init_from_storage_with_pruning log lib forked.storage (2 ^ 32 - 1) ≡ forked)
    × (get_header_locator log lib forked ≡ some (ok (id 14 ∷ id 13 ∷ id 2 ∷ [])))
    × (find_common_ancestor log lib forked.storage (id 4 ∷ id 2 ∷ []) ≡ ok (some (id 2, 2)))
    × (chain_gap log lib forked ≡ 4)
    × (get_range log lib forked.storage 2 1 ≡ ok (header 2 1 2 ∷ []))
    × (get_ids_range log lib forked.storage 2 2 ≡ ok (id 2 ∷ id 13 ∷ []))
    × (get_transactions log lib with_block.storage (id 2) ≡ ok (some (5 ∷ 6 ∷ [])))
    × (get_extension log with_block.storage (id 2) ≡ ok (some block.extension))
    × (get_ad_proofs log with_block.storage (id 2) ≡ block.ad_proofs)
    × (has_transactions log
          (put_extension log
            (put_ad_proofs log [] (record { header_id = id 2; proof_bytes = [] }))
            block.extension)
          (id 2)
        ≡ false)
    × (with_block.best_full_block_height ≡ 2)
    × ((update_in_memory_state log lib start (id 9) 7 8).best_height ≡ 7)
    × (pruned.0.minimal_full_block_height ≡ 3)
    × (has_transactions log pruned.0.storage (id 2) ≡ false)
    × (should_download_block_at_height log lib pruned.0 3 ≡ true)
unfolding append_all append_header_internal select_header selection_of find_fork_height fork_loop
    put_best store_cumulative_difficulty parent_cumulative get_cumulative_difficulty put_header
    put_batched put_with_bytes_batched contains_header contains get_header get_by_height is_header
    with_pruning put new nbits_to_difficulty nbits_to_target max_target
    init_from_storage_with_pruning loaded_id loaded_u32 loaded_flag loaded_difficulty
    get_header_locator locator_loop locate find_common_ancestor chain_gap get_range range_loop
    get_ids_range ids_loop get_transactions deserialize_transactions read_txs get_extension
    deserialize_extension read_fields read_bytes read_u32 read_item get_ad_proofs has_transactions
    put_extension put_ad_proofs put_transactions append_full_block add_block_to_batch
    put_optional_proofs finalize_block_batch put_best_full update_in_memory_state
    put_transactions_batched serialize_transactions txs_bytes with_len put_extension_batched
    serialize_extension fields_bytes put_ad_proofs_batched update_best_full_block_pruning
    with_minimal new_minimal_height extension_with_parameters_height is_enabled prune_blocks_below
    prune_loop prune_block should_download_block_at_height set_headers_chain_synced put_one delete
    saturating_add_u32
program = (
  refl, refl, refl, refl, refl, refl, refl, refl, refl, refl, refl, refl, refl, refl, refl, refl,
  refl, refl,
)

start-IsBest : IsBest log lib start
unfolding with_pruning get_cumulative_difficulty
start-IsBest = record { bounded = λ k. tt; attained = refl }

append_all-IsBest_example : IsBest log lib forked
append_all-IsBest_example =
    Best.append_all-IsBest log lib start
      (plain (header 2 1 2)
        ∷ plain (header 3 2 3)
        ∷ plain (header 4 3 4)
        ∷ plain (header 13 2 3)
        ∷ plain (header 14 13 4)
        ∷ [])
      start-IsBest

two_new : contains_header log lib start.storage (id 2) ≡ false
unfolding contains_header contains with_pruning
two_new = refl

two_parent : (ltb 2 2 && not (contains_header log lib start.storage (id 1))) ≡ false
two_parent = refl

abbrev db_of : Result StateError log.Db → log.Db
db_of (ok db) = db
db_of (err e) = []

-- A history with the first header, and the one after it.
abbrev with_two : History log
with_two = (append_header_internal log lib start (header 2 1 2) none).0

three_new : contains_header log lib with_two.storage (id 3) ≡ false
unfolding append_header_internal select_header put_best store_cumulative_difficulty
    parent_cumulative get_cumulative_difficulty put_header put_batched put_with_bytes_batched
    contains_header contains with_pruning put new nbits_to_difficulty nbits_to_target max_target
three_new = refl

three_parent : (ltb 2 3 && not (contains_header log lib with_two.storage (id 2))) ≡ false
unfolding append_header_internal select_header put_best store_cumulative_difficulty
    parent_cumulative get_cumulative_difficulty put_header put_batched put_with_bytes_batched
    contains_header contains with_pruning put new nbits_to_difficulty nbits_to_target max_target
three_parent = refl

three_put :
    put_header log lib with_two.storage (header 3 2 3) none
    ≡ ok (db_of (put_header log lib with_two.storage (header 3 2 3) none))
unfolding append_header_internal select_header put_best store_cumulative_difficulty
    parent_cumulative get_cumulative_difficulty put_header put_batched put_with_bytes_batched
    contains_header contains with_pruning put new nbits_to_difficulty nbits_to_target max_target
three_put = refl

append_header_internal-cumulative_example :
    (let h' = (append_header_internal log lib with_two (header 3 2 3) none).0 in
      let parent = or_zero log lib (get_cumulative_difficulty log lib with_two.storage (id 2)) in
      let d = parent + nbits_to_difficulty 0x207fffff in
      (get_cumulative_difficulty log lib h'.storage (id 3) ≡ some d)
      × (h'.best_cumulative_difficulty ≡ max with_two.best_cumulative_difficulty d))
append_header_internal-cumulative_example =
    Best.append_header_internal-cumulative log lib with_two (header 3 2 3) none three_new
      three_parent three_put

start-IsPersisted : IsPersisted log lib start
unfolding with_pruning loaded_id loaded_u32 loaded_flag loaded_difficulty
start-IsPersisted = record {
  id = refl;
  height = refl;
  difficulty = refl;
  full_id = refl;
  full_height = refl;
  minimal = refl;
  synced = refl;
}

abbrev calls : List (Call log lib)
calls = block_call block ∷ header_call (header 3 2 3) none ∷ []

init-run_example :
    (let h' = run log lib start calls in
      init_from_storage_with_pruning log lib h'.storage h'.blocks_to_keep ≡ h')
init-run_example =
    Persistence.init-run log lib start calls start-IsPersisted
      ((refl, omega arith), ((refl, omega arith), tt))

-- The heavy header is stored.
abbrev with_heavy : log.Db
with_heavy = reorganised.0.storage

heavy_found : get_header log lib with_heavy (id 15) ≡ ok (some heavy)
unfolding append_all append_header_internal select_header put_best store_cumulative_difficulty
    parent_cumulative get_cumulative_difficulty put_header put_batched put_with_bytes_batched
    contains_header contains get_header with_pruning put new nbits_to_difficulty nbits_to_target
    max_target
heavy_found = refl

find_fork_three : find_fork_height log lib with_heavy (id 15) ≡ ok 3
unfolding append_all append_header_internal select_header find_fork_height fork_loop is_header
    put_best store_cumulative_difficulty parent_cumulative get_cumulative_difficulty put_header
    put_batched put_with_bytes_batched contains_header contains get_header get_by_height
    with_pruning put new nbits_to_difficulty nbits_to_target max_target
find_fork_three = refl

find_fork_height-IsMeeting_example :
    IsMeeting log lib with_heavy (heavy.height - 1) 3 heavy.parent_id
find_fork_height-IsMeeting_example =
    Fork.find_fork_height-IsMeeting log lib with_heavy (id 15) heavy heavy_found find_fork_three
      (omega arith)

with_block_low : with_block.best_height < 2 ^ 32
unfolding append_full_block add_block_to_batch parent_cumulative put_batched
    put_transactions_batched serialize_transactions txs_bytes finalize_block_batch with_pruning
    nbits_to_difficulty nbits_to_target max_target
with_block_low = omega arith

get_header_locator-ends_example : is_some (get_header_locator log lib with_block) ≡ true
get_header_locator-ends_example = Locator.get_header_locator-ends log lib with_block with_block_low

abbrev batch : List (Header × List ℕ)
batch = (header 4 3 4, 1 ∷ []) ∷ []

four-IsLinked : Batched.IsLinked log lib with_two.storage (header 3 2 3) batch
unfolding append_header_internal select_header put_best store_cumulative_difficulty
    parent_cumulative get_cumulative_difficulty put_header put_batched put_with_bytes_batched
    contains_header contains with_pruning put new nbits_to_difficulty nbits_to_target max_target
four-IsLinked = (refl, omega arith, refl, tt)

batch-AreDistinct : AreDistinct ((header 3 2 3, []) ∷ batch)
batch-AreDistinct = ((refl, tt), (refl, tt), (tt, tt, tt))

append_headers_batched_lem_example :
    (let h' = (append_headers_batched log lib with_two ((header 3 2 3, []) ∷ batch)).0 in
      let parent = or_zero log lib (get_cumulative_difficulty log lib with_two.storage (id 2)) in
      let total = parent + work_of log lib ((header 3 2 3, []) ∷ batch) in
      let better = ltb with_two.best_cumulative_difficulty total in
      AreStored log lib h'.storage parent ((header 3 2 3, []) ∷ batch)
      × (h'.best_cumulative_difficulty ≡ max with_two.best_cumulative_difficulty total)
      × (h'.best_header_id ≡ (if better then some (id 4) else with_two.best_header_id))
      × (h'.best_height ≡ (if better then 4 else with_two.best_height)))
unfolding last_of
append_headers_batched_lem_example =
    Batched.append_headers_batched_lem log lib with_two (header 3 2 3) [] batch three_new
      three_parent four-IsLinked batch-AreDistinct

update_best_full_block_pruning_lem_example :
    (let h' = (update_best_full_block_pruning log lib pruning (header 3 2 3)).0 in
      (1 ≤ h'.minimal_full_block_height)
      × ((h'.minimal_full_block_height ≤ 1024) ⊎ (h'.minimal_full_block_height % 1024 ≡ 0))
      × (should_download_block_at_height log lib h' 3 ≡ true))
update_best_full_block_pruning_lem_example =
    Pruning.update_best_full_block_pruning_lem log lib pruning (header 3 2 3) 3 (omega arith)
      (omega arith) (inl (omega arith)) (omega arith) (omega arith)

deserialize_extension-serialize_extension_example :
    deserialize_extension (id 2) (serialize_extension block.extension) ≡ ok block.extension
deserialize_extension-serialize_extension_example =
    RoundTrip.deserialize_extension-serialize_extension block.extension ((refl, omega arith), tt)
      (omega arith)

abbrev bytes_of : Result StateError (List ℕ) → List ℕ
bytes_of (ok bytes) = bytes
bytes_of (err e) = []

txs_ok : serialize_transactions lib (5 ∷ []) ≡ ok (bytes_of (serialize_transactions lib (5 ∷ [])))
unfolding serialize_transactions txs_bytes
txs_ok = refl
