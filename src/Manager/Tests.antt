-- ===== src/Manager/Tests.antt =====
-- The theorems at two blocks (crates/ergo-state/src/manager.rs).
use ergo_rust_node.Prelude.{
  ℕ, ◌+◌, ◌≡◌, refl, true, false, none, List, [], ◌∷◌, Result, ok, err, ◌||◌, arith,
}
use ergo_rust_node.Storage.{utxo, new, put, delete, contains}
use ergo_rust_node.Storage.Bytes.{same_bytes}
use ergo_rust_node.Storage.Example.{log}
use ergo_rust_node.State.{
  StateError, box_not_found, invalid_transition, rollback_failed, state_root_mismatch,
}
use ergo_rust_node.Utxo.{StateChange, UtxoState, box_id}
use ergo_rust_node.Utxo.Example.{lib, entry, id, storable}
use ergo_rust_node.Utxo.Codec.{
  serialize, deserialize, serialize_undo, deserialize_undo, spent_bytes, created_bytes, with_len,
  read_u32, read_item, read_spent, read_created,
}
use ergo_rust_node.Utxo.Index.{
  has_id, concat, serialize_box_id_list, read_ids, deserialize_box_id_list, get_index_entries,
  add_to_index, put_or_delete, remove_from_index, hash_ergotree, add_tokens, remove_tokens,
  index_box, unindex_box, get_box, contains_box,
}
use ergo_rust_node.Utxo.Apply.{
  new_state, init_from_storage, loaded_height, loaded_root, update_height_in_memory, unless_syncing,
  spend_all, create_all, record_undo, apply_change, created_in_block, in_context, find_spent,
  spend_in_batch, add_change_to_batch_with_context,
}
use ergo_rust_node.Utxo.Apply.Consistent.{IsConsistent}
use ergo_rust_node.Utxo.Rollback.{
  unindex_present, remove_created, restore_spent, rollback_one_block, rollback_blocks, rollback,
}
use ergo_rust_node.Utxo.Rollback.OneBlock.{IsClean}
use ergo_rust_node.History.{
  ChainSelection, extended, ignored, put_with_bytes_batched, put_batched, get_header, get_by_height,
}
use ergo_rust_node.History.Example.{lib as chain, header}
use ergo_rust_node.History.Difficulty.{nbits_to_target, max_target, nbits_to_difficulty}
use ergo_rust_node.History.Blocks.{
  fields_bytes, serialize_extension, put_extension_batched, put_ad_proofs_batched, txs_bytes,
  serialize_transactions, put_transactions_batched, read_txs, deserialize_transactions,
  get_transactions,
}
use ergo_rust_node.History.Chain.{
  FullBlock, with_pruning, loaded_id, loaded_u32, loaded_flag, loaded_difficulty,
  init_from_storage_with_pruning, get_cumulative_difficulty, parent_cumulative,
  store_cumulative_difficulty, put_best, put_optional_proofs, add_block_to_batch, put_best_full,
  finalize_block_batch, append_full_block, update_in_memory_state,
}
use ergo_rust_node.Manager.{
  warn_only, enforce, is_unset, expected_hash, check_heights, recovery_target, StateManager,
  with_verification, set_verification_mode, heights, is_synced, undo_change, verify_state_root,
  apply_stored, apply_block, apply_state_change, first_gap, insert_created, remove_spent,
  add_blocks, last_block, commit_blocks, apply_blocks_batched, rollback_to, any_present, is_good,
  last_good, check_and_recover_utxo_state, load,
}
use ergo_rust_node.Manager.Applying.{IsShared}
use ergo_rust_node.Manager.Rejecting
use ergo_rust_node.Manager.Rejecting.{stored}
use ergo_rust_node.Manager.Batches
use ergo_rust_node.Manager.Batches.{changed_all, apply_each, AreApplied}
use ergo_rust_node.Manager.Recovery
use ergo_rust_node.Manager.Recovery.{IsRecovery}

abbrev start : StateManager log chain lib
start = with_verification log chain lib [] warn_only

-- A block with one transaction, 5 or 6; a transaction has the box of its number as its output.
abbrev block : ℕ → ℕ → FullBlock chain
block n tx = record {
  header = header n 0 n;
  transactions = tx ∷ [];
  extension = record { header_id = id n; fields = [] };
  ad_proofs = none;
}

abbrev output_ids : ℕ → List (List ℕ)
output_ids n = id n ∷ []

-- The second block spends the box of the first.
abbrev first : StateChange lib
first = record { created = entry 5 ∷ []; spent = [] }

abbrev second : StateChange lib
second = record { created = entry 6 ∷ []; spent = id 5 ∷ [] }

abbrev blocks : List (FullBlock chain × StateChange lib)
blocks = (block 2 6, second) ∷ []

abbrev batched : StateManager log chain lib × Result StateError ChainSelection
batched = apply_blocks_batched log chain lib start ((block 1 5, first) ∷ blocks)

abbrev manager_of : Result StateError (StateManager log chain lib) → StateManager log chain lib
manager_of (ok m) = m
manager_of (err e) = start

abbrev each : StateManager log chain lib
each = manager_of (apply_each log chain lib start ((block 1 5, first) ∷ blocks))

abbrev recovered : StateManager log chain lib → Result StateError (StateManager log chain lib)
recovered m = check_and_recover_utxo_state log chain lib output_ids m

-- The set's root is computed and enforced.
abbrev enforcing : StateManager log chain lib
enforcing =
    let u = start.utxo in
    record start { utxo = record u { state_root = 1 ∷ [] }; state_root_verification = enforce }

abbrev mismatched : StateManager log chain lib × Result StateError ChainSelection
mismatched = apply_block log chain lib enforcing (block 1 5) first

-- One block of which no output is unspent.
abbrev lost : StateManager log chain lib
lost = (apply_block log chain lib start (block 1 7) first).0

batched_ok : batched.1 ≡ ok extended
unfolding serialize deserialize serialize_undo deserialize_undo spent_bytes created_bytes with_len
    read_u32 read_item read_spent read_created has_id concat serialize_box_id_list read_ids
    deserialize_box_id_list get_index_entries add_to_index put_or_delete remove_from_index
    hash_ergotree add_tokens remove_tokens index_box unindex_box get_box contains_box new_state
    init_from_storage loaded_height loaded_root update_height_in_memory unless_syncing spend_all
    create_all record_undo apply_change created_in_block in_context find_spent spend_in_batch
    add_change_to_batch_with_context unindex_present remove_created restore_spent rollback_one_block
    rollback_blocks rollback put_with_bytes_batched put_batched get_header get_by_height
    nbits_to_target max_target nbits_to_difficulty fields_bytes serialize_extension
    put_extension_batched put_ad_proofs_batched txs_bytes serialize_transactions
    put_transactions_batched read_txs deserialize_transactions get_transactions with_pruning
    loaded_id loaded_u32 loaded_flag loaded_difficulty init_from_storage_with_pruning
    get_cumulative_difficulty parent_cumulative store_cumulative_difficulty put_best
    put_optional_proofs add_block_to_batch put_best_full finalize_block_batch append_full_block
    update_in_memory_state is_unset expected_hash check_heights recovery_target with_verification
    set_verification_mode heights is_synced undo_change verify_state_root apply_stored apply_block
    apply_state_change first_gap insert_created remove_spent add_blocks last_block commit_blocks
    apply_blocks_batched rollback_to any_present is_good last_good check_and_recover_utxo_state load
    apply_each new put delete box_id contains
batched_ok = refl

each_ok : apply_each log chain lib start ((block 1 5, first) ∷ blocks) ≡ ok each
unfolding serialize deserialize serialize_undo deserialize_undo spent_bytes created_bytes with_len
    read_u32 read_item read_spent read_created has_id concat serialize_box_id_list read_ids
    deserialize_box_id_list get_index_entries add_to_index put_or_delete remove_from_index
    hash_ergotree add_tokens remove_tokens index_box unindex_box get_box contains_box new_state
    init_from_storage loaded_height loaded_root update_height_in_memory unless_syncing spend_all
    create_all record_undo apply_change created_in_block in_context find_spent spend_in_batch
    add_change_to_batch_with_context unindex_present remove_created restore_spent rollback_one_block
    rollback_blocks rollback put_with_bytes_batched put_batched get_header get_by_height
    nbits_to_target max_target nbits_to_difficulty fields_bytes serialize_extension
    put_extension_batched put_ad_proofs_batched txs_bytes serialize_transactions
    put_transactions_batched read_txs deserialize_transactions get_transactions with_pruning
    loaded_id loaded_u32 loaded_flag loaded_difficulty init_from_storage_with_pruning
    get_cumulative_difficulty parent_cumulative store_cumulative_difficulty put_best
    put_optional_proofs add_block_to_batch put_best_full finalize_block_batch append_full_block
    update_in_memory_state is_unset expected_hash check_heights recovery_target with_verification
    set_verification_mode heights is_synced undo_change verify_state_root apply_stored apply_block
    apply_state_change first_gap insert_created remove_spent add_blocks last_block commit_blocks
    apply_blocks_batched rollback_to any_present is_good last_good check_and_recover_utxo_state load
    apply_each new put delete box_id contains
each_ok = refl

start-IsShared : IsShared log chain lib start
unfolding serialize deserialize serialize_undo deserialize_undo spent_bytes created_bytes with_len
    read_u32 read_item read_spent read_created has_id concat serialize_box_id_list read_ids
    deserialize_box_id_list get_index_entries add_to_index put_or_delete remove_from_index
    hash_ergotree add_tokens remove_tokens index_box unindex_box get_box contains_box new_state
    init_from_storage loaded_height loaded_root update_height_in_memory unless_syncing spend_all
    create_all record_undo apply_change created_in_block in_context find_spent spend_in_batch
    add_change_to_batch_with_context unindex_present remove_created restore_spent rollback_one_block
    rollback_blocks rollback put_with_bytes_batched put_batched get_header get_by_height
    nbits_to_target max_target nbits_to_difficulty fields_bytes serialize_extension
    put_extension_batched put_ad_proofs_batched txs_bytes serialize_transactions
    put_transactions_batched read_txs deserialize_transactions get_transactions with_pruning
    loaded_id loaded_u32 loaded_flag loaded_difficulty init_from_storage_with_pruning
    get_cumulative_difficulty parent_cumulative store_cumulative_difficulty put_best
    put_optional_proofs add_block_to_batch put_best_full finalize_block_batch append_full_block
    update_in_memory_state is_unset expected_hash check_heights recovery_target with_verification
    set_verification_mode heights is_synced undo_change verify_state_root apply_stored apply_block
    apply_state_change first_gap insert_created remove_spent add_blocks last_block commit_blocks
    apply_blocks_batched rollback_to any_present is_good last_good check_and_recover_utxo_state load
    apply_each new put delete box_id contains
start-IsShared = refl

-- One by one, the block at height 2 does not count the difficulty of the one before it, so the best header
-- stays at height 1; in a batch it does.
program :
    (contains_box log lib batched.0.utxo.storage (id 5) ≡ false)
    × (contains_box log lib batched.0.utxo.storage (id 6) ≡ true)
    × (heights log chain lib batched.0 ≡ (2, 2))
    × (is_synced log chain lib batched.0 ≡ true)
    × (heights log chain lib each ≡ (2, 1))
    × ((apply_block log chain lib start (block 2 5) first).1 ≡ err (invalid_transition 1 2))
    × ((apply_block log chain lib start (block 1 5) second).1 ≡ err (box_not_found (id 5)))
    × ((apply_block log chain lib start (block 1 5) second).0.history.best_full_block_height ≡ 1)
    × ((apply_blocks_batched log chain lib start ((block 1 5, first) ∷ (block 3 6, second) ∷ [])).1
        ≡ err (invalid_transition 2 3))
    × ((apply_blocks_batched log chain lib start []).1 ≡ ok ignored)
    × (mismatched.1 ≡ err (state_root_mismatch 1))
    × (mismatched.0.utxo.height ≡ 0)
    × (mismatched.0.history.best_full_block_height ≡ 1)
    × ((manager_of (rollback_to log chain lib each 1)).utxo.height ≡ 1)
    × (contains_box log lib (manager_of (rollback_to log chain lib each 1)).utxo.storage (id 5)
        ≡ true)
    × ((manager_of (load log chain lib output_ids each.utxo.storage)).utxo.height ≡ 2)
    × (recovered lost ≡ err (rollback_failed 1))
    × ((manager_of (apply_state_change log chain lib start first 1)).utxo.height ≡ 1)
    × ((set_verification_mode log chain lib start enforce).state_root_verification ≡ enforce)
    × (remove_spent log chain lib (id 5 ∷ []) (insert_created log chain lib (entry 5 ∷ []) []) ≡ [])
unfolding serialize deserialize serialize_undo deserialize_undo spent_bytes created_bytes with_len
    read_u32 read_item read_spent read_created has_id concat serialize_box_id_list read_ids
    deserialize_box_id_list get_index_entries add_to_index put_or_delete remove_from_index
    hash_ergotree add_tokens remove_tokens index_box unindex_box get_box contains_box new_state
    init_from_storage loaded_height loaded_root update_height_in_memory unless_syncing spend_all
    create_all record_undo apply_change created_in_block in_context find_spent spend_in_batch
    add_change_to_batch_with_context unindex_present remove_created restore_spent rollback_one_block
    rollback_blocks rollback put_with_bytes_batched put_batched get_header get_by_height
    nbits_to_target max_target nbits_to_difficulty fields_bytes serialize_extension
    put_extension_batched put_ad_proofs_batched txs_bytes serialize_transactions
    put_transactions_batched read_txs deserialize_transactions get_transactions with_pruning
    loaded_id loaded_u32 loaded_flag loaded_difficulty init_from_storage_with_pruning
    get_cumulative_difficulty parent_cumulative store_cumulative_difficulty put_best
    put_optional_proofs add_block_to_batch put_best_full finalize_block_batch append_full_block
    update_in_memory_state is_unset expected_hash check_heights recovery_target with_verification
    set_verification_mode heights is_synced undo_change verify_state_root apply_stored apply_block
    apply_state_change first_gap insert_created remove_spent add_blocks last_block commit_blocks
    apply_blocks_batched rollback_to any_present is_good last_good check_and_recover_utxo_state load
    apply_each new put delete box_id contains
program = (
  refl, refl, refl, refl, refl, refl, refl, refl, refl, refl, refl, refl, refl, refl, refl, refl,
  refl, refl, refl, refl,
)

apply_blocks_batched_lem_example :
    (first_gap log chain lib 1 ((block 1 5, first) ∷ blocks) ≡ none)
    × AreApplied log chain lib start (block 1 5) first blocks batched.0
apply_blocks_batched_lem_example =
    Batches.apply_blocks_batched_lem log chain lib start (block 1 5) first blocks start-IsShared
      batched_ok

apply_blocks_batched-apply_each_example :
    (batched.0.utxo.height ≡ each.utxo.height)
    × ((k : List ℕ) → log.get batched.0.utxo.storage utxo k ≡ log.get each.utxo.storage utxo k)
apply_blocks_batched-apply_each_example =
    Batches.apply_blocks_batched-apply_each log chain lib start (block 1 5) first blocks
      start-IsShared batched_ok each_ok

enforcing-IsConsistent : IsConsistent log lib enforcing.utxo.storage
unfolding IsConsistent new_state with_verification
enforcing-IsConsistent k = tt

enforcing-IsShared : IsShared log chain lib enforcing
unfolding new_state with_verification with_pruning
enforcing-IsShared = refl

first-IsClean : IsClean log lib enforcing.utxo first 1
unfolding new_state with_verification
first-IsClean = record {
  fresh = (refl, tt);
  storable = (storable 5, tt);
  spent_count = omega arith;
  created_count = omega arith;
  height_bound = omega arith;
}

enforcing_next : 1 ≡ enforcing.utxo.height + 1
unfolding new_state with_verification
enforcing_next = refl

enforcing_appended : (append_full_block log chain enforcing.history (block 1 5)).1 ≡ ok extended
unfolding serialize deserialize serialize_undo deserialize_undo spent_bytes created_bytes with_len
    read_u32 read_item read_spent read_created has_id concat serialize_box_id_list read_ids
    deserialize_box_id_list get_index_entries add_to_index put_or_delete remove_from_index
    hash_ergotree add_tokens remove_tokens index_box unindex_box get_box contains_box new_state
    init_from_storage loaded_height loaded_root update_height_in_memory unless_syncing spend_all
    create_all record_undo apply_change created_in_block in_context find_spent spend_in_batch
    add_change_to_batch_with_context unindex_present remove_created restore_spent rollback_one_block
    rollback_blocks rollback put_with_bytes_batched put_batched get_header get_by_height
    nbits_to_target max_target nbits_to_difficulty fields_bytes serialize_extension
    put_extension_batched put_ad_proofs_batched txs_bytes serialize_transactions
    put_transactions_batched read_txs deserialize_transactions get_transactions with_pruning
    loaded_id loaded_u32 loaded_flag loaded_difficulty init_from_storage_with_pruning
    get_cumulative_difficulty parent_cumulative store_cumulative_difficulty put_best
    put_optional_proofs add_block_to_batch put_best_full finalize_block_batch append_full_block
    update_in_memory_state is_unset expected_hash check_heights recovery_target with_verification
    set_verification_mode heights is_synced undo_change verify_state_root apply_stored apply_block
    apply_state_change first_gap insert_created remove_spent add_blocks last_block commit_blocks
    apply_blocks_batched rollback_to any_present is_good last_good check_and_recover_utxo_state load
    apply_each new put delete box_id
enforcing_appended = refl

abbrev changed_state : Result StateError (UtxoState lib log) → UtxoState lib log
changed_state (ok u) = u
changed_state (err e) = start.utxo

abbrev enforcing_change : Result StateError (UtxoState lib log)
enforcing_change = apply_change log lib (stored log chain lib enforcing (block 1 5)).utxo first 1

enforcing_applied : enforcing_change ≡ ok (changed_state enforcing_change)
unfolding serialize deserialize serialize_undo deserialize_undo spent_bytes created_bytes with_len
    read_u32 read_item read_spent read_created has_id concat serialize_box_id_list read_ids
    deserialize_box_id_list get_index_entries add_to_index put_or_delete remove_from_index
    hash_ergotree add_tokens remove_tokens index_box unindex_box get_box contains_box new_state
    init_from_storage loaded_height loaded_root update_height_in_memory unless_syncing spend_all
    create_all record_undo apply_change created_in_block in_context find_spent spend_in_batch
    add_change_to_batch_with_context unindex_present remove_created restore_spent rollback_one_block
    rollback_blocks rollback put_with_bytes_batched put_batched get_header get_by_height
    nbits_to_target max_target nbits_to_difficulty fields_bytes serialize_extension
    put_extension_batched put_ad_proofs_batched txs_bytes serialize_transactions
    put_transactions_batched read_txs deserialize_transactions get_transactions with_pruning
    loaded_id loaded_u32 loaded_flag loaded_difficulty init_from_storage_with_pruning
    get_cumulative_difficulty parent_cumulative store_cumulative_difficulty put_best
    put_optional_proofs add_block_to_batch put_best_full finalize_block_batch append_full_block
    update_in_memory_state is_unset expected_hash check_heights recovery_target with_verification
    set_verification_mode heights is_synced undo_change verify_state_root apply_stored apply_block
    apply_state_change first_gap insert_created remove_spent add_blocks last_block commit_blocks
    apply_blocks_batched rollback_to any_present is_good last_good check_and_recover_utxo_state load
    apply_each new put delete box_id
enforcing_applied = refl

enforcing_other :
    (is_unset (changed_state enforcing_change).state_root
      || same_bytes (changed_state enforcing_change).state_root (expected_hash []))
    ≡ false
unfolding serialize deserialize serialize_undo deserialize_undo spent_bytes created_bytes with_len
    read_u32 read_item read_spent read_created has_id concat serialize_box_id_list read_ids
    deserialize_box_id_list get_index_entries add_to_index put_or_delete remove_from_index
    hash_ergotree add_tokens remove_tokens index_box unindex_box get_box contains_box new_state
    init_from_storage loaded_height loaded_root update_height_in_memory unless_syncing spend_all
    create_all record_undo apply_change created_in_block in_context find_spent spend_in_batch
    add_change_to_batch_with_context unindex_present remove_created restore_spent rollback_one_block
    rollback_blocks rollback put_with_bytes_batched put_batched get_header get_by_height
    nbits_to_target max_target nbits_to_difficulty fields_bytes serialize_extension
    put_extension_batched put_ad_proofs_batched txs_bytes serialize_transactions
    put_transactions_batched read_txs deserialize_transactions get_transactions with_pruning
    loaded_id loaded_u32 loaded_flag loaded_difficulty init_from_storage_with_pruning
    get_cumulative_difficulty parent_cumulative store_cumulative_difficulty put_best
    put_optional_proofs add_block_to_batch put_best_full finalize_block_batch append_full_block
    update_in_memory_state is_unset expected_hash check_heights recovery_target with_verification
    set_verification_mode heights is_synced undo_change verify_state_root apply_stored apply_block
    apply_state_change first_gap insert_created remove_spent add_blocks last_block commit_blocks
    apply_blocks_batched rollback_to any_present is_good last_good check_and_recover_utxo_state load
    apply_each new put delete box_id
enforcing_other = refl

apply_block-mismatch_example :
    (mismatched.1 ≡ err (state_root_mismatch 1))
    × (mismatched.0.utxo.height ≡ enforcing.utxo.height)
    × ((k : List ℕ)
        → log.get mismatched.0.utxo.storage utxo k ≡ log.get enforcing.utxo.storage utxo k)
apply_block-mismatch_example =
    Rejecting.apply_block-mismatch log chain lib enforcing (block 1 5) first enforcing-IsShared
      enforcing-IsConsistent first-IsClean enforcing_next refl enforcing_appended enforcing_applied
      enforcing_other

recovered-each : recovered each ≡ ok each
unfolding serialize deserialize serialize_undo deserialize_undo spent_bytes created_bytes with_len
    read_u32 read_item read_spent read_created has_id concat serialize_box_id_list read_ids
    deserialize_box_id_list get_index_entries add_to_index put_or_delete remove_from_index
    hash_ergotree add_tokens remove_tokens index_box unindex_box get_box contains_box new_state
    init_from_storage loaded_height loaded_root update_height_in_memory unless_syncing spend_all
    create_all record_undo apply_change created_in_block in_context find_spent spend_in_batch
    add_change_to_batch_with_context unindex_present remove_created restore_spent rollback_one_block
    rollback_blocks rollback put_with_bytes_batched put_batched get_header get_by_height
    nbits_to_target max_target nbits_to_difficulty fields_bytes serialize_extension
    put_extension_batched put_ad_proofs_batched txs_bytes serialize_transactions
    put_transactions_batched read_txs deserialize_transactions get_transactions with_pruning
    loaded_id loaded_u32 loaded_flag loaded_difficulty init_from_storage_with_pruning
    get_cumulative_difficulty parent_cumulative store_cumulative_difficulty put_best
    put_optional_proofs add_block_to_batch put_best_full finalize_block_batch append_full_block
    update_in_memory_state is_unset expected_hash check_heights recovery_target with_verification
    set_verification_mode heights is_synced undo_change verify_state_root apply_stored apply_block
    apply_state_change first_gap insert_created remove_spent add_blocks last_block commit_blocks
    apply_blocks_batched rollback_to any_present is_good last_good check_and_recover_utxo_state load
    apply_each new put delete box_id
recovered-each = refl

check_and_recover_utxo_state_lem_example : IsRecovery log chain lib output_ids each each
check_and_recover_utxo_state_lem_example =
    Recovery.check_and_recover_utxo_state_lem log chain lib output_ids each recovered-each
