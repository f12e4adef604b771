-- ===== src/Utxo/Tests.antt =====
-- The theorems at a storage with one box (crates/ergo-state/src/utxo.rs).
use ergo_rust_node.Prelude.{
  ℕ, ◌≡◌, refl, Bool, true, false, none, List, [], ◌∷◌, ◌++◌, map, replicate, length, Result, ok,
  err, arith,
}
use ergo_rust_node.Storage.{
  WriteBatch, utxo, ergo_tree_index, new, put, delete, merge, len, clear, is_empty, put_one,
  contains, overlay,
}
use ergo_rust_node.Storage.Example.{log}
use ergo_rust_node.State.{StateError, box_not_found, rollback_failed}
use ergo_rust_node.Utxo.{
  BoxEntry, StateChange, UndoData, UtxoState, box_id, new_change, new_undo, digests,
  to_reverse_change,
}
use ergo_rust_node.Utxo.{is_empty as is_empty_change, len as len_change}
use ergo_rust_node.Utxo.Example.{lib, entry, id, storable}
use ergo_rust_node.Utxo.Codec.{
  serialize, deserialize, with_len, spent_bytes, created_bytes, serialize_undo, read_u32, read_item,
  read_spent, read_created, deserialize_undo,
}
use ergo_rust_node.Utxo.Codec.RoundTrip
use ergo_rust_node.Utxo.Codec.RoundTrip.{IsValid, IsStorable, IsSound}
use ergo_rust_node.Utxo.Index.{
  has_id, concat, serialize_box_id_list, read_ids, deserialize_box_id_list, get_index_entries,
  add_to_index, put_or_delete, remove_from_index, hash_ergotree, add_tokens, remove_tokens,
  index_box, unindex_box, get_box, contains_box, present_boxes, get_boxes_by_ergo_tree,
  get_boxes_by_token,
}
use ergo_rust_node.Utxo.Index.Entries
use ergo_rust_node.Utxo.Apply.{
  new_state, set_sync_mode, update_height_in_memory, unless_syncing, spend_all, create_all,
  record_undo, apply_change, created_in_block, in_context, find_spent, spend_in_batch,
  add_change_to_batch_with_context, add_change_to_batch,
}
use ergo_rust_node.Utxo.Apply.Loops.{changed}
use ergo_rust_node.Utxo.Apply.View
use ergo_rust_node.Utxo.Apply.Consistent
use ergo_rust_node.Utxo.Apply.Consistent.{IsConsistent, some_injective}
use ergo_rust_node.Utxo.Apply.Batch
use ergo_rust_node.Utxo.Rollback.{
  unindex_present, remove_created, restore_spent, rollback_one_block, rollback_blocks, rollback,
}
use ergo_rust_node.Utxo.Rollback.OneBlock.{IsClean}
use ergo_rust_node.Utxo.Rollback.Chain
use ergo_rust_node.Utxo.Rollback.Chain.{apply_all, AreClean}

abbrev start : UtxoState lib log
start = record { storage = []; state_root = []; height = 0; sync_mode = false }

-- Two boxes come with the first block, and the second block spends one of them.
abbrev first : StateChange lib
first = record { created = entry 1 ∷ entry 2 ∷ []; spent = [] }

abbrev second : StateChange lib
second = record { created = entry 3 ∷ []; spent = (1 ∷ replicate 31 0) ∷ [] }

abbrev state_of : Result StateError (UtxoState lib log) → UtxoState lib log
state_of (ok u) = u
state_of (err e) = start

abbrev after_first : Result StateError (UtxoState lib log)
after_first = apply_change log lib start first 1

abbrev holds : Result StateError (UtxoState lib log) → ℕ → Bool
holds r n = contains_box log lib (state_of r).storage (n ∷ replicate 31 0)

first_ok : after_first ≡ ok (state_of after_first)
unfolding apply_change spend_all create_all record_undo index_box serialize serialize_undo
    unless_syncing add_to_index put new get_index_entries has_id hash_ergotree add_tokens
    spent_bytes created_bytes with_len box_id serialize_box_id_list concat
first_ok = refl

both_ok :
    apply_all log lib start (first ∷ second ∷ [])
    ≡ ok (state_of (apply_all log lib start (first ∷ second ∷ [])))
unfolding apply_all apply_change spend_all create_all record_undo get_box index_box unindex_box
    deserialize serialize serialize_undo unless_syncing add_to_index remove_from_index put delete
    new put_or_delete get_index_entries has_id hash_ergotree add_tokens remove_tokens spent_bytes
    created_bytes with_len box_id deserialize_box_id_list read_ids serialize_box_id_list concat
both_ok = refl

abbrev no_context : List (List ℕ × BoxEntry lib)
no_context = []

-- The second block is rolled back.
abbrev rolled : UtxoState lib log
rolled = state_of (rollback log lib (state_of (apply_all log lib start (first ∷ second ∷ []))) 1)

program :
    (holds (apply_all log lib start (first ∷ second ∷ [])) 1 ≡ false)
    × (holds (apply_all log lib start (first ∷ second ∷ [])) 3 ≡ true)
    × (contains_box log lib rolled.storage (id 1) ≡ true)
    × (contains_box log lib rolled.storage (id 3) ≡ false)
    × (rollback log lib start 4 ≡ err (rollback_failed 4))
    × (apply_change log lib start second 1 ≡ err (box_not_found (id 1)))
    × (get_boxes_by_ergo_tree log lib rolled.storage (7 ∷ []) ≡ ok (entry 2 ∷ entry 1 ∷ []))
    × (get_boxes_by_token log lib rolled.storage (9 ∷ []) ≡ ok (entry 2 ∷ entry 1 ∷ []))
    × (to_reverse_change lib (new_undo lib 3) ≡ new_change lib)
    × (is_empty_change lib (new_change lib) ≡ true)
    × (len_change lib second ≡ 2)
    × (is_empty (clear (merge (put new utxo [] []) new)) ≡ true)
    × (len (put new utxo [] []) ≡ 1)
    × (contains log (put_one log [] utxo [] []) utxo [] ≡ true)
    × ((set_sync_mode log lib (new_state log lib []) true).sync_mode ≡ true)
    × ((update_height_in_memory log lib start 6).height ≡ 6)
    × (add_change_to_batch log lib start new first 1
        ≡ add_change_to_batch_with_context log lib start new first 1 no_context)
unfolding apply_all apply_change spend_all create_all record_undo get_box index_box unindex_box
    deserialize serialize serialize_undo unless_syncing add_to_index remove_from_index put delete
    new put_or_delete get_index_entries has_id hash_ergotree add_tokens remove_tokens spent_bytes
    created_bytes with_len box_id deserialize_box_id_list read_ids serialize_box_id_list concat
    contains_box contains rollback rollback_blocks rollback_one_block remove_created restore_spent
    unindex_present deserialize_undo read_u32 read_spent read_item read_created present_boxes
    get_boxes_by_ergo_tree get_boxes_by_token to_reverse_change digests new_undo new_change
    is_empty_change len_change is_empty len merge clear put_one set_sync_mode new_state
    update_height_in_memory add_change_to_batch
program = (
  refl, refl, refl, refl, refl, refl, refl, refl, refl, refl, refl, refl, refl, refl, refl, refl,
  refl,
)

apply_change_lem_example :
    log.get (state_of after_first).storage utxo (id 2)
    ≡ changed lib first (id 2) (log.get start.storage utxo (id 2))
apply_change_lem_example = View.apply_change_lem log lib start first 1 first_ok (id 2)

start-IsConsistent : IsConsistent log lib start.storage
unfolding IsConsistent
start-IsConsistent k = tt

apply_change-IsConsistent_example : IsConsistent log lib (state_of after_first).storage
apply_change-IsConsistent_example =
    Consistent.apply_change-IsConsistent log lib start first 1 start-IsConsistent
      (storable 1, (storable 2, tt)) first_ok

-- A box that is created and spent in one block.
abbrev passing : StateChange lib
passing = record { created = entry 5 ∷ []; spent = id 5 ∷ [] }

abbrev batch_of : Result StateError WriteBatch → WriteBatch
batch_of (ok b) = b
batch_of (err e) = new

abbrev passed : Result StateError WriteBatch
passed = add_change_to_batch_with_context log lib start new passing 1 no_context

passed_ok : passed ≡ ok (batch_of passed)
unfolding add_change_to_batch_with_context spend_in_batch find_spent created_in_block in_context
    create_all record_undo get_box index_box unindex_box serialize serialize_undo unless_syncing
    add_to_index remove_from_index put delete new put_or_delete get_index_entries has_id
    hash_ergotree add_tokens remove_tokens spent_bytes created_bytes with_len box_id
    deserialize_box_id_list read_ids serialize_box_id_list concat
passed_ok = refl

add_change_to_batch_with_context_lem_example :
    overlay (batch_of passed).operations utxo (id 5) none
    ≡ changed lib passing (id 5) (overlay new.operations utxo (id 5) none)
add_change_to_batch_with_context_lem_example =
    Batch.add_change_to_batch_with_context_lem log lib start new passing 1 no_context passed_ok
      (id 5) none

here : has_id (map (box_id lib) passing.created) (id 5) ≡ true
unfolding has_id box_id
here = refl

abbrev undo : UndoData lib
undo = record { height = 7; spent_boxes = entry 1 ∷ []; created_box_ids = id 2 ∷ [] }

abbrev bytes_of : Result StateError (List ℕ) → List ℕ
bytes_of (ok bytes) = bytes
bytes_of (err e) = []

undo_ok : serialize_undo lib undo ≡ ok (bytes_of (serialize_undo lib undo))
unfolding serialize_undo spent_bytes created_bytes with_len serialize
undo_ok = refl

undo-IsSound : IsSound lib undo
undo-IsSound = record {
  height_bound = omega arith;
  spent_count = omega arith;
  created_count = omega arith;
  spent_storable = (storable 1, tt);
  ids_bound = (omega arith, tt);
}

deserialize_undo-serialize_undo_example :
    deserialize_undo lib (bytes_of (serialize_undo lib undo)) ≡ ok undo
deserialize_undo-serialize_undo_example =
    RoundTrip.deserialize_undo-serialize_undo lib undo (bytes_of (serialize_undo lib undo))
      undo-IsSound undo_ok

-- An index whose one key lists two boxes.
abbrev indexed : log.Db
indexed =
    log.write_batch [] (put new ergo_tree_index (7 ∷ []) (serialize_box_id_list (id 1 ∷ id 2 ∷ [])))

abbrev listed : log.Db → List (List ℕ)
listed db = get_index_entries log db ergo_tree_index (7 ∷ [])

length-listed : length (listed indexed) ≡ 2
unfolding put new serialize_box_id_list concat get_index_entries deserialize_box_id_list read_ids
length-listed = refl

unlisted : has_id (listed indexed) (id 4) ≡ false
unfolding has_id put new serialize_box_id_list concat get_index_entries deserialize_box_id_list
    read_ids
unlisted = refl

get_index_entries-add_to_index_example :
    listed (
      log.write_batch indexed (
        add_to_index log indexed
          (add_to_index log indexed new ergo_tree_index (7 ∷ []) (id 3))
          ergo_tree_index
          (7 ∷ [])
          (id 4)))
    ≡ (listed indexed ++ (id 4 ∷ []))
get_index_entries-add_to_index_example =
    Entries.get_index_entries-add_to_index log indexed
      (add_to_index log indexed new ergo_tree_index (7 ∷ []) (id 3)) ergo_tree_index (7 ∷ []) (id 4)
      refl (omega (arith, length-listed)) unlisted

first-IsClean : IsClean log lib start first 1
first-IsClean = record {
  fresh = (refl, (refl, tt));
  storable = (storable 1, (storable 2, tt));
  spent_count = omega arith;
  created_count = omega arith;
  height_bound = omega arith;
}

second-IsClean : IsClean log lib (state_of after_first) second 2
unfolding apply_all apply_change spend_all create_all record_undo get_box index_box unindex_box
    deserialize serialize serialize_undo unless_syncing add_to_index remove_from_index put delete
    new put_or_delete get_index_entries has_id hash_ergotree add_tokens remove_tokens spent_bytes
    created_bytes with_len box_id deserialize_box_id_list read_ids serialize_box_id_list concat
second-IsClean = record {
  fresh = (refl, tt);
  storable = (storable 3, tt);
  spent_count = omega arith;
  created_count = omega arith;
  height_bound = omega arith;
}

blocks-AreClean : AreClean log lib start (first ∷ second ∷ [])
unfolding AreClean apply_change spend_all create_all record_undo get_box index_box unindex_box
    deserialize serialize serialize_undo unless_syncing add_to_index remove_from_index put delete
    new put_or_delete get_index_entries has_id hash_ergotree add_tokens remove_tokens spent_bytes
    created_bytes with_len box_id deserialize_box_id_list read_ids serialize_box_id_list concat
blocks-AreClean = (first-IsClean, (second-IsClean, tt))

rollback-apply_all_example :
    (u'' : UtxoState lib log) × ((rollback log lib
          (state_of (apply_all log lib start (first ∷ second ∷ [])))
          0
        ≡ ok u'')
      × (u''.height ≡ 0)
      × ((k : List ℕ) → log.get u''.storage utxo k ≡ log.get start.storage utxo k))
rollback-apply_all_example =
    Chain.rollback-apply_all log lib start first (second ∷ []) start-IsConsistent blocks-AreClean
      both_ok
