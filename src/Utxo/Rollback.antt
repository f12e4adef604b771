-- ===== src/Utxo/Rollback.antt =====
-- Undoing blocks with their undo data: `rollback_one_block` and `rollback`
-- (crates/ergo-state/src/utxo.rs).
pub mod Loops
pub mod OneBlock
pub mod Chain
use ergo_rust_node.Prelude.{
  ℕ, zero, suc, ◌+◌, ◌-◌, Option, none, some, List, [], ◌∷◌, leb, if◌then◌else◌, Result, ok, err,
  ◌>>=◌, ok_or,
}
use ergo_rust_node.Storage.{Storage, WriteBatch, utxo, undo_data, metadata, new, put, delete}
use ergo_rust_node.Storage.Bytes.{be_u32}
use ergo_rust_node.State.{StateError, rollback_failed}
use ergo_rust_node.Utxo.{ErgoLib, BoxEntry, UtxoState, box_id, utxo_height_key}
use ergo_rust_node.Utxo.Codec.{serialize, deserialize_undo}
use ergo_rust_node.Utxo.Index.{get_box, index_box, unindex_box}

module _ (s : Storage) (lib : ErgoLib) where
  -- The index entries go only where the box is there; the box itself is deleted in any case.
  unfoldable pub unindex_present : s.Db → Option (BoxEntry lib) → List ℕ → WriteBatch → WriteBatch
  unindex_present db none id batch = batch
  unindex_present db (some entry) id batch = unindex_box s lib db entry.ergo_box id batch

  unfoldable pub remove_created : s.Db → List (List ℕ) → WriteBatch → Result StateError WriteBatch
  remove_created db [] batch = ok batch
  remove_created db (id ∷ ids) batch = do
    found ← get_box s lib db id
    remove_created db ids (delete (unindex_present db found id batch) utxo id)

  unfoldable pub restore_spent :
      s.Db → List (BoxEntry lib) → WriteBatch → Result StateError WriteBatch
  restore_spent db [] batch = ok batch
  restore_spent db (entry ∷ entries) batch = do
    serialized ← serialize lib entry
    let id = box_id lib entry
    restore_spent db entries (put (index_box s lib db entry.ergo_box id batch) utxo id serialized)

  unfoldable pub rollback_one_block : s.Db → ℕ → Result StateError s.Db
  rollback_one_block db height = do
    undo_bytes ← ok_or (s.get db undo_data (be_u32 height)) (rollback_failed height)
    undo ← deserialize_undo lib undo_bytes
    batch ← remove_created db undo.created_box_ids new
    batch ← restore_spent db undo.spent_boxes batch
    ok (s.write_batch db (delete batch undo_data (be_u32 height)))

  -- `for height in (low..low + count).rev()`: the later blocks go first.
  unfoldable pub rollback_blocks : s.Db → ℕ → ℕ → Result StateError s.Db
  rollback_blocks db low zero = ok db
  rollback_blocks db low (suc count) = do
    db ← rollback_blocks db (low + 1) count
    rollback_one_block db low

  unfoldable pub rollback : UtxoState lib s → ℕ → Result StateError (UtxoState lib s)
  rollback u to_height =
      let rolled = (do
        db ← rollback_blocks u.storage (to_height + 1) (u.height - to_height)
        ok (record u {
          storage = s.write_batch db (put new metadata utxo_height_key (be_u32 to_height));
          height = to_height;
        })) in
      if leb u.height to_height then err (rollback_failed to_height) else rolled
