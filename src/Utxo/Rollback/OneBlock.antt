-- ===== src/Utxo/Rollback/OneBlock.antt =====
-- A block's undo data takes the storage back to what it was before the block
-- (`rollback_one_block` of crates/ergo-state/src/utxo.rs).
use ergo_rust_node.Prelude.{
  ℕ, ◌^◌, ◌<◌, ◌≡◌, refl, sym, none, some, List, if◌then◌else◌, length, map, All, ok, arith,
}
use ergo_rust_node.Storage.{Storage, utxo, undo_data, metadata, new, delete}
use ergo_rust_node.Storage.Bytes.{same_bytes, same_bytes_refl, be_u32}
use ergo_rust_node.Storage.Overlay.{
  overlay-put, overlay-delete, overlay-put_elsewhere, overlay-delete_elsewhere,
}
use ergo_rust_node.Utxo.{
  ErgoLib, BoxEntry, StateChange, UndoData, UtxoState, box_id, utxo_height_key,
}
use ergo_rust_node.Utxo.Codec.{serialize_undo, deserialize_undo}
use ergo_rust_node.Utxo.Codec.RoundTrip.{IsStorable, IsSound, deserialize_undo-serialize_undo}
use ergo_rust_node.Utxo.Apply.{apply_change}
use ergo_rust_node.Utxo.Apply.Loops.{Saved, spend_all-Saved, create_all-ids}
use ergo_rust_node.Utxo.Apply.View.{apply_change-Applied, apply_change_lem}
use ergo_rust_node.Utxo.Apply.Consistent.{
  IsConsistent, IsConsistent-agree, apply_change-IsConsistent,
}
use ergo_rust_node.Utxo.Rollback.{rollback_one_block}
use ergo_rust_node.Utxo.Rollback.Loops.{
  remove_created_lem, restore_spent_lem, Saved-Serializable, undone, Saved-length, created-ids,
  AreFresh,
}

module _ (s : Storage) (lib : ErgoLib) where
  -- A block whose boxes are new and whose counts fit their four bytes.
  pub record IsClean (u : UtxoState lib s) (change : StateChange lib) (h : ℕ) : Type 0 where
    pub fresh : AreFresh s lib u.storage change.created
    pub storable : All (IsStorable lib) change.created
    pub spent_count : length change.spent < 2 ^ 32
    pub created_count : length change.created < 2 ^ 32
    pub height_bound : h < 2 ^ 32

  -- The undo data of a block: what is stored, and what it is read back as.
  pub undo_of :
      (u : UtxoState lib s) (change : StateChange lib) (h : ℕ) {u' : UtxoState lib s}
      → IsConsistent s lib u.storage
      → IsClean u change h
      → apply_change s lib u change h ≡ ok u'
      → (bytes : List ℕ) × (es : List (BoxEntry lib)) × ((s.get u'.storage undo_data (be_u32 h)
            ≡ some bytes)
          × (deserialize_undo lib bytes
              ≡ ok (record {
                height = h;
                spent_boxes = es;
                created_box_ids = map (box_id lib) change.created;
              }))
          × Saved s lib u.storage change.spent es)
  undo_of u change h c i e =
      let p = apply_change-Applied s lib u change h e in
      let q = spend_all-Saved s lib u.storage u.sync_mode change.spent _ _ p.spends in
      let r = create_all-ids s lib u.storage u.sync_mode change.created _ _ p.creates in
      let v = Saved-Serializable s lib u.storage change.spent q.0 c q.1.1 in
      let ids = created-ids s lib change.created in
      let undo : UndoData lib = record {
        height = h;
        spent_boxes = q.0;
        created_box_ids = map (box_id lib) change.created;
      } in
      let sound : IsSound lib undo = record {
        height_bound = i.height_bound;
        spent_count =
            omega (arith, i.spent_count, Saved-length s lib u.storage change.spent q.0 q.1.1);
        created_count = omega (arith, i.created_count, ids.1);
        spent_storable = v.1;
        ids_bound = ids.0;
      } in
      let written : serialize_undo lib undo ≡ ok p.undo_bytes = rw (sym q.1.0, sym r, p.undoes) in
      (
        p.undo_bytes,
        q.0,
        (
          rw (
            p.result,
            s.get-write_batch,
            overlay-put_elsewhere _ metadata undo_data utxo_height_key (be_u32 h) _ (be_u32 h) refl,
            overlay-put _ undo_data undo_data (be_u32 h) (be_u32 h) _ p.undo_bytes,
            same_bytes_refl (be_u32 h),
          ),
          deserialize_undo-serialize_undo lib undo p.undo_bytes sound written,
          q.1.1,
        ),
      )

  -- Let `u'` be the state after a clean block on a consistent storage. On every database with the
  -- same boxes and the same undo data of the block's height, rolling the block back succeeds, every
  -- id holds what it held before the block, and the undo data of other keys stays.
  pub rollback_one_block-apply_change :
      (u : UtxoState lib s) (change : StateChange lib) (h : ℕ) {u' : UtxoState lib s} (db : s.Db)
      → IsConsistent s lib u.storage
      → IsClean u change h
      → apply_change s lib u change h ≡ ok u'
      → ((k : List ℕ) → s.get db utxo k ≡ s.get u'.storage utxo k)
      → s.get db undo_data (be_u32 h) ≡ s.get u'.storage undo_data (be_u32 h)
      → (db' : s.Db) × ((rollback_one_block s lib db h ≡ ok db')
          × ((k : List ℕ) → s.get db' utxo k ≡ s.get u.storage utxo k)
          × ((key : List ℕ)
              → s.get db' undo_data key
                ≡ (if same_bytes (be_u32 h) key then none else s.get db undo_data key)))
  unfolding rollback_one_block new
  rollback_one_block-apply_change u change h db c i e same_boxes same_undo =
      let c' = apply_change-IsConsistent s lib u change h c i.storable e in
      let d : IsConsistent s lib db = IsConsistent-agree s lib _ db same_boxes c' in
      let o = undo_of u change h c i e in
      let v = Saved-Serializable s lib u.storage change.spent o.1 c o.2.2 in
      let p = remove_created_lem s lib db (map (box_id lib) change.created) new d in
      let q = restore_spent_lem s lib db o.1 p.0 v.0 in
      (
        s.write_batch db (delete q.0 undo_data (be_u32 h)),
        (
          rw (same_undo, o.2.0, o.2.1, p.1.0, q.1.0),
          λ k.
              rw
                (
                  s.get-write_batch,
                  overlay-delete_elsewhere q.0 undo_data utxo (be_u32 h) k _ refl,
                  q.1.1 k,
                  p.1.1 k,
                  same_boxes k,
                  apply_change_lem s lib u change h e k,
                )
                (undone s lib u.storage change o.1 k c o.2.2 i.fresh),
          λ key. rw (
            s.get-write_batch,
            overlay-delete q.0 undo_data undo_data (be_u32 h) key _,
            q.1.2 key,
            p.1.2 key,
          ),
        ),
      )
