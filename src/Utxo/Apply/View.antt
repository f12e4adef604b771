-- ===== src/Utxo/Apply/View.antt =====
-- The set of unspent boxes before and after a state change, as a function from ids to stored
-- entries: the abstract view that `apply_change` of crates/ergo-state/src/utxo.rs implements.
use ergo_rust_node.Prelude.{
  ℕ, ◌<◌, ◌^◌, ◌≡◌, refl, sym, ap, ◌∙◌, List, [], ok, >>=-eq-ok, ok_injective,
}
use ergo_rust_node.Storage.{Storage, WriteBatch, utxo, undo_data, metadata, new, put}
use ergo_rust_node.Storage.Bytes.{be_u32, from_be-be_u32}
use ergo_rust_node.Storage.Overlay.{overlay-put, overlay-put_elsewhere}
use ergo_rust_node.Utxo.{ErgoLib, BoxEntry, StateChange, UndoData, UtxoState, utxo_height_key}
use ergo_rust_node.Utxo.Codec.{serialize_undo}
use ergo_rust_node.Utxo.Apply.{
  spend_all, create_all, record_undo, apply_change, init_from_storage, loaded_height,
}
use ergo_rust_node.Utxo.Apply.Loops.{changed, spend_all_lem, create_all_lem}

module _ (s : Storage) (lib : ErgoLib) where
  -- What a successful application consists of.
  pub record Applied (u : UtxoState lib s) (change : StateChange lib) (h : ℕ) (u' : UtxoState lib s)
      : Type 0 where
    pub spending : WriteBatch × List (BoxEntry lib)
    pub creating : WriteBatch × List (List ℕ)
    pub undo_bytes : List ℕ
    pub spends : spend_all s lib u.storage u.sync_mode change.spent new [] ≡ ok spending
    pub creates : create_all s lib u.storage u.sync_mode change.created spending.0 [] ≡ ok creating
    pub undoes :
        serialize_undo lib
          (record { height = h; spent_boxes = spending.1; created_box_ids = creating.1 })
        ≡ ok undo_bytes
    pub result : u' ≡ record u {
      storage = s.write_batch u.storage (
          put (put creating.0 undo_data (be_u32 h) undo_bytes) metadata utxo_height_key (be_u32 h));
      height = h;
    }

  pub apply_change-Applied :
      (u : UtxoState lib s) (change : StateChange lib) (h : ℕ) {u' : UtxoState lib s}
      → apply_change s lib u change h ≡ ok u'
      → Applied u change h u'
  unfolding apply_change record_undo
  apply_change-Applied u change h e =
      let p = >>=-eq-ok (spend_all s lib u.storage u.sync_mode change.spent new []) _ e in
      let q = >>=-eq-ok (create_all s lib u.storage u.sync_mode change.created p.0.0 []) _ p.1.1 in
      let undo : UndoData lib = record {
        height = h;
        spent_boxes = p.0.1;
        created_box_ids = q.0.1;
      } in
      let r = >>=-eq-ok (record_undo s lib q.0.0 undo) _ q.1.1 in
      let t = >>=-eq-ok (serialize_undo lib undo) _ r.1.0 in
      record {
        spending = p.0;
        creating = q.0;
        undo_bytes = t.0;
        spends = p.1.0;
        creates = q.1.0;
        undoes = t.1.0;
        result =
            sym (ok_injective r.1.1)
            ∙ ap (λ b. record u { storage = s.write_batch u.storage b; height = h })
                (sym (ok_injective t.1.1));
      }

  -- A successful `apply_change` implements the abstract change: every id holds what the spent and
  -- created boxes leave it with.
  pub apply_change_lem :
      (u : UtxoState lib s) (change : StateChange lib) (h : ℕ) {u' : UtxoState lib s}
      → apply_change s lib u change h ≡ ok u'
      → (k : List ℕ) → s.get u'.storage utxo k ≡ changed lib change k (s.get u.storage utxo k)
  unfolding changed new
  apply_change_lem u change h e k =
      let p = apply_change-Applied u change h e in
      rw (
        p.result,
        s.get-write_batch,
        overlay-put_elsewhere _ metadata utxo utxo_height_key k _ (be_u32 h) refl,
        overlay-put_elsewhere _ undo_data utxo (be_u32 h) k _ p.undo_bytes refl,
        create_all_lem s lib u.storage u.sync_mode change.created _ [] p.creates k _,
        spend_all_lem s lib u.storage u.sync_mode change.spent _ [] p.spends k _,
      )

  -- After a successful `apply_change` at a height below 2^32, a state that is loaded from the storage
  -- has that height.
  pub init_from_storage-apply_change :
      (u : UtxoState lib s) (change : StateChange lib) (h : ℕ) {u' : UtxoState lib s}
      → apply_change s lib u change h ≡ ok u'
      → h < 2 ^ 32
      → (init_from_storage s lib u'.storage).height ≡ h
  unfolding init_from_storage loaded_height
  init_from_storage-apply_change u change h e bound =
      let p = apply_change-Applied u change h e in
      rw (
        p.result,
        s.get-write_batch,
        overlay-put _ metadata metadata utxo_height_key utxo_height_key _ (be_u32 h),
        from_be-be_u32 h bound,
      )
