-- ===== src/Utxo/Apply/Batch.antt =====
-- `add_change_to_batch_with_context` (crates/ergo-state/src/utxo.rs) adds the same change of the set to
-- a batch as `apply_change` makes, whichever of the three places a spent box is found in.
use ergo_rust_node.Prelude.{
  ℕ, ◌≡◌, refl, sym, ap, inl, inr, Bool, true, ◌||◌, Bool-cases, Option, is_some, List, [], ◌∷◌,
  map, All, ok, >>=-eq-ok, ok_injective, arith,
}
use ergo_rust_node.Storage.{Storage, WriteBatch, utxo, undo_data, metadata, overlay}
use ergo_rust_node.Storage.Bytes.{same_bytes, be_u32}
use ergo_rust_node.Storage.Overlay.{overlay-delete, overlay-put_elsewhere}
use ergo_rust_node.Utxo.{
  ErgoLib, BoxEntry, StateChange, UndoData, UtxoState, box_id, utxo_height_key,
}
use ergo_rust_node.Utxo.Codec.{serialize_undo}
use ergo_rust_node.Utxo.Index.{has_id}
use ergo_rust_node.Utxo.Apply.{
  find_spent, spend_in_batch, create_all, record_undo, add_change_to_batch_with_context,
}
use ergo_rust_node.Utxo.Apply.Loops.{
  without, changed, with_created, unindexed-elsewhere, create_all_lem,
}
use ergo_rust_node.Utxo.Codec.{serialize}

module _ (s : Storage) (lib : ErgoLib) where
  spend_in_batch_lem :
      (db : s.Db) (skip : Bool) (created : List (BoxEntry lib))
      (context : List (List ℕ × BoxEntry lib)) (ids : List (List ℕ)) (batch : WriteBatch)
      (saved : List (BoxEntry lib)) {r : WriteBatch × List (BoxEntry lib)}
      → spend_in_batch s lib db skip created context ids batch saved ≡ ok r
      → (k : List ℕ) (old : Option (List ℕ))
      → overlay r.0.operations utxo k old ≡ without ids k (overlay batch.operations utxo k old)
  unfolding has_id spend_in_batch
  spend_in_batch_lem db skip created context [] batch saved h k old =
      ap (λ r. overlay r.0.operations utxo k old) (sym (ok_injective h))
  spend_in_batch_lem db skip created context (id ∷ ids) batch saved h k old =
      let p = >>=-eq-ok (find_spent s lib db created context id) _ h in
      rw
        (
          spend_in_batch_lem db skip created context ids _ _ p.1.1 k old,
          overlay-delete _ utxo utxo id k old,
          unindexed-elsewhere s lib db skip p.0.ergo_box id k batch utxo old refl refl,
        )
        (ground arith)

  record_undo_lem :
      (batch : WriteBatch) (undo : UndoData lib) {b : WriteBatch}
      → record_undo s lib batch undo ≡ ok b
      → (k : List ℕ) (old : Option (List ℕ))
      → overlay b.operations utxo k old ≡ overlay batch.operations utxo k old
  unfolding record_undo
  record_undo_lem batch undo h k old =
      let p = >>=-eq-ok (serialize_undo lib undo) _ h in
      rw (
        sym (ok_injective p.1.1),
        overlay-put_elsewhere _ metadata utxo utxo_height_key k old (be_u32 undo.height) refl,
        overlay-put_elsewhere batch undo_data utxo (be_u32 undo.height) k old p.0 refl,
      )

  -- When `add_change_to_batch_with_context` succeeds, the batch that it returns makes the abstract
  -- change to what the batch so far leaves every id with: spent boxes out, then created boxes in.
  pub add_change_to_batch_with_context_lem :
      (u : UtxoState lib s) (batch : WriteBatch) (change : StateChange lib) (h : ℕ)
      (context : List (List ℕ × BoxEntry lib)) {b : WriteBatch}
      → add_change_to_batch_with_context s lib u batch change h context ≡ ok b
      → (k : List ℕ) (old : Option (List ℕ))
      → overlay b.operations utxo k old ≡ changed lib change k (overlay batch.operations utxo k old)
  unfolding add_change_to_batch_with_context changed
  add_change_to_batch_with_context_lem u batch change h context e k old =
      let p =
        >>=-eq-ok
          (spend_in_batch s lib u.storage u.sync_mode change.created context change.spent batch [])
          _ e in
      let q = >>=-eq-ok (create_all s lib u.storage u.sync_mode change.created p.0.0 []) _ p.1.1 in
      rw (
        record_undo_lem q.0.0 _ q.1.1 k old,
        create_all_lem s lib u.storage u.sync_mode change.created _ [] q.1.0 k old,
        spend_in_batch_lem u.storage u.sync_mode change.created context change.spent batch [] p.1.0
            k old,
      )

  Serializable : List (BoxEntry lib) → Type 0
  Serializable es = All (λ e. (bytes : List ℕ) × (serialize lib e ≡ ok bytes)) es

  create_all-Serializable :
      (db : s.Db) (skip : Bool) (es : List (BoxEntry lib)) (batch : WriteBatch)
      (ids : List (List ℕ)) {r : WriteBatch × List (List ℕ)}
      → create_all s lib db skip es batch ids ≡ ok r
      → Serializable es
  unfolding create_all Serializable
  create_all-Serializable db skip [] batch ids h = tt
  create_all-Serializable db skip (e ∷ es) batch ids h =
      let p = >>=-eq-ok (serialize lib e) _ h in
      ((p.0, p.1.0), create_all-Serializable db skip es _ _ p.1.1)

  with_created-present :
      (es : List (BoxEntry lib)) (k : List ℕ) (old : Option (List ℕ))
      → Serializable es
      → (has_id (map (box_id lib) es) k || is_some old) ≡ true
      → is_some (with_created lib es k old) ≡ true
  unfolding with_created has_id Serializable
  with_created-present [] k old a h = h
  with_created-present (e ∷ es) k old a h =
      with_created-present es k _ a.1 (elim (Bool-cases (same_bytes (box_id lib e) k)) [
        | inl q ↦ rw (q, a.0.1) (ground arith)
        | inr q ↦ rw q (ground arith)
      ])

  -- When `add_change_to_batch_with_context` succeeds, the id of every box that the change creates is
  -- in the set after the batch, even an id that the change spends: the spent ids are deleted before the
  -- created boxes are written.
  pub created_stays :
      (u : UtxoState lib s) (batch : WriteBatch) (change : StateChange lib) (h : ℕ)
      (context : List (List ℕ × BoxEntry lib)) (k : List ℕ) {b : WriteBatch}
      → add_change_to_batch_with_context s lib u batch change h context ≡ ok b
      → has_id (map (box_id lib) change.created) k ≡ true
      → is_some (s.get (s.write_batch u.storage b) utxo k) ≡ true
  unfolding add_change_to_batch_with_context changed
  created_stays u batch change h context k e here =
      let p =
        >>=-eq-ok
          (spend_in_batch s lib u.storage u.sync_mode change.created context change.spent batch [])
          _ e in
      let q = >>=-eq-ok (create_all s lib u.storage u.sync_mode change.created p.0.0 []) _ p.1.1 in
      rw (s.get-write_batch, add_change_to_batch_with_context_lem u batch change h context e k _)
        (with_created-present change.created k _
          (create_all-Serializable u.storage u.sync_mode change.created p.0.0 [] q.1.0)
          (ground arith))
