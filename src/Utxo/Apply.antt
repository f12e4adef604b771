-- ===== src/Utxo/Apply.antt =====
-- Applying a block's state change: `apply_change`, `add_change_to_batch_with_context` and the
-- operations on the state around them (crates/ergo-state/src/utxo.rs).
pub mod Loops
pub mod View
pub mod Consistent
pub mod Batch
use ergo_rust_node.Prelude.{
  ℕ, ◌+◌, Bool, false, Option, none, some, List, [], ◌∷◌, ◌++◌, ltb, if◌then◌else◌, length, take,
  replicate, Result, ok, err, ◌>>=◌, ok_or,
}
use ergo_rust_node.Storage.{Storage, WriteBatch, utxo, undo_data, metadata, new, put, delete}
use ergo_rust_node.Storage.Bytes.{same_bytes, be_u32, from_be}
use ergo_rust_node.State.{StateError, box_not_found}
use ergo_rust_node.Utxo.{
  ErgoLib, BoxEntry, StateChange, UndoData, UtxoState, box_id, utxo_height_key, state_root_key,
}
use ergo_rust_node.Utxo.Codec.{serialize, serialize_undo}
use ergo_rust_node.Utxo.Index.{get_box, index_box, unindex_box}

module _ (s : Storage) (lib : ErgoLib) where
  -- `UtxoState::new`
  unfoldable pub new_state : s.Db → UtxoState lib s
  new_state db = record { storage = db; state_root = replicate 32 0; height = 0; sync_mode = false }

  unfoldable pub loaded_height : Option (List ℕ) → ℕ → ℕ
  loaded_height none old = old
  loaded_height (some bytes) old = if ltb (length bytes) 4 then old else from_be 0 (take 4 bytes)

  unfoldable pub loaded_root : Option (List ℕ) → List ℕ → List ℕ
  loaded_root none old = old
  loaded_root (some root) old = root

  -- `UtxoState::init_from_storage`
  unfoldable pub init_from_storage : s.Db → UtxoState lib s
  init_from_storage db =
      let u = new_state db in
      record u {
        state_root = loaded_root (s.get db metadata state_root_key) u.state_root;
        height = loaded_height (s.get db metadata utxo_height_key) u.height;
      }

  unfoldable pub set_sync_mode : UtxoState lib s → Bool → UtxoState lib s
  set_sync_mode u enabled = record u { sync_mode = enabled }

  unfoldable pub update_height_in_memory : UtxoState lib s → ℕ → UtxoState lib s
  update_height_in_memory u new_height = record u { height = new_height }

  -- Index entries are left alone in sync mode.
  unfoldable pub unless_syncing : Bool → WriteBatch → WriteBatch → WriteBatch
  unless_syncing skip indexed batch = if skip then batch else indexed

  -- The loop of `apply_change` over the spent boxes, with the boxes saved for undo.
  unfoldable pub spend_all :
      s.Db
      → Bool
      → List (List ℕ)
      → WriteBatch
      → List (BoxEntry lib)
      → Result StateError (WriteBatch × List (BoxEntry lib))
  spend_all db skip [] batch saved = ok (batch, saved)
  spend_all db skip (id ∷ ids) batch saved = do
    found ← get_box s lib db id
    entry ← ok_or found (box_not_found id)
    spend_all db skip ids
        (delete (unless_syncing skip (unindex_box s lib db entry.ergo_box id batch) batch) utxo id)
        (saved ++ (entry ∷ []))

  -- The loop over the created boxes, with the ids recorded for undo.
  unfoldable pub create_all :
      s.Db
      → Bool
      → List (BoxEntry lib)
      → WriteBatch
      → List (List ℕ)
      → Result StateError (WriteBatch × List (List ℕ))
  create_all db skip [] batch ids = ok (batch, ids)
  create_all db skip (entry ∷ entries) batch ids = do
    serialized ← serialize lib entry
    let id = box_id lib entry
    create_all db skip entries
        (put (unless_syncing skip (index_box s lib db entry.ergo_box id batch) batch) utxo id
          serialized)
        (ids ++ (id ∷ []))

  -- The undo data under the height's key, and the height.
  unfoldable pub record_undo : WriteBatch → UndoData lib → Result StateError WriteBatch
  record_undo batch undo = do
    undo_bytes ← serialize_undo lib undo
    ok (
        put (put batch undo_data (be_u32 undo.height) undo_bytes) metadata utxo_height_key
          (be_u32 undo.height))

  unfoldable pub apply_change :
      UtxoState lib s → StateChange lib → ℕ → Result StateError (UtxoState lib s)
  apply_change u change new_height = do
    (batch, saved) ← spend_all u.storage u.sync_mode change.spent new []
    (batch, ids) ← create_all u.storage u.sync_mode change.created batch []
    batch ←
        record_undo batch
          (record { height = new_height; spent_boxes = saved; created_box_ids = ids })
    ok (record u { storage = s.write_batch u.storage batch; height = new_height })

  -- `created_in_block`: the map that the created boxes are collected in keeps the last of an id.
  unfoldable pub created_in_block : List (BoxEntry lib) → List ℕ → Option (BoxEntry lib)
  created_in_block [] id = none
  created_in_block (entry ∷ entries) id = elim (created_in_block entries id) [
    | none ↦ if same_bytes (box_id lib entry) id then some entry else none
    | some later ↦ some later
  ]

  -- `batch_created_boxes.get`
  unfoldable pub in_context : List (List ℕ × BoxEntry lib) → List ℕ → Option (BoxEntry lib)
  in_context [] id = none
  in_context ((key, entry) ∷ context) id =
      let later = in_context context id in if same_bytes key id then some entry else later

  -- A spent box: of this block, of an earlier block of the batch, or of the storage.
  unfoldable pub find_spent :
      s.Db
      → List (BoxEntry lib)
      → List (List ℕ × BoxEntry lib)
      → List ℕ
      → Result StateError (BoxEntry lib)
  find_spent db created context id = elim (created_in_block created id) [
    | some entry ↦ ok entry
    | none ↦ elim (in_context context id) [
      | some entry ↦ ok entry
      | none ↦ get_box s lib db id >>= λ found. ok_or found (box_not_found id)
    ]
  ]

  unfoldable pub spend_in_batch :
      s.Db
      → Bool
      → List (BoxEntry lib)
      → List (List ℕ × BoxEntry lib)
      → List (List ℕ)
      → WriteBatch
      → List (BoxEntry lib)
      → Result StateError (WriteBatch × List (BoxEntry lib))
  spend_in_batch db skip created context [] batch saved = ok (batch, saved)
  spend_in_batch db skip created context (id ∷ ids) batch saved = do
    entry ← find_spent db created context id
    spend_in_batch db skip created context ids
        (delete (unless_syncing skip (unindex_box s lib db entry.ergo_box id batch) batch) utxo id)
        (saved ++ (entry ∷ []))

  unfoldable pub add_change_to_batch_with_context :
      UtxoState lib s
      → WriteBatch
      → StateChange lib
      → ℕ
      → List (List ℕ × BoxEntry lib)
      → Result StateError WriteBatch
  add_change_to_batch_with_context u batch change new_height context = do
    (batch, saved) ←
        spend_in_batch u.storage u.sync_mode change.created context change.spent batch []
    (batch, ids) ← create_all u.storage u.sync_mode change.created batch []
    record_undo batch (record { height = new_height; spent_boxes = saved; created_box_ids = ids })

  unfoldable pub add_change_to_batch :
      UtxoState lib s → WriteBatch → StateChange lib → ℕ → Result StateError WriteBatch
  add_change_to_batch u batch change new_height =
      add_change_to_batch_with_context u batch change new_height []
