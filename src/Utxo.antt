-- ===== src/Utxo.antt =====
-- The set of unspent boxes, as in crates/ergo-state/src/utxo.rs: box entries, state changes and undo
-- data here, their application to the storage in Utxo/Apply, rollback in Utxo/Rollback. The boxes of
-- `ergo_lib` and the hash function are parameters.
pub mod Codec
pub mod Index
pub mod Apply
pub mod Rollback
pub mod Example
mod Tests
use ergo_rust_node.Prelude.{
  ℕ, ◌+◌, ◌^◌, ◌<◌, ◌≡◌, Bool, ◌&&◌, Option, none, some, List, [], ◌∷◌, ◌++◌, ◌==◌, if◌then◌else◌,
  length, Result, ok, map,
}
use ergo_rust_node.Storage.{Storage}

-- What the code uses of `ErgoBox`, and Blake2b-256.
pub record ErgoLib : Type 1 where
  pub ErgoBox : Type 0
  pub id_of : ErgoBox → List ℕ
  pub sigma_serialize_bytes : ErgoBox → Option (List ℕ)
  pub sigma_parse_bytes : List ℕ → Option ErgoBox
  pub tree_bytes : ErgoBox → Option (List ℕ)
  pub token_ids : ErgoBox → List (List ℕ)
  pub blake2b256 : List ℕ → List ℕ
  pub length-id_of : (b : ErgoBox) → length (id_of b) ≡ 32
  pub parse-serialize :
      (b : ErgoBox) (bytes : List ℕ)
      → sigma_serialize_bytes b ≡ some bytes
      → sigma_parse_bytes bytes ≡ some b

module _ (lib : ErgoLib) where
  pub record BoxEntry : Type 0 where
    pub ergo_box : lib.ErgoBox
    pub creation_height : ℕ
    pub tx_id : List ℕ
    pub output_index : ℕ

  -- `BoxEntry::box_id` and `BoxEntry::box_id_bytes`; an id is its 32 bytes.
  unfoldable pub box_id : BoxEntry → List ℕ
  box_id entry = lib.id_of entry.ergo_box

  pub record StateChange : Type 0 where
    pub created : List BoxEntry
    pub spent : List (List ℕ)

  unfoldable pub new_change : StateChange
  new_change = record { created = []; spent = [] }

  unfoldable pub is_empty : StateChange → Bool
  is_empty change = (length change.created == 0) && (length change.spent == 0)

  unfoldable pub len : StateChange → ℕ
  len change = length change.created + length change.spent

  pub record UndoData : Type 0 where
    pub height : ℕ
    pub spent_boxes : List BoxEntry
    pub created_box_ids : List (List ℕ)

  unfoldable pub new_undo : ℕ → UndoData
  new_undo height = record { height = height; spent_boxes = []; created_box_ids = [] }

  -- Ids of another length than a digest's are left out.
  unfoldable pub digests : List (List ℕ) → List (List ℕ)
  digests [] = []
  digests (id ∷ ids) = let rest = digests ids in if length id == 32 then id ∷ rest else rest

  unfoldable pub to_reverse_change : UndoData → StateChange
  unfolding digests
  to_reverse_change undo = record {
    created = undo.spent_boxes;
    spent = digests undo.created_box_ids;
  }

  pub record UtxoState (s : Storage) : Type 0 where
    pub storage : s.Db
    pub state_root : List ℕ
    pub height : ℕ
    pub sync_mode : Bool

abbrev pub utxo_height_key : List ℕ
utxo_height_key = 117 ∷ 116 ∷ 120 ∷ 111 ∷ 95 ∷ 104 ∷ 101 ∷ 105 ∷ 103 ∷ 104 ∷ 116 ∷ []

abbrev pub state_root_key : List ℕ
state_root_key = 115 ∷ 116 ∷ 97 ∷ 116 ∷ 101 ∷ 95 ∷ 114 ∷ 111 ∷ 111 ∷ 116 ∷ []
