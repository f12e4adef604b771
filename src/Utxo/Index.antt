-- ===== src/Utxo/Index.antt =====
-- The indexes from ErgoTree hashes and token ids to box ids, and box lookups
-- (crates/ergo-state/src/utxo.rs). What goes into a batch is not seen by reads before it is written.
pub mod Laws
pub mod Entries
use ergo_rust_node.Prelude.{
  ℕ, zero, suc, ◌+◌, ◌%◌, ◌≡◌, Bool, true, false, not, ◌||◌, Option, none, some, List, [], ◌∷◌,
  ◌++◌, ltb, if◌then◌else◌, length, take, drop, filter, Result, ok, err, ◌>>=◌, u32_mod,
}
use ergo_rust_node.Storage.{
  Storage, WriteBatch, ColumnFamily, utxo, ergo_tree_index, token_index, put, delete, contains,
}
use ergo_rust_node.Storage.Bytes.{same_bytes, be_u32, from_be}
use ergo_rust_node.State.{StateError}
use ergo_rust_node.Utxo.{ErgoLib, BoxEntry}
use ergo_rust_node.Utxo.Codec.{deserialize}

-- `iter().any(|id| id == box_id)`
unfoldable pub has_id : List (List ℕ) → List ℕ → Bool
has_id [] box_id = false
has_id (id ∷ ids) box_id = same_bytes id box_id || has_id ids box_id

unfoldable pub concat : List (List ℕ) → List ℕ
concat [] = []
concat (id ∷ ids) = id ++ concat ids

unfoldable pub serialize_box_id_list : List (List ℕ) → List ℕ
serialize_box_id_list ids = be_u32 (length ids % u32_mod) ++ concat ids

unfoldable pub read_ids : ℕ → List ℕ → List (List ℕ)
read_ids zero rest = []
read_ids (suc count) rest =
    let ids = read_ids count (drop 32 rest) in
    if ltb (length rest) 32 then [] else take 32 rest ∷ ids

unfoldable pub deserialize_box_id_list : List ℕ → List (List ℕ)
deserialize_box_id_list bytes =
    let ids = read_ids (from_be 0 (take 4 bytes)) (drop 4 bytes) in
    if ltb (length bytes) 4 then [] else ids

unfoldable pub put_or_delete : WriteBatch → ColumnFamily → List ℕ → List (List ℕ) → WriteBatch
put_or_delete batch cf key [] = delete batch cf key
put_or_delete batch cf key (id ∷ ids) = put batch cf key (serialize_box_id_list (id ∷ ids))

module _ (s : Storage) where
  unfoldable pub get_index_entries : s.Db → ColumnFamily → List ℕ → List (List ℕ)
  get_index_entries db cf key = elim (s.get db cf key) [
    | none ↦ []
    | some bytes ↦ deserialize_box_id_list bytes
  ]

  unfoldable pub add_to_index : s.Db → WriteBatch → ColumnFamily → List ℕ → List ℕ → WriteBatch
  add_to_index db batch cf key box_id =
      let ids = get_index_entries db cf key in
      if has_id ids box_id
      then batch
      else put batch cf key (serialize_box_id_list (ids ++ (box_id ∷ [])))

  unfoldable pub remove_from_index : s.Db → WriteBatch → ColumnFamily → List ℕ → List ℕ → WriteBatch
  remove_from_index db batch cf key box_id =
      put_or_delete batch cf key
        (filter (λ id. not (same_bytes id box_id)) (get_index_entries db cf key))

  -- The token part of a box's index entries.
  unfoldable pub add_tokens : s.Db → List (List ℕ) → List ℕ → WriteBatch → WriteBatch
  add_tokens db [] box_id batch = batch
  add_tokens db (token ∷ tokens) box_id batch =
      add_tokens db tokens box_id (add_to_index db batch token_index token box_id)

  unfoldable pub remove_tokens : s.Db → List (List ℕ) → List ℕ → WriteBatch → WriteBatch
  remove_tokens db [] box_id batch = batch
  remove_tokens db (token ∷ tokens) box_id batch =
      remove_tokens db tokens box_id (remove_from_index db batch token_index token box_id)

  module _ (lib : ErgoLib) where
    -- A tree that does not serialize is hashed as the empty string.
    unfoldable pub hash_ergotree : lib.ErgoBox → List ℕ
    hash_ergotree b = elim (lib.tree_bytes b) [
      | none ↦ lib.blake2b256 []
      | some bytes ↦ lib.blake2b256 bytes
    ]

    -- The index entries that a box gets, and those that it loses.
    unfoldable pub index_box : s.Db → lib.ErgoBox → List ℕ → WriteBatch → WriteBatch
    index_box db b box_id batch =
        add_tokens db (lib.token_ids b) box_id
          (add_to_index db batch ergo_tree_index (hash_ergotree b) box_id)

    unfoldable pub unindex_box : s.Db → lib.ErgoBox → List ℕ → WriteBatch → WriteBatch
    unindex_box db b box_id batch =
        remove_tokens db (lib.token_ids b) box_id
          (remove_from_index db batch ergo_tree_index (hash_ergotree b) box_id)

    -- `get_box` and `get_box_by_bytes`
    unfoldable pub get_box : s.Db → List ℕ → Result StateError (Option (BoxEntry lib))
    get_box db box_id = elim (s.get db utxo box_id) [
      | none ↦ ok none
      | some bytes ↦ deserialize lib bytes >>= λ entry. ok (some entry)
    ]

    -- `contains_box` and `contains_box_bytes`
    unfoldable pub contains_box : s.Db → List ℕ → Bool
    contains_box db box_id = contains s db utxo box_id

    -- `get_boxes_by_ergo_tree` and `get_boxes_by_token`: the indexed boxes that are there.
    unfoldable pub present_boxes : s.Db → List (List ℕ) → Result StateError (List (BoxEntry lib))
    present_boxes db [] = ok []
    present_boxes db (id ∷ ids) = do
      found ← get_box db id
      boxes ← present_boxes db ids
      ok (elim found [ none ↦ boxes | some entry ↦ entry ∷ boxes ])

    unfoldable pub get_boxes_by_ergo_tree : s.Db → List ℕ → Result StateError (List (BoxEntry lib))
    get_boxes_by_ergo_tree db hash = present_boxes db (get_index_entries db ergo_tree_index hash)

    unfoldable pub get_boxes_by_token : s.Db → List ℕ → Result StateError (List (BoxEntry lib))
    get_boxes_by_token db token_id = present_boxes db (get_index_entries db token_index token_id)
