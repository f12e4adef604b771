-- ===== src/Utxo/Index/Laws.antt =====
-- The laws of the box indexes (crates/ergo-state/src/utxo.rs).
use ergo_rust_node.Prelude.{
  ℕ, ◌%◌, ◌<◌, ◌^◌, ◌≡◌, refl, inl, inr, false, Bool-cases, Option, List, [], ◌∷◌, ◌++◌, ◌==◌,
  le→ltb, length, All, length-append, arith,
}
use ergo_rust_node.Storage.{
  Storage, WriteBatch, ColumnFamily, ergo_tree_index, token_index, name, overlay,
}
use ergo_rust_node.Storage.Bytes.{be_u32, from_be-be_u32, take-append, drop-append}
use ergo_rust_node.Storage.Overlay.{overlay-put_elsewhere, overlay-delete_elsewhere}
use ergo_rust_node.Utxo.{ErgoLib}
use ergo_rust_node.Utxo.Index.{
  concat, read_ids, serialize_box_id_list, deserialize_box_id_list, get_index_entries, add_to_index,
  remove_from_index, put_or_delete, add_tokens, remove_tokens, index_box, unindex_box, has_id,
}

read_ids-concat :
    (ids : List (List ℕ))
    → All (λ id. length id ≡ 32) ids
    → read_ids (length ids) (concat ids) ≡ ids
unfolding read_ids concat
read_ids-concat [] a = refl
read_ids-concat (id ∷ ids) a = rw (
  take-append 32 id (concat ids) a.0,
  drop-append 32 id (concat ids) a.0,
  le→ltb (length (id ++ concat ids)) 32 (omega (arith, a.0, length-append id (concat ids))),
  read_ids-concat ids a.1,
)

-- A list of 32-byte ids, fewer than 2^32, is read back as it was stored.
pub deserialize_box_id_list-serialize_box_id_list :
    (ids : List (List ℕ))
    → All (λ id. length id ≡ 32) ids
    → length ids < 2 ^ 32
    → deserialize_box_id_list (serialize_box_id_list ids) ≡ ids
unfolding deserialize_box_id_list serialize_box_id_list
deserialize_box_id_list-serialize_box_id_list ids a h = rw (
  le→ltb (length (be_u32 (length ids % 2 ^ 32) ++ concat ids)) 4 (omega arith),
  from_be-be_u32 (length ids % 2 ^ 32) (omega arith),
  small,
  read_ids-concat ids a,
)
  where
    small : length ids % 2 ^ 32 ≡ length ids
    small = omega arith

module _ (s : Storage) (db : s.Db) (c : ColumnFamily) (k : List ℕ) (old : Option (List ℕ)) where
  -- Index entries are written to their own column only.
  add_to_index-elsewhere :
      (batch : WriteBatch) (cf : ColumnFamily) (key id : List ℕ)
      → (name cf == name c) ≡ false
      → overlay (add_to_index s db batch cf key id).operations c k old
        ≡ overlay batch.operations c k old
  unfolding add_to_index
  add_to_index-elsewhere batch cf key id h =
      elim (Bool-cases (has_id (get_index_entries s db cf key) id)) [
        | inl e ↦ rw e
        | inr e ↦ rw (e, overlay-put_elsewhere batch cf c key k old _ h)
      ]

  put_or_delete-elsewhere :
      (batch : WriteBatch) (cf : ColumnFamily) (key : List ℕ) (ids : List (List ℕ))
      → (name cf == name c) ≡ false
      → overlay (put_or_delete batch cf key ids).operations c k old
        ≡ overlay batch.operations c k old
  unfolding put_or_delete
  put_or_delete-elsewhere batch cf key [] h = overlay-delete_elsewhere batch cf c key k old h
  put_or_delete-elsewhere batch cf key (i ∷ ids) h = overlay-put_elsewhere batch cf c key k old _ h

  remove_from_index-elsewhere :
      (batch : WriteBatch) (cf : ColumnFamily) (key id : List ℕ)
      → (name cf == name c) ≡ false
      → overlay (remove_from_index s db batch cf key id).operations c k old
        ≡ overlay batch.operations c k old
  unfolding remove_from_index
  remove_from_index-elsewhere batch cf key id h = put_or_delete-elsewhere batch cf key _ h

  module _ (h : (name token_index == name c) ≡ false) where
    add_tokens-elsewhere :
        (tokens : List (List ℕ)) (id : List ℕ) (batch : WriteBatch)
        → overlay (add_tokens s db tokens id batch).operations c k old
          ≡ overlay batch.operations c k old
    unfolding add_tokens
    add_tokens-elsewhere [] id batch = refl
    add_tokens-elsewhere (token ∷ tokens) id batch =
        rw (add_tokens-elsewhere tokens id, add_to_index-elsewhere batch token_index token id h)

    remove_tokens-elsewhere :
        (tokens : List (List ℕ)) (id : List ℕ) (batch : WriteBatch)
        → overlay (remove_tokens s db tokens id batch).operations c k old
          ≡ overlay batch.operations c k old
    unfolding remove_tokens
    remove_tokens-elsewhere [] id batch = refl
    remove_tokens-elsewhere (token ∷ tokens) id batch = rw (
      remove_tokens-elsewhere tokens id,
      remove_from_index-elsewhere batch token_index token id h,
    )

  module _ (lib : ErgoLib) (h : (name token_index == name c) ≡ false)
      (h' : (name ergo_tree_index == name c) ≡ false) where
    -- Indexing and unindexing a box leave every other column alone.
    pub index_box-elsewhere :
        (b : lib.ErgoBox) (id : List ℕ) (batch : WriteBatch)
        → overlay (index_box s lib db b id batch).operations c k old
          ≡ overlay batch.operations c k old
    unfolding index_box
    index_box-elsewhere b id batch =
        rw (add_tokens-elsewhere h, add_to_index-elsewhere batch ergo_tree_index _ id h')

    pub unindex_box-elsewhere :
        (b : lib.ErgoBox) (id : List ℕ) (batch : WriteBatch)
        → overlay (unindex_box s lib db b id batch).operations c k old
          ≡ overlay batch.operations c k old
    unfolding unindex_box
    unindex_box-elsewhere b id batch =
        rw (remove_tokens-elsewhere h, remove_from_index-elsewhere batch ergo_tree_index _ id h')
