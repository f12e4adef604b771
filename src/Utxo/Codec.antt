-- ===== src/Utxo/Codec.antt =====
-- How box entries, undo data and lists of box ids are stored (crates/ergo-state/src/utxo.rs).
-- A decoder's `offset` is kept as what is left of the bytes after it.
pub mod RoundTrip
use ergo_rust_node.Prelude.{
  ℕ, zero, suc, ◌+◌, ◌%◌, ◌^◌, ◌≡◌, Bool, Option, none, some, List, [], ◌∷◌, ◌++◌, ltb, ◌==◌,
  if◌then◌else◌, length, take, drop, Result, ok, err, ◌>>=◌, ok_or, u32_mod,
}
use ergo_rust_node.Storage.Bytes.{be_u16, be_u32, from_be}
use ergo_rust_node.State.{StateError, serialization}
use ergo_rust_node.Utxo.{ErgoLib, BoxEntry, UndoData}

-- A list's length `as u32`, then each item behind its own length.
unfoldable pub with_len : List ℕ → List ℕ
with_len bytes = be_u32 (length bytes % u32_mod) ++ bytes

unfoldable pub created_bytes : List (List ℕ) → List ℕ
created_bytes [] = []
created_bytes (box_id ∷ ids) = with_len box_id ++ created_bytes ids

-- The number in the next four bytes, and the rest.
unfoldable pub read_u32 : List ℕ → Result StateError (ℕ × List ℕ)
read_u32 rest =
    if ltb (length rest) 4 then err serialization else ok (from_be 0 (take 4 rest), drop 4 rest)

-- A length, that many bytes, and the rest.
unfoldable pub read_item : List ℕ → Result StateError (List ℕ × List ℕ)
read_item rest = do
  (item_len, rest) ← read_u32 rest
  (if ltb (length rest) item_len
      then err serialization
      else ok (take item_len rest, drop item_len rest))

unfoldable pub read_created : ℕ → List ℕ → Result StateError (List (List ℕ))
read_created zero rest = ok []
read_created (suc count) rest = do
  (box_id, rest) ← read_item rest
  ids ← read_created count rest
  ok (box_id ∷ ids)

module _ (lib : ErgoLib) where
  -- `BoxEntry::serialize`
  unfoldable pub serialize : BoxEntry lib → Result StateError (List ℕ)
  serialize entry = do
    box_bytes ← ok_or (lib.sigma_serialize_bytes entry.ergo_box) serialization
    ok (be_u32 entry.creation_height ++ (entry.tx_id ++ (be_u16 entry.output_index ++ box_bytes)))

  -- `BoxEntry::deserialize`
  unfoldable pub deserialize : List ℕ → Result StateError (BoxEntry lib)
  deserialize bytes =
      let entry = (do
        ergo_box ← ok_or (lib.sigma_parse_bytes (drop 38 bytes)) serialization
        ok (record {
          ergo_box = ergo_box;
          creation_height = from_be 0 (take 4 bytes);
          tx_id = take 32 (drop 4 bytes);
          output_index = from_be 0 (take 2 (drop 36 bytes));
        })) in
      if ltb (length bytes) 38 then err serialization else entry

  unfoldable pub spent_bytes : List (BoxEntry lib) → Result StateError (List ℕ)
  spent_bytes [] = ok []
  spent_bytes (entry ∷ entries) = do
    entry_bytes ← serialize entry
    rest ← spent_bytes entries
    ok (with_len entry_bytes ++ rest)

  -- `UndoData::serialize`
  unfoldable pub serialize_undo : UndoData lib → Result StateError (List ℕ)
  serialize_undo undo = do
    boxes ← spent_bytes undo.spent_boxes
    ok (
        be_u32 undo.height
        ++ (be_u32 (length undo.spent_boxes % u32_mod)
            ++ (boxes
                ++ (be_u32 (length undo.created_box_ids % u32_mod)
                    ++ created_bytes undo.created_box_ids))))

  unfoldable pub read_spent : ℕ → List ℕ → Result StateError (List (BoxEntry lib) × List ℕ)
  read_spent zero rest = ok ([], rest)
  read_spent (suc count) rest = do
    (item, rest) ← read_item rest
    entry ← deserialize item
    (entries, rest) ← read_spent count rest
    ok (entry ∷ entries, rest)

  -- `UndoData::deserialize`
  unfoldable pub deserialize_undo : List ℕ → Result StateError (UndoData lib)
  deserialize_undo bytes =
      let undo = (do
        (spent_count, rest) ← read_u32 (drop 4 bytes)
        (spent_boxes, rest) ← read_spent spent_count rest
        (created_count, rest) ← read_u32 rest
        created_box_ids ← read_created created_count rest
        ok (record {
          height = from_be 0 (take 4 bytes);
          spent_boxes = spent_boxes;
          created_box_ids = created_box_ids;
        })) in
      if ltb (length bytes) 12 then err serialization else undo
