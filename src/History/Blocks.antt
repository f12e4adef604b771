-- ===== src/History/Blocks.antt =====
-- The store of block sections, `BlockStore` of crates/ergo-state/src/history.rs: transactions,
-- extensions and AD proofs. A decoder's `offset` is kept as what is left of the bytes after it.
pub mod RoundTrip
use ergo_rust_node.Prelude.{
  ℕ, zero, suc, ◌+◌, ◌%◌, Bool, Option, none, some, List, [], ◌∷◌, ◌++◌, ltb, if◌then◌else◌, length,
  take, drop, Result, ok, err, ◌>>=◌, ok_or, u32_mod,
}
use ergo_rust_node.Storage.{
  Storage, WriteBatch, block_transactions, extensions, ad_proofs, new, put, contains,
}
use ergo_rust_node.Storage.Bytes.{be_u16, be_u32, from_be}
use ergo_rust_node.State.{StateError, serialization}
use ergo_rust_node.Utxo.Codec.{with_len, read_u32, read_item}
use ergo_rust_node.History.{ChainLib, Header}

-- The key of a field is two bytes.
pub record ExtensionField : Type 0 where
  pub key : List ℕ
  pub value : List ℕ

pub record Extension : Type 0 where
  pub header_id : List ℕ
  pub fields : List ExtensionField

pub record AdProofs : Type 0 where
  pub header_id : List ℕ
  pub proof_bytes : List ℕ

unfoldable pub fields_bytes : List ExtensionField → List ℕ
fields_bytes [] = []
fields_bytes (field ∷ fields) =
    field.key ++ (be_u16 (length field.value % 65536) ++ (field.value ++ fields_bytes fields))

unfoldable pub serialize_extension : Extension → List ℕ
serialize_extension extension =
    be_u32 (length extension.fields % u32_mod) ++ fields_bytes extension.fields

-- The next `n` bytes, and the rest.
unfoldable pub read_bytes : ℕ → List ℕ → Result StateError (List ℕ × List ℕ)
read_bytes n rest = if ltb (length rest) n then err serialization else ok (take n rest, drop n rest)

unfoldable pub read_fields : ℕ → List ℕ → Result StateError (List ExtensionField)
read_fields zero rest = ok []
read_fields (suc count) rest = do
  (key, rest) ← read_bytes 2 rest
  (value_len, rest) ← read_bytes 2 rest
  (value, rest) ← read_bytes (from_be 0 value_len) rest
  fields ← read_fields count rest
  ok (record { key = key; value = value } ∷ fields)

unfoldable pub deserialize_extension : List ℕ → List ℕ → Result StateError Extension
deserialize_extension block_id bytes = do
  (field_count, rest) ← read_u32 bytes
  fields ← read_fields field_count rest
  ok (record { header_id = block_id; fields = fields })

unfoldable pub put_extension_batched : WriteBatch → Extension → WriteBatch
put_extension_batched batch extension =
    put batch extensions extension.header_id (serialize_extension extension)

unfoldable pub put_ad_proofs_batched : WriteBatch → AdProofs → WriteBatch
put_ad_proofs_batched batch proofs = put batch ad_proofs proofs.header_id proofs.proof_bytes

module _ (lib : ChainLib) where
  unfoldable pub txs_bytes : List lib.Tx → Result StateError (List ℕ)
  txs_bytes [] = ok []
  txs_bytes (tx ∷ txs) = do
    tx_bytes ← ok_or (lib.sigma_serialize_bytes tx) serialization
    rest ← txs_bytes txs
    ok (with_len tx_bytes ++ rest)

  unfoldable pub serialize_transactions : List lib.Tx → Result StateError (List ℕ)
  serialize_transactions txs = do bytes ← txs_bytes txs; ok (be_u32 (length txs % u32_mod) ++ bytes)

  unfoldable pub put_transactions_batched :
      WriteBatch → List ℕ → List lib.Tx → Result StateError WriteBatch
  put_transactions_batched batch block_id txs = do
    bytes ← serialize_transactions txs
    ok (put batch block_transactions block_id bytes)

  unfoldable pub read_txs : ℕ → List ℕ → Result StateError (List lib.Tx)
  read_txs zero rest = ok []
  read_txs (suc count) rest = do
    (tx_bytes, rest) ← read_item rest
    tx ← ok_or (lib.sigma_parse_bytes tx_bytes) serialization
    txs ← read_txs count rest
    ok (tx ∷ txs)

  -- `get_transactions`, from the stored bytes.
  unfoldable pub deserialize_transactions : List ℕ → Result StateError (List lib.Tx)
  deserialize_transactions bytes = do (count, rest) ← read_u32 bytes; read_txs count rest

module _ (s : Storage) where
  unfoldable pub get_extension : s.Db → List ℕ → Result StateError (Option Extension)
  get_extension db block_id = elim (s.get db extensions block_id) [
    | none ↦ ok none
    | some bytes ↦ do extension ← deserialize_extension block_id bytes; ok (some extension)
  ]

  unfoldable pub get_ad_proofs : s.Db → List ℕ → Option AdProofs
  get_ad_proofs db block_id = elim (s.get db ad_proofs block_id) [
    | none ↦ none
    | some bytes ↦ some (record { header_id = block_id; proof_bytes = bytes })
  ]

  unfoldable pub has_transactions : s.Db → List ℕ → Bool
  has_transactions db block_id = contains s db block_transactions block_id

  unfoldable pub put_extension : s.Db → Extension → s.Db
  put_extension db extension = s.write_batch db (put_extension_batched new extension)

  unfoldable pub put_ad_proofs : s.Db → AdProofs → s.Db
  put_ad_proofs db proofs = s.write_batch db (put_ad_proofs_batched new proofs)

  module _ (lib : ChainLib) where
    unfoldable pub put_transactions : s.Db → List ℕ → List lib.Tx → Result StateError s.Db
    put_transactions db block_id txs = do
      batch ← put_transactions_batched lib new block_id txs
      ok (s.write_batch db batch)

    unfoldable pub get_transactions : s.Db → List ℕ → Result StateError (Option (List lib.Tx))
    get_transactions db block_id = elim (s.get db block_transactions block_id) [
      | none ↦ ok none
      | some bytes ↦ do txs ← deserialize_transactions lib bytes; ok (some txs)
    ]
