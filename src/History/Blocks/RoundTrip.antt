-- ===== src/History/Blocks/RoundTrip.antt =====
-- Block sections are read back as they were stored (crates/ergo-state/src/history.rs).
use ergo_rust_node.Prelude.{
  ℕ, ◌%◌, ◌^◌, ◌<◌, ◌≡◌, refl, sym, ap, subst, Option, none, some, List, [], ◌∷◌, ◌++◌, le→ltb,
  length, length-append, All, ok, >>=-eq-ok, ok_injective, ok_or, arith,
}
use ergo_rust_node.Storage.Bytes.{be_u16, from_be-be_u16, take-append, drop-append}
use ergo_rust_node.State.{serialization}
use ergo_rust_node.Utxo.Codec.RoundTrip.{read_u32-be_u32, read_item-with_len, u32_of_small}
use ergo_rust_node.History.{ChainLib}
use ergo_rust_node.History.Blocks.{
  ExtensionField, Extension, fields_bytes, serialize_extension, read_bytes, read_fields,
  deserialize_extension, txs_bytes, serialize_transactions, read_txs, deserialize_transactions,
}

read_bytes-append :
    (n : ℕ) (xs rest : List ℕ) → length xs ≡ n → read_bytes n (xs ++ rest) ≡ ok (xs, rest)
unfolding read_bytes
read_bytes-append n xs rest h = rw (
  take-append n xs rest h,
  drop-append n xs rest h,
  le→ltb (length (xs ++ rest)) n (omega (arith, h, length-append xs rest)),
)

-- A field with a key of 2 bytes and a value of fewer than 2^16.
abbrev pub IsField : ExtensionField → Type 0
IsField field = (length field.key ≡ 2) × (length field.value < 2 ^ 16)

u16_of_small : (n : ℕ) → n < 2 ^ 16 → n % 65536 ≡ n
u16_of_small n h = omega arith

read_fields-fields_bytes :
    (fields : List ExtensionField)
    → All IsField fields
    → read_fields (length fields) (fields_bytes fields) ≡ ok fields
unfolding read_fields fields_bytes
read_fields-fields_bytes [] a = refl
read_fields-fields_bytes (field ∷ fields) a =
    let n = length field.value in
    let tail = field.value ++ fields_bytes fields in
    rw (
      u16_of_small n a.0.1,
      read_bytes-append 2 field.key (be_u16 n ++ tail) a.0.0,
      read_bytes-append 2 (be_u16 n) tail refl,
      from_be-be_u16 n a.0.1,
      read_bytes-append n field.value (fields_bytes fields) refl,
      read_fields-fields_bytes fields a.1,
    )

-- An extension with fewer than 2^32 fields, with keys of 2 bytes and values of fewer than 2^16, is read
-- back as it was stored.
pub deserialize_extension-serialize_extension :
    (extension : Extension)
    → All IsField extension.fields
    → length extension.fields < 2 ^ 32
    → deserialize_extension extension.header_id (serialize_extension extension) ≡ ok extension
unfolding deserialize_extension serialize_extension
deserialize_extension-serialize_extension extension a bound = rw (
  u32_of_small (length extension.fields) bound,
  read_u32-be_u32 (length extension.fields) (fields_bytes extension.fields) bound,
  read_fields-fields_bytes extension.fields a,
)

module _ (lib : ChainLib) where
  -- A transaction that serializes to fewer than 2^32 bytes, if at all.
  abbrev pub Fits : Option (List ℕ) → Type 0
  Fits none = Unit
  Fits (some bytes) = length bytes < 2 ^ 32

  ok_or-some :
      (o : Option (List ℕ)) {bytes : List ℕ} → ok_or o serialization ≡ ok bytes → o ≡ some bytes
  ok_or-some none h = absurd (ground arith)
  ok_or-some (some x) h = ap some (ok_injective h)

  read_txs-txs_bytes :
      (txs : List lib.Tx) (bytes : List ℕ)
      → All (λ tx. Fits (lib.sigma_serialize_bytes tx)) txs
      → txs_bytes lib txs ≡ ok bytes
      → read_txs lib (length txs) bytes ≡ ok txs
  unfolding read_txs txs_bytes
  read_txs-txs_bytes [] bytes a h = refl
  read_txs-txs_bytes (tx ∷ txs) bytes a h =
      let p = >>=-eq-ok (ok_or (lib.sigma_serialize_bytes tx) serialization) _ h in
      let q = >>=-eq-ok (txs_bytes lib txs) _ p.1.1 in
      let e = ok_or-some (lib.sigma_serialize_bytes tx) p.1.0 in
      rw (
        sym (ok_injective q.1.1),
        read_item-with_len p.0 q.0 (subst Fits e a.0),
        lib.parse-serialize tx p.0 e,
        read_txs-txs_bytes txs q.0 a.1 q.1.0,
      )

  -- Fewer than 2^32 transactions of fewer than 2^32 bytes each are read back as they were stored.
  pub deserialize_transactions-serialize_transactions :
      (txs : List lib.Tx) (bytes : List ℕ)
      → All (λ tx. Fits (lib.sigma_serialize_bytes tx)) txs
      → length txs < 2 ^ 32
      → serialize_transactions lib txs ≡ ok bytes
      → deserialize_transactions lib bytes ≡ ok txs
  unfolding deserialize_transactions serialize_transactions
  deserialize_transactions-serialize_transactions txs bytes a bound h =
      let p = >>=-eq-ok (txs_bytes lib txs) _ h in
      rw (
        sym (ok_injective p.1.1),
        u32_of_small (length txs) bound,
        read_u32-be_u32 (length txs) p.0 bound,
        read_txs-txs_bytes txs p.0 a p.1.0,
      )
