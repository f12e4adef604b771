-- ===== src/Utxo/Codec/RoundTrip.antt =====
-- What is stored is read back (crates/ergo-state/src/utxo.rs).
use ergo_rust_node.Prelude.{
  ℕ, suc, ◌%◌, ◌^◌, ◌<◌, ◌≡◌, refl, sym, subst, some, List, [], ◌∷◌, ◌++◌, le→ltb, length, All,
  length-append, append_assoc, Result, ok, err, >>=-eq-ok, ok_injective, u32_mod, arith,
}
use ergo_rust_node.Storage.Bytes.{
  be_u16, be_u32, from_be-be_u16, from_be-be_u32, take-append, drop-append, drop-append_past,
}
use ergo_rust_node.State.{StateError}
use ergo_rust_node.Utxo.{ErgoLib, BoxEntry, UndoData}
use ergo_rust_node.Utxo.Codec.{
  serialize, deserialize, with_len, spent_bytes, created_bytes, serialize_undo, read_u32, read_item,
  read_spent, read_created, deserialize_undo,
}

pub read_u32-be_u32 :
    (n : ℕ) (rest : List ℕ) → n < 2 ^ 32 → read_u32 (be_u32 n ++ rest) ≡ ok (n, rest)
unfolding read_u32
read_u32-be_u32 n rest h =
    rw (from_be-be_u32 n h, le→ltb (suc (suc (suc (suc (length rest))))) 4 (omega arith))

pub u32_of_small : (n : ℕ) → n < 2 ^ 32 → n % u32_mod ≡ n
u32_of_small n h = omega arith

pub read_item-with_len :
    (item rest : List ℕ)
    → length item < 2 ^ 32
    → read_item (with_len item ++ rest) ≡ ok (item, rest)
unfolding read_item with_len
read_item-with_len item rest h = rw (
  u32_of_small (length item) h,
  read_u32-be_u32 (length item) (item ++ rest) h,
  le→ltb (length (item ++ rest)) (length item) (omega (arith, length-append item rest)),
  take-append (length item) item rest refl,
  drop-append (length item) item rest refl,
)

read_created-created_bytes :
    (ids : List (List ℕ))
    → All (λ id. length id < 2 ^ 32) ids
    → read_created (length ids) (created_bytes ids) ≡ ok ids
unfolding read_created created_bytes
read_created-created_bytes [] a = refl
read_created-created_bytes (id ∷ ids) a =
    rw (read_item-with_len id (created_bytes ids) a.0, read_created-created_bytes ids a.1)

module _ (lib : ErgoLib) where
  -- An entry whose fields have their types' widths.
  pub record IsValid (e : BoxEntry lib) : Type 0 where
    pub tx_id_len : length e.tx_id ≡ 32
    pub height_bound : e.creation_height < 2 ^ 32
    pub index_bound : e.output_index < 2 ^ 16

  serialize_parts :
      (e : BoxEntry lib) (bytes : List ℕ)
      → serialize lib e ≡ ok bytes
      → (box_bytes : List ℕ) × ((lib.sigma_serialize_bytes e.ergo_box ≡ some box_bytes)
          × (bytes
              ≡ (be_u32 e.creation_height ++ (e.tx_id ++ (be_u16 e.output_index ++ box_bytes)))))
  unfolding serialize
  serialize_parts e bytes h = ground arith

  pub deserialize-serialize :
      (e : BoxEntry lib) (bytes : List ℕ)
      → IsValid e
      → serialize lib e ≡ ok bytes
      → deserialize lib bytes ≡ ok e
  unfolding deserialize
  deserialize-serialize e bytes v h =
      let p = serialize_parts e bytes h in
      let tail = be_u16 e.output_index ++ p.0 in
      let long =
        le→ltb (length (be_u32 e.creation_height ++ (e.tx_id ++ tail))) 38
          (omega (arith, v.tx_id_len, length-append e.tx_id tail)) in
      rw (
        p.1.1,
        drop-append 32 e.tx_id tail v.tx_id_len,
        drop-append_past 34 2 e.tx_id tail (omega (arith, v.tx_id_len)),
        take-append 32 e.tx_id tail v.tx_id_len,
        lib.parse-serialize e.ergo_box p.0 p.1.0,
        from_be-be_u16 e.output_index v.index_bound,
        from_be-be_u32 e.creation_height v.height_bound,
        long,
      )

  -- An entry that serializes to fewer than 2^32 bytes.
  abbrev pub Fits : Result StateError (List ℕ) → Type 0
  Fits (ok bytes) = length bytes < 2 ^ 32
  Fits (err e) = Unit

  abbrev pub IsStorable : BoxEntry lib → Type 0
  IsStorable e = IsValid e × Fits (serialize lib e)

  read_spent-spent_bytes :
      (entries : List (BoxEntry lib)) (bytes rest : List ℕ)
      → All IsStorable entries
      → spent_bytes lib entries ≡ ok bytes
      → read_spent lib (length entries) (bytes ++ rest) ≡ ok (entries, rest)
  unfolding read_spent spent_bytes
  read_spent-spent_bytes [] bytes rest a h = ground arith
  read_spent-spent_bytes (e ∷ es) bytes rest a h =
      let p = >>=-eq-ok (serialize lib e) _ h in
      let q = >>=-eq-ok (spent_bytes lib es) _ p.1.1 in
      rw (
        sym (ok_injective q.1.1),
        append_assoc (with_len p.0) q.0 rest,
        read_item-with_len p.0 (q.0 ++ rest) (subst Fits p.1.0 a.0.1),
        deserialize-serialize e p.0 a.0.0 p.1.0,
        read_spent-spent_bytes es q.0 rest a.1 q.1.0,
      )

  -- The bytes of undo data, field by field.
  undo_parts :
      (undo : UndoData lib) (bytes : List ℕ)
      → serialize_undo lib undo ≡ ok bytes
      → (boxes : List ℕ) × ((spent_bytes lib undo.spent_boxes ≡ ok boxes)
          × (bytes ≡ (
              be_u32 undo.height
              ++ (be_u32 (length undo.spent_boxes % u32_mod)
                  ++ (boxes
                      ++ (be_u32 (length undo.created_box_ids % u32_mod)
                          ++ created_bytes undo.created_box_ids))))))
  unfolding serialize_undo
  undo_parts undo bytes h =
      let p = >>=-eq-ok (spent_bytes lib undo.spent_boxes) _ h in
      (p.0, (p.1.0, sym (ok_injective p.1.1)))

  -- Undo data whose counts, heights and lengths have their types' widths.
  pub record IsSound (undo : UndoData lib) : Type 0 where
    pub height_bound : undo.height < 2 ^ 32
    pub spent_count : length undo.spent_boxes < 2 ^ 32
    pub created_count : length undo.created_box_ids < 2 ^ 32
    pub spent_storable : All IsStorable undo.spent_boxes
    pub ids_bound : All (λ id. length id < 2 ^ 32) undo.created_box_ids

  -- Undo data that is stored is read back as it was.
  pub deserialize_undo-serialize_undo :
      (undo : UndoData lib) (bytes : List ℕ)
      → IsSound undo
      → serialize_undo lib undo ≡ ok bytes
      → deserialize_undo lib bytes ≡ ok undo
  unfolding deserialize_undo
  deserialize_undo-serialize_undo undo bytes v h =
      let p = undo_parts undo bytes h in
      let n = length undo.created_box_ids in
      let tail = be_u32 (n % u32_mod) ++ created_bytes undo.created_box_ids in
      let tail' = be_u32 n ++ created_bytes undo.created_box_ids in
      let long =
        le→ltb
          (length
            (be_u32 undo.height ++ (be_u32 (length undo.spent_boxes % u32_mod) ++ (p.0 ++ tail))))
          12 (omega (arith, length-append p.0 tail)) in
      rw (
        p.1.1,
        long,
        u32_of_small (length undo.spent_boxes) v.spent_count,
        u32_of_small n v.created_count,
        read_u32-be_u32 (length undo.spent_boxes) (p.0 ++ tail') v.spent_count,
        read_spent-spent_bytes undo.spent_boxes p.0 tail' v.spent_storable p.1.0,
        read_u32-be_u32 n (created_bytes undo.created_box_ids) v.created_count,
        read_created-created_bytes undo.created_box_ids v.ids_bound,
        from_be-be_u32 undo.height v.height_bound,
      )
