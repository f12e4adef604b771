-- ===== src/Utxo/Index/Entries.antt =====
-- What an index lists after its batch is written (crates/ergo-state/src/utxo.rs).
use ergo_rust_node.Prelude.{
  ℕ, zero, suc, ◌+◌, ◌<◌, ◌^◌, ◌≡◌, refl, inl, inr, Bool, false, not, Bool-cases, Option, none,
  some, List, [], ◌∷◌, ◌++◌, ltb, ==_refl, length, take, drop, filter, length-filter-le,
  length-take, length-append, All, arith,
}
use ergo_rust_node.Storage.{Storage, WriteBatch, ColumnFamily, name, put}
use ergo_rust_node.Storage.Bytes.{same_bytes, same_bytes_refl, from_be}
use ergo_rust_node.Storage.Overlay.{overlay-put, overlay-delete}
use ergo_rust_node.Utxo.Index.{
  has_id, read_ids, deserialize_box_id_list, get_index_entries, add_to_index, put_or_delete,
  remove_from_index, serialize_box_id_list,
}
use ergo_rust_node.Utxo.Index.Laws.{deserialize_box_id_list-serialize_box_id_list}

abbrev pub Are32 : List (List ℕ) → Type 0
Are32 ids = All (λ id. length id ≡ 32) ids

take-full : (n : ℕ) (xs : List ℕ) → ltb (length xs) n ≡ false → length (take n xs) ≡ n
take-full n xs h = ground (arith, length-take n xs)

read_ids-Are32 : (n : ℕ) (rest : List ℕ) → Are32 (read_ids n rest)
unfolding read_ids
read_ids-Are32 zero rest = tt
read_ids-Are32 (suc n) rest = elim (Bool-cases (ltb (length rest) 32)) [
  | inl e ↦ rw e tt
  | inr e ↦ rw e (take-full 32 rest e, read_ids-Are32 n (drop 32 rest))
]

filter-Are32 : (p : List ℕ → Bool) (ids : List (List ℕ)) → Are32 ids → Are32 (filter p ids)
filter-Are32 p [] a = tt
filter-Are32 p (id ∷ ids) a = elim (Bool-cases (p id)) [
  | inl e ↦ rw e (a.0, filter-Are32 p ids a.1)
  | inr e ↦ rw e (filter-Are32 p ids a.1)
]

append-Are32 :
    (ids : List (List ℕ)) (id : List ℕ) → Are32 ids → length id ≡ 32 → Are32 (ids ++ (id ∷ []))
append-Are32 [] id a h = (h, tt)
append-Are32 (x ∷ ids) id a h = (a.0, append-Are32 ids id a.1 h)

module _ (s : Storage) where
  entries-Are32 :
      (db : s.Db) (cf : ColumnFamily) (key : List ℕ) → Are32 (get_index_entries s db cf key)
  unfolding get_index_entries deserialize_box_id_list
  entries-Are32 db cf key = by_value (s.get db cf key)
    where
      by_value :
          (o : Option (List ℕ))
          → Are32 (elim o [ none ↦ [] | some bytes ↦ deserialize_box_id_list bytes ])
      by_value none = tt
      by_value (some bytes) = elim (Bool-cases (ltb (length bytes) 4)) [
        | inl e ↦ rw e tt
        | inr e ↦ rw e (read_ids-Are32 (from_be 0 (take 4 bytes)) (drop 4 bytes))
      ]

  -- What is written under a key is what is listed there.
  put_or_delete-entries :
      (db : s.Db) (batch : WriteBatch) (cf : ColumnFamily) (key : List ℕ) (ids : List (List ℕ))
      → Are32 ids
      → length ids < 2 ^ 32
      → get_index_entries s (s.write_batch db (put_or_delete batch cf key ids)) cf key ≡ ids
  unfolding get_index_entries put_or_delete
  put_or_delete-entries db batch cf key [] a h = rw (
    get_index_entries,
    s.get-write_batch,
    overlay-delete batch cf cf key key _,
    ==_refl (name cf),
    same_bytes_refl key,
  )
  put_or_delete-entries db batch cf key (id ∷ ids) a h = rw (
    get_index_entries,
    s.get-write_batch,
    overlay-put batch cf cf key key _ _,
    ==_refl (name cf),
    same_bytes_refl key,
    deserialize_box_id_list-serialize_box_id_list (id ∷ ids) a h,
  )

  -- After a removal is written, the key lists the ids that the storage listed for it, without the
  -- removed one: whatever the batch held for the key before is lost.
  pub get_index_entries-remove_from_index :
      (db : s.Db) (batch : WriteBatch) (cf : ColumnFamily) (key id : List ℕ)
      → length (get_index_entries s db cf key) < 2 ^ 32
      → get_index_entries s (s.write_batch db (remove_from_index s db batch cf key id)) cf key
        ≡ filter (λ i. not (same_bytes i id)) (get_index_entries s db cf key)
  unfolding remove_from_index
  get_index_entries-remove_from_index db batch cf key id h =
      let ids = get_index_entries s db cf key in
      let p : List ℕ → Bool = λ i. not (same_bytes i id) in
      put_or_delete-entries db batch cf key (filter p ids)
        (filter-Are32 p ids (entries-Are32 db cf key)) (omega (arith, length-filter-le p ids))

  put_or_delete-append :
      (batch : WriteBatch) (cf : ColumnFamily) (key : List ℕ) (ids : List (List ℕ)) (id : List ℕ)
      → put batch cf key (serialize_box_id_list (ids ++ (id ∷ [])))
        ≡ put_or_delete batch cf key (ids ++ (id ∷ []))
  unfolding put_or_delete
  put_or_delete-append batch cf key [] id = refl
  put_or_delete-append batch cf key (x ∷ ids) id = refl

  -- After the addition of an id of 32 bytes that the storage does not list under the key is written,
  -- the key lists the ids that the storage listed for it and then the new one, when these are few
  -- enough for the count: whatever the batch held for the key before is lost.
  pub get_index_entries-add_to_index :
      (db : s.Db) (batch : WriteBatch) (cf : ColumnFamily) (key id : List ℕ)
      → length id ≡ 32
      → length (get_index_entries s db cf key) + 1 < 2 ^ 32
      → has_id (get_index_entries s db cf key) id ≡ false
      → get_index_entries s (s.write_batch db (add_to_index s db batch cf key id)) cf key
        ≡ (get_index_entries s db cf key ++ (id ∷ []))
  unfolding add_to_index
  get_index_entries-add_to_index db batch cf key id l h e =
      let ids = get_index_entries s db cf key in
      rw (
        e,
        put_or_delete-append batch cf key ids id,
        put_or_delete-entries db batch cf key (ids ++ (id ∷ []))
            (append-Are32 ids id (entries-Are32 db cf key) l)
            (omega (arith, length-append ids (id ∷ []))),
      )
