-- ===== src/Utxo/Rollback/Loops.antt =====
-- The loops of `rollback_one_block` (crates/ergo-state/src/utxo.rs), and that together they undo the
-- change of the set.
use ergo_rust_node.Prelude.{
  ℕ, ◌^◌, ◌<◌, ◌≡◌, refl, sym, ap, ◌∙◌, inl, inr, true, false, Bool-cases, Option, none, some, List,
  [], ◌∷◌, ◌==◌, if◌then◌else◌, length, map, All, ok, arith,
}
use ergo_rust_node.Storage.{
  Storage, WriteBatch, ColumnFamily, utxo, undo_data, name, overlay, put, delete, token_index,
  ergo_tree_index,
}
use ergo_rust_node.Storage.Bytes.{same_bytes, same_bytes_eq}
use ergo_rust_node.Storage.Overlay.{
  overlay-put, overlay-delete, overlay-put_elsewhere, overlay-delete_elsewhere,
}
use ergo_rust_node.Utxo.{ErgoLib, BoxEntry, StateChange, box_id}
use ergo_rust_node.Utxo.Codec.{serialize}
use ergo_rust_node.Utxo.Codec.RoundTrip.{IsStorable}
use ergo_rust_node.Utxo.Index.{has_id, index_box}
use ergo_rust_node.Utxo.Index.Laws.{index_box-elsewhere, unindex_box-elsewhere}
use ergo_rust_node.Utxo.Apply.Loops.{ok_value, with_created, without, changed, Saved}
use ergo_rust_node.Utxo.Apply.Consistent.{IsConsistent, get_box-total, get_box-some}
use ergo_rust_node.Utxo.Rollback.{unindex_present, remove_created, restore_spent}

module _ (s : Storage) (lib : ErgoLib) where
  unindex_present-elsewhere :
      (db : s.Db) (o : Option (BoxEntry lib)) (id k : List ℕ) (batch : WriteBatch)
      (c : ColumnFamily) (old : Option (List ℕ))
      → (name token_index == name c) ≡ false
      → (name ergo_tree_index == name c) ≡ false
      → overlay (unindex_present s lib db o id batch).operations c k old
        ≡ overlay batch.operations c k old
  unfolding unindex_present
  unindex_present-elsewhere db none id k batch c old h h' = refl
  unindex_present-elsewhere db (some e) id k batch c old h h' =
      unindex_box-elsewhere s db c k old lib h h' e.ergo_box id batch

  -- Removing created boxes takes their ids out of the set, and touches no undo data.
  pub remove_created_lem :
      (db : s.Db) (ids : List (List ℕ)) (batch : WriteBatch)
      → IsConsistent s lib db
      → (b : WriteBatch) × ((remove_created s lib db ids batch ≡ ok b)
          × ((k : List ℕ) (old : Option (List ℕ))
              → overlay b.operations utxo k old
                ≡ without ids k (overlay batch.operations utxo k old))
          × ((k : List ℕ) (old : Option (List ℕ))
              → overlay b.operations undo_data k old ≡ overlay batch.operations undo_data k old))
  unfolding remove_created has_id
  remove_created_lem db [] batch c = (batch, (refl, λ k old. refl, λ k old. refl))
  remove_created_lem db (id ∷ ids) batch c =
      let f = get_box-total s lib db id c in
      let b = delete (unindex_present s lib db f.0 id batch) utxo id in
      let p = remove_created_lem db ids b c in
      (
        p.0,
        (
          rw (f.1, p.1.0),
          λ k old.
              rw
                (
                  p.1.1 k old,
                  overlay-delete _ utxo utxo id k old,
                  unindex_present-elsewhere db f.0 id k batch utxo old refl refl,
                )
                (ground arith),
          λ k old. rw (
            p.1.2 k old,
            overlay-delete_elsewhere _ utxo undo_data id k old refl,
            unindex_present-elsewhere db f.0 id k batch undo_data old refl refl,
          ),
        ),
      )

  abbrev pub Serializable : BoxEntry lib → Type 0
  Serializable e = (bytes : List ℕ) × (serialize lib e ≡ ok bytes)

  -- Restoring boxes puts them back under their ids, and touches no undo data.
  pub restore_spent_lem :
      (db : s.Db) (es : List (BoxEntry lib)) (batch : WriteBatch)
      → All Serializable es
      → (b : WriteBatch) × ((restore_spent s lib db es batch ≡ ok b)
          × ((k : List ℕ) (old : Option (List ℕ))
              → overlay b.operations utxo k old
                ≡ with_created lib es k (overlay batch.operations utxo k old))
          × ((k : List ℕ) (old : Option (List ℕ))
              → overlay b.operations undo_data k old ≡ overlay batch.operations undo_data k old))
  unfolding restore_spent with_created
  restore_spent_lem db [] batch a = (batch, (refl, λ k old. refl, λ k old. refl))
  restore_spent_lem db (e ∷ es) batch a =
      let id = box_id lib e in
      let b = put (index_box s lib db e.ergo_box id batch) utxo id a.0.0 in
      let p = restore_spent_lem db es b a.1 in
      (
        p.0,
        (
          rw (a.0.1, p.1.0),
          λ k old. rw (
            p.1.1 k old,
            overlay-put _ utxo utxo id k old a.0.0,
            index_box-elsewhere s db utxo k old lib refl refl e.ergo_box id batch,
            ap ok_value a.0.1,
          ),
          λ k old. rw (
            p.1.2 k old,
            overlay-put_elsewhere _ utxo undo_data id k old a.0.0 refl,
            index_box-elsewhere s db undo_data k old lib refl refl e.ergo_box id batch,
          ),
        ),
      )

  pub Saved-Serializable :
      (db : s.Db) (ids : List (List ℕ)) (es : List (BoxEntry lib))
      → IsConsistent s lib db
      → Saved s lib db ids es
      → All Serializable es × All (IsStorable lib) es
  Saved-Serializable db [] [] c v = (tt, tt)
  Saved-Serializable db [] (e ∷ es) c v = absurd v
  Saved-Serializable db (id ∷ ids) [] c v = absurd v
  Saved-Serializable db (id ∷ ids) (e ∷ es) c v =
      let p = get_box-some s lib db id e c v.0 in
      let q = Saved-Serializable db ids es c v.1 in (((p.0, p.1.1), q.0), (p.1.0, q.1))

  -- With its saved entries back, each spent id holds what it held.
  with_created-Saved :
      (db : s.Db) (ids : List (List ℕ)) (es : List (BoxEntry lib)) (k : List ℕ)
      (old : Option (List ℕ))
      → IsConsistent s lib db
      → Saved s lib db ids es
      → with_created lib es k old ≡ (if has_id ids k then s.get db utxo k else old)
  unfolding with_created has_id
  with_created-Saved db [] [] k old c v = refl
  with_created-Saved db [] (e ∷ es) k old c v = absurd v
  with_created-Saved db (id ∷ ids) [] k old c v = absurd v
  with_created-Saved db (id ∷ ids) (e ∷ es) k old c v =
      let p = get_box-some s lib db id e c v.0 in
      elim (Bool-cases (same_bytes id k)) [
        | inl q ↦
            rw
              (
                p.1.3,
                q,
                with_created-Saved db ids es k _ c v.1,
                ap ok_value p.1.1,
                sym (ap (λ i. s.get db utxo i) (same_bytes_eq id k q)),
                p.1.2,
              )
              (ground arith)
        | inr q ↦ rw (p.1.3, q, with_created-Saved db ids es k _ c v.1)
      ]

  -- Boxes of other ids do not show.
  with_created-absent :
      (es : List (BoxEntry lib)) (k : List ℕ) (old : Option (List ℕ))
      → has_id (map (box_id lib) es) k ≡ false
      → with_created lib es k old ≡ old
  unfolding with_created has_id
  with_created-absent [] k old h = refl
  with_created-absent (e ∷ es) k old h = elim (Bool-cases (same_bytes (box_id lib e) k)) [
    | inl q ↦ absurd (ground arith)
    | inr q ↦ rw (q, with_created-absent es k old (ground arith))
  ]

  -- No created box has an id that the storage holds.
  abbrev pub AreFresh : s.Db → List (BoxEntry lib) → Type 0
  AreFresh db es = All (λ e. s.get db utxo (box_id lib e) ≡ none) es

  fresh-none :
      (db : s.Db) (es : List (BoxEntry lib)) (k : List ℕ)
      → AreFresh db es
      → has_id (map (box_id lib) es) k ≡ true
      → s.get db utxo k ≡ none
  unfolding has_id
  fresh-none db [] k a h = absurd (ground arith)
  fresh-none db (e ∷ es) k a h = elim (Bool-cases (same_bytes (box_id lib e) k)) [
    | inl q ↦ ap (λ i. s.get db utxo i) (sym (same_bytes_eq (box_id lib e) k q)) ∙ a.0
    | inr q ↦ fresh-none db es k a.1 (ground arith)
  ]

  -- Taking the created boxes out and putting the spent ones back undoes the change of the set.
  pub undone :
      (db : s.Db) (change : StateChange lib) (es : List (BoxEntry lib)) (k : List ℕ)
      → IsConsistent s lib db
      → Saved s lib db change.spent es
      → AreFresh db change.created
      → with_created lib es k
          (without (map (box_id lib) change.created) k (changed lib change k (s.get db utxo k)))
        ≡ s.get db utxo k
  unfolding changed
  undone db change es k c v f = elim (Bool-cases (has_id change.spent k)) [
    | inl q ↦ rw (with_created-Saved db change.spent es k _ c v, q)
    | inr q ↦ elim (Bool-cases (has_id (map (box_id lib) change.created) k)) [
      | inl r ↦
          rw (
            with_created-Saved db change.spent es k _ c v,
            q,
            r,
            fresh-none db change.created k f r,
          )
      | inr r ↦ rw (
        with_created-Saved db change.spent es k _ c v,
        q,
        r,
        with_created-absent change.created k (s.get db utxo k) r,
      )
    ]
  ]

  pub Saved-length :
      (db : s.Db) (ids : List (List ℕ)) (es : List (BoxEntry lib))
      → Saved s lib db ids es
      → length es ≡ length ids
  Saved-length db [] [] v = refl
  Saved-length db [] (e ∷ es) v = absurd v
  Saved-length db (id ∷ ids) [] v = absurd v
  Saved-length db (id ∷ ids) (e ∷ es) v = omega (arith, Saved-length db ids es v.1)

  pub created-ids :
      (es : List (BoxEntry lib))
      → All (λ id. length id < 2 ^ 32) (map (box_id lib) es)
        × (length (map (box_id lib) es) ≡ length es)
  unfolding box_id
  created-ids [] = (tt, refl)
  created-ids (e ∷ es) =
      let p = created-ids es in
      ((omega (arith, lib.length-id_of e.ergo_box), p.0), omega (arith, p.1))
