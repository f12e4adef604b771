-- ===== src/Utxo/Apply/Loops.antt =====
-- The loops of `apply_change` (crates/ergo-state/src/utxo.rs) over the spent and created boxes: what
-- their writes leave an id with, and what they record for undo.
use ergo_rust_node.Prelude.{
  ℕ, ◌≡◌, refl, sym, ap, ◌∙◌, Bool, true, false, Option, none, some, List, [], ◌∷◌, ◌++◌, ◌==◌,
  if◌then◌else◌, map, Result, ok, err, >>=-eq-ok, ok_injective, ok_or, append_nil, append_assoc,
  arith,
}
use ergo_rust_node.Storage.{
  Storage, WriteBatch, ColumnFamily, utxo, ergo_tree_index, token_index, name, overlay, put, delete,
}
use ergo_rust_node.Storage.Bytes.{same_bytes}
use ergo_rust_node.Storage.Overlay.{
  overlay-put, overlay-delete, overlay-put_elsewhere, overlay-delete_elsewhere,
}
use ergo_rust_node.State.{StateError, box_not_found}
use ergo_rust_node.Utxo.{ErgoLib, BoxEntry, StateChange, box_id}
use ergo_rust_node.Utxo.Codec.{serialize}
use ergo_rust_node.Utxo.Index.{get_box, index_box, unindex_box, has_id}
use ergo_rust_node.Utxo.Index.Laws.{index_box-elsewhere, unindex_box-elsewhere}
use ergo_rust_node.Utxo.Apply.{unless_syncing, spend_all, create_all}

-- `Result::ok`
abbrev pub ok_value : Result StateError (List ℕ) → Option (List ℕ)
ok_value (ok bytes) = some bytes
ok_value (err e) = none

-- What an id holds after boxes were taken out.
abbrev pub without : List (List ℕ) → List ℕ → Option (List ℕ) → Option (List ℕ)
without ids k old = if has_id ids k then none else old

module _ (lib : ErgoLib) where
  abbrev pub stored : BoxEntry lib → Option (List ℕ)
  stored e = ok_value (serialize lib e)

  -- What an id holds after boxes were added one by one.
  unfoldable pub with_created : List (BoxEntry lib) → List ℕ → Option (List ℕ) → Option (List ℕ)
  with_created [] k old = old
  with_created (e ∷ es) k old =
      with_created es k (if same_bytes (box_id lib e) k then stored e else old)

  -- The abstract change of the set: spent boxes out, then created boxes in.
  unfoldable pub changed : StateChange lib → List ℕ → Option (List ℕ) → Option (List ℕ)
  changed change k old = with_created change.created k (without change.spent k old)

module _ (s : Storage) (lib : ErgoLib) where
  -- The entries are the ones that the storage has for the ids.
  abbrev pub Saved : s.Db → List (List ℕ) → List (BoxEntry lib) → Type 0
  Saved db [] [] = Unit
  Saved db [] (e ∷ es) = ⊥
  Saved db (id ∷ ids) [] = ⊥
  Saved db (id ∷ ids) (e ∷ es) = (get_box s lib db id ≡ ok (some e)) × Saved db ids es

  -- In sync mode or not, the index entries of a box do not show in another column.
  pub unindexed-elsewhere :
      (db : s.Db) (skip : Bool) (b : lib.ErgoBox) (id k : List ℕ) (batch : WriteBatch)
      (c : ColumnFamily) (old : Option (List ℕ))
      → (name token_index == name c) ≡ false
      → (name ergo_tree_index == name c) ≡ false
      → overlay
          (unless_syncing s lib skip (unindex_box s lib db b id batch) batch).operations
          c
          k
          old
        ≡ overlay batch.operations c k old
  unfolding unless_syncing
  unindexed-elsewhere db true b id k batch c old h h' = refl
  unindexed-elsewhere db false b id k batch c old h h' =
      unindex_box-elsewhere s db c k old lib h h' b id batch

  indexed-elsewhere :
      (db : s.Db) (skip : Bool) (b : lib.ErgoBox) (id k : List ℕ) (batch : WriteBatch)
      (c : ColumnFamily) (old : Option (List ℕ))
      → (name token_index == name c) ≡ false
      → (name ergo_tree_index == name c) ≡ false
      → overlay (unless_syncing s lib skip (index_box s lib db b id batch) batch).operations c k old
        ≡ overlay batch.operations c k old
  unfolding unless_syncing
  indexed-elsewhere db true b id k batch c old h h' = refl
  indexed-elsewhere db false b id k batch c old h h' =
      index_box-elsewhere s db c k old lib h h' b id batch

  -- The parts of a successful round of the loop over the spent boxes.
  spend_all-cons :
      (db : s.Db) (skip : Bool) (id : List ℕ) (ids : List (List ℕ)) (batch : WriteBatch)
      (saved : List (BoxEntry lib)) {r : WriteBatch × List (BoxEntry lib)}
      → spend_all s lib db skip (id ∷ ids) batch saved ≡ ok r
      → (e : BoxEntry lib) × ((get_box s lib db id ≡ ok (some e))
          × (spend_all s lib db skip ids
                (delete
                  (unless_syncing s lib skip (unindex_box s lib db e.ergo_box id batch) batch)
                  utxo
                  id)
                (saved ++ (e ∷ []))
              ≡ ok r))
  unfolding spend_all
  spend_all-cons db skip id ids batch saved h =
      let p = >>=-eq-ok (get_box s lib db id) _ h in
      let q = >>=-eq-ok (ok_or p.0 (box_not_found id)) _ p.1.1 in
      (q.0, (p.1.0 ∙ ap ok (found p.0 q.0 q.1.0), q.1.1))
    where
      found :
          (o : Option (BoxEntry lib)) (e : BoxEntry lib)
          → ok_or o (box_not_found id) ≡ ok e
          → o ≡ some e
      found none e h = absurd (ground arith)
      found (some x) e h = ap some (ok_injective h)

  -- The loop over the spent boxes takes their ids out, saves their entries and writes no other
  -- column than the indexes.
  pub spend_all_lem :
      (db : s.Db) (skip : Bool) (ids : List (List ℕ)) (batch : WriteBatch)
      (saved : List (BoxEntry lib)) {r : WriteBatch × List (BoxEntry lib)}
      → spend_all s lib db skip ids batch saved ≡ ok r
      → (k : List ℕ) (old : Option (List ℕ))
      → overlay r.0.operations utxo k old ≡ without ids k (overlay batch.operations utxo k old)
  unfolding has_id spend_all
  spend_all_lem db skip [] batch saved h k old =
      ap (λ r. overlay r.0.operations utxo k old) (sym (ok_injective h))
  spend_all_lem db skip (id ∷ ids) batch saved h k old =
      let p = spend_all-cons db skip id ids batch saved h in
      rw
        (
          spend_all_lem db skip ids _ _ p.1.1 k old,
          overlay-delete _ utxo utxo id k old,
          unindexed-elsewhere db skip p.0.ergo_box id k batch utxo old refl refl,
        )
        (ground arith)

  pub spend_all-elsewhere :
      (db : s.Db) (skip : Bool) (ids : List (List ℕ)) (batch : WriteBatch)
      (saved : List (BoxEntry lib)) {r : WriteBatch × List (BoxEntry lib)} (c : ColumnFamily)
      → spend_all s lib db skip ids batch saved ≡ ok r
      → (name token_index == name c) ≡ false
      → (name ergo_tree_index == name c) ≡ false
      → (name utxo == name c) ≡ false
      → (k : List ℕ) (old : Option (List ℕ))
      → overlay r.0.operations c k old ≡ overlay batch.operations c k old
  unfolding spend_all
  spend_all-elsewhere db skip [] batch saved c h t e u k old =
      ap (λ r. overlay r.0.operations c k old) (sym (ok_injective h))
  spend_all-elsewhere db skip (id ∷ ids) batch saved c h t e u k old =
      let p = spend_all-cons db skip id ids batch saved h in
      rw (
        spend_all-elsewhere db skip ids _ _ c p.1.1 t e u k old,
        overlay-delete_elsewhere _ utxo c id k old u,
        unindexed-elsewhere db skip p.0.ergo_box id k batch c old t e,
      )

  pub spend_all-Saved :
      (db : s.Db) (skip : Bool) (ids : List (List ℕ)) (batch : WriteBatch)
      (saved : List (BoxEntry lib)) {r : WriteBatch × List (BoxEntry lib)}
      → spend_all s lib db skip ids batch saved ≡ ok r
      → (es : List (BoxEntry lib)) × ((r.1 ≡ (saved ++ es)) × Saved db ids es)
  unfolding spend_all
  spend_all-Saved db skip [] batch saved h =
      ([], (ap (λ r. r.1) (sym (ok_injective h)) ∙ sym (append_nil saved), tt))
  spend_all-Saved db skip (id ∷ ids) batch saved h =
      let p = spend_all-cons db skip id ids batch saved h in
      let q = spend_all-Saved db skip ids _ _ p.1.1 in
      (p.0 ∷ q.0, (q.1.0 ∙ append_assoc saved (p.0 ∷ []) q.0, (p.1.0, q.1.1)))

  -- The parts of a successful round of the loop over the created boxes.
  create_all-cons :
      (db : s.Db) (skip : Bool) (e : BoxEntry lib) (es : List (BoxEntry lib)) (batch : WriteBatch)
      (ids : List (List ℕ)) {r : WriteBatch × List (List ℕ)}
      → create_all s lib db skip (e ∷ es) batch ids ≡ ok r
      → (bytes : List ℕ) × ((serialize lib e ≡ ok bytes)
          × (create_all s lib db skip es
                (put
                  (unless_syncing s lib skip
                    (index_box s lib db e.ergo_box (box_id lib e) batch)
                    batch)
                  utxo
                  (box_id lib e)
                  bytes)
                (ids ++ (box_id lib e ∷ []))
              ≡ ok r))
  unfolding create_all
  create_all-cons db skip e es batch ids h = >>=-eq-ok (serialize lib e) _ h

  pub create_all_lem :
      (db : s.Db) (skip : Bool) (es : List (BoxEntry lib)) (batch : WriteBatch)
      (ids : List (List ℕ)) {r : WriteBatch × List (List ℕ)}
      → create_all s lib db skip es batch ids ≡ ok r
      → (k : List ℕ) (old : Option (List ℕ))
      → overlay r.0.operations utxo k old
        ≡ with_created lib es k (overlay batch.operations utxo k old)
  unfolding with_created create_all
  create_all_lem db skip [] batch ids h k old =
      ap (λ r. overlay r.0.operations utxo k old) (sym (ok_injective h))
  create_all_lem db skip (e ∷ es) batch ids h k old =
      let p = create_all-cons db skip e es batch ids h in
      rw
        (
          create_all_lem db skip es _ _ p.1.1 k old,
          overlay-put _ utxo utxo (box_id lib e) k old p.0,
          indexed-elsewhere db skip e.ergo_box (box_id lib e) k batch utxo old refl refl,
        )
        (ap
          (λ o.
            with_created lib es k
              (if same_bytes (box_id lib e) k then o else overlay batch.operations utxo k old))
          (sym (ap ok_value p.1.0)))

  pub create_all-elsewhere :
      (db : s.Db) (skip : Bool) (es : List (BoxEntry lib)) (batch : WriteBatch)
      (ids : List (List ℕ)) {r : WriteBatch × List (List ℕ)} (c : ColumnFamily)
      → create_all s lib db skip es batch ids ≡ ok r
      → (name token_index == name c) ≡ false
      → (name ergo_tree_index == name c) ≡ false
      → (name utxo == name c) ≡ false
      → (k : List ℕ) (old : Option (List ℕ))
      → overlay r.0.operations c k old ≡ overlay batch.operations c k old
  unfolding create_all
  create_all-elsewhere db skip [] batch ids c h t i u k old =
      ap (λ r. overlay r.0.operations c k old) (sym (ok_injective h))
  create_all-elsewhere db skip (e ∷ es) batch ids c h t i u k old =
      let p = create_all-cons db skip e es batch ids h in
      rw (
        create_all-elsewhere db skip es _ _ c p.1.1 t i u k old,
        overlay-put_elsewhere _ utxo c (box_id lib e) k old p.0 u,
        indexed-elsewhere db skip e.ergo_box (box_id lib e) k batch c old t i,
      )

  -- The ids that are recorded are the created boxes' in their order.
  pub create_all-ids :
      (db : s.Db) (skip : Bool) (es : List (BoxEntry lib)) (batch : WriteBatch)
      (ids : List (List ℕ)) {r : WriteBatch × List (List ℕ)}
      → create_all s lib db skip es batch ids ≡ ok r
      → r.1 ≡ (ids ++ map (box_id lib) es)
  unfolding create_all
  create_all-ids db skip [] batch ids h =
      ap (λ r. r.1) (sym (ok_injective h)) ∙ sym (append_nil ids)
  create_all-ids db skip (e ∷ es) batch ids h =
      let p = create_all-cons db skip e es batch ids h in
      create_all-ids db skip es _ _ p.1.1
      ∙ append_assoc ids (box_id lib e ∷ []) (map (box_id lib) es)
