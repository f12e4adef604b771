-- ===== src/Utxo/Rollback/Chain.antt =====
-- Rolling several blocks back: `rollback` of crates/ergo-state/src/utxo.rs undoes the blocks that
-- were applied one after the other.
use ergo_rust_node.Prelude.{
  ℕ, suc, ◌+◌, ◌-◌, ◌^◌, ◌<◌, ◌≡◌, refl, sym, ap, subst, ◌∙◌, false, List, [], ◌∷◌, leb, length,
  Result, ok, err, ◌>>=◌, >>=-eq-ok, ok_injective, ==_ne, arith,
}
use ergo_rust_node.Storage.{Storage, utxo, undo_data, metadata, new, put}
use ergo_rust_node.Storage.Bytes.{same_bytes, be_u32, be_u32_injective}
use ergo_rust_node.Storage.Overlay.{overlay-put, overlay-put_elsewhere}
use ergo_rust_node.State.{StateError}
use ergo_rust_node.Utxo.{ErgoLib, StateChange, UtxoState, utxo_height_key}
use ergo_rust_node.Utxo.Apply.{apply_change}
use ergo_rust_node.Utxo.Apply.Loops.{spend_all-elsewhere, create_all-elsewhere}
use ergo_rust_node.Utxo.Apply.View.{apply_change-Applied}
use ergo_rust_node.Utxo.Apply.Consistent.{IsConsistent, apply_change-IsConsistent}
use ergo_rust_node.Utxo.Rollback.{rollback_blocks, rollback}
use ergo_rust_node.Utxo.Rollback.OneBlock.{IsClean, rollback_one_block-apply_change}

module _ (s : Storage) (lib : ErgoLib) where
  -- The changes of successive blocks, at successive heights.
  unfoldable pub apply_all :
      UtxoState lib s → List (StateChange lib) → Result StateError (UtxoState lib s)
  apply_all u [] = ok u
  apply_all u (change ∷ changes) = do
    u ← apply_change s lib u change (u.height + 1)
    apply_all u changes

  -- Every block is clean in the state that it is applied to.
  unfoldable pub AreClean : UtxoState lib s → List (StateChange lib) → Type 0
  AreClean u [] = Unit
  AreClean u (change ∷ changes) =
      IsClean s lib u change (u.height + 1) × (elim (apply_change s lib u change (u.height + 1)) [
        | ok u' ↦ AreClean u' changes
        | err e ↦ Unit
      ])

  apply_change-height :
      (u : UtxoState lib s) (change : StateChange lib) (h : ℕ) {u' : UtxoState lib s}
      → apply_change s lib u change h ≡ ok u'
      → u'.height ≡ h
  apply_change-height u change h e = let p = apply_change-Applied s lib u change h e in rw p.result

  -- A block leaves the undo data of other heights alone.
  apply_change-undo :
      (u : UtxoState lib s) (change : StateChange lib) (h j : ℕ) {u' : UtxoState lib s}
      → apply_change s lib u change h ≡ ok u'
      → h < 2 ^ 32
      → j < h
      → s.get u'.storage undo_data (be_u32 j) ≡ s.get u.storage undo_data (be_u32 j)
  unfolding new
  apply_change-undo u change h j e bound less =
      let p = apply_change-Applied s lib u change h e in
      let other : same_bytes (be_u32 h) (be_u32 j) ≡ false =
        be_u32_injective h j bound (omega arith) ∙ ground arith in
      rw (
        p.result,
        s.get-write_batch,
        overlay-put_elsewhere _ metadata undo_data utxo_height_key (be_u32 j) _ (be_u32 h) refl,
        overlay-put _ undo_data undo_data (be_u32 h) (be_u32 j) _ p.undo_bytes,
        other,
        create_all-elsewhere s lib u.storage u.sync_mode change.created _ [] undo_data p.creates
            refl refl refl (be_u32 j) _,
        spend_all-elsewhere s lib u.storage u.sync_mode change.spent _ [] undo_data p.spends refl
            refl refl (be_u32 j) _,
      )

  -- Let `u` be a consistent state below whose height every undo entry is to stay. After clean blocks,
  -- the loop of `rollback` restores the boxes and those undo entries.
  rollback_blocks-apply_all :
      (u : UtxoState lib s) (changes : List (StateChange lib)) {u' : UtxoState lib s}
      → IsConsistent s lib u.storage
      → AreClean u changes
      → apply_all u changes ≡ ok u'
      → (db : s.Db) × ((rollback_blocks s lib u'.storage (u.height + 1) (length changes) ≡ ok db)
          × ((k : List ℕ) → s.get db utxo k ≡ s.get u.storage utxo k)
          × ((j : ℕ)
              → j < u.height + 1
              → s.get db undo_data (be_u32 j) ≡ s.get u.storage undo_data (be_u32 j)))
  unfolding apply_all AreClean rollback_blocks
  rollback_blocks-apply_all u [] c clean e =
      let same = sym (ok_injective e) in
      (u.storage, (ap (λ x. ok x.storage) same, λ k. refl, λ j less. refl))
  rollback_blocks-apply_all u (change ∷ changes) {u'} c clean e =
      let h = u.height + 1 in
      let p = >>=-eq-ok (apply_change s lib u change h) _ e in
      let c' = apply_change-IsConsistent s lib u change h c clean.0.storable p.1.0 in
      let bound = clean.0.height_bound in
      let t = apply_change-height u change h p.1.0 in
      let later : AreClean p.0 changes = subst AfterBlock p.1.0 clean.1 in
      let q = rollback_blocks-apply_all p.0 changes c' later p.1.1 in
      let r =
        rollback_one_block-apply_change s lib u change h q.0 c clean.0 p.1.0 q.1.1
          (q.1.2 h (omega (arith, t))) in
      (
        r.0,
        (
          rw (
            subst (λ n. rollback_blocks s lib u'.storage (n + 1) (length changes) ≡ ok q.0) t q.1.0,
            r.1.0,
          ),
          r.1.1,
          λ j less. rw (
            r.1.2 (be_u32 j),
            be_u32_injective h j bound (omega arith),
            ==_ne h j (λ q. omega arith),
            q.1.2 j (omega (arith, t)),
            apply_change-undo u change h j p.1.0 bound less,
          ),
        ),
      )
    where
      AfterBlock : Result StateError (UtxoState lib s) → Type 0
      AfterBlock r = elim r [ ok u' ↦ AreClean u' changes | err x ↦ Unit ]

  apply_all-height :
      (u : UtxoState lib s) (changes : List (StateChange lib)) {u' : UtxoState lib s}
      → apply_all u changes ≡ ok u'
      → u'.height ≡ u.height + length changes
  unfolding apply_all
  apply_all-height u [] e = rw (sym (ok_injective e)) (omega arith)
  apply_all-height u (change ∷ changes) e =
      let p = >>=-eq-ok (apply_change s lib u change (u.height + 1)) _ e in
      omega (
        arith,
        apply_all-height p.0 changes p.1.1,
        apply_change-height u change (u.height + 1) p.1.0,
      )

  -- Let one or more clean blocks be applied to a consistent state, one after the other, at the heights
  -- that follow its own. Rolling back to the first height succeeds: the height is the old one, and
  -- every id holds the box that it held.
  pub rollback-apply_all :
      (u : UtxoState lib s) (change : StateChange lib) (changes : List (StateChange lib))
      {u' : UtxoState lib s}
      → IsConsistent s lib u.storage
      → AreClean u (change ∷ changes)
      → apply_all u (change ∷ changes) ≡ ok u'
      → (u'' : UtxoState lib s) × ((rollback s lib u' u.height ≡ ok u'')
          × (u''.height ≡ u.height)
          × ((k : List ℕ) → s.get u''.storage utxo k ≡ s.get u.storage utxo k))
  unfolding rollback new
  rollback-apply_all u change changes {u'} c clean e =
      let p = rollback_blocks-apply_all u (change ∷ changes) c clean e in
      let t : u'.height - u.height ≡ suc (length changes) =
        omega (arith, apply_all-height u (change ∷ changes) e) in
      let higher : leb u'.height u.height ≡ false =
        ground (arith, apply_all-height u (change ∷ changes) e) in
      (
        record u' {
          storage = s.write_batch p.0 (put new metadata utxo_height_key (be_u32 u.height));
          height = u.height;
        },
        (
          rw (higher, t, p.1.0),
          refl,
          λ k. rw (
            s.get-write_batch,
            overlay-put_elsewhere new metadata utxo utxo_height_key k _ (be_u32 u.height) refl,
            p.1.1 k,
          ),
        ),
      )
