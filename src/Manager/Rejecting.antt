-- ===== src/Manager/Rejecting.antt =====
-- Blocks that `apply_block` stores and then does not accept (crates/ergo-state/src/manager.rs).
use ergo_rust_node.Prelude.{
  ℕ, ◌+◌, ◌%◌, ◌≡◌, refl, ap, subst, ◌∙◌, true, false, ◌||◌, List, [], ◌∷◌, ◌==◌, ok, err, u32_mod,
  arith,
}
use ergo_rust_node.Storage.{Storage, utxo}
use ergo_rust_node.Storage.Bytes.{same_bytes}
use ergo_rust_node.State.{StateError, state_root_mismatch}
use ergo_rust_node.Utxo.{ErgoLib, BoxEntry, StateChange, UtxoState, box_id}
use ergo_rust_node.Utxo.Apply.{apply_change}
use ergo_rust_node.Utxo.Apply.Consistent.{IsConsistent, IsConsistent-agree}
use ergo_rust_node.Utxo.Rollback.OneBlock.{IsClean}
use ergo_rust_node.Utxo.Rollback.Loops.{AreFresh}
use ergo_rust_node.Utxo.Rollback.Chain.{apply_all, AreClean, rollback-apply_all}
use ergo_rust_node.History.{ChainLib, ChainSelection}
use ergo_rust_node.History.Chain.{FullBlock, append_full_block}
use ergo_rust_node.History.Chain.Columns.{append_full_block-other}
use ergo_rust_node.Manager.{
  StateManager, enforce, is_unset, expected_hash, with_history, with_utxo, undo_change,
  verify_state_root, apply_stored, apply_block,
}
use ergo_rust_node.Manager.Applying.{utxo-IsOther, IsShared}

module _ (s : Storage) (chain : ChainLib) (lib : ErgoLib) where
  -- The state after the block is stored and before its change is applied.
  abbrev pub stored : StateManager s chain lib → FullBlock chain → StateManager s chain lib
  stored m block = with_history s chain lib m (append_full_block s chain m.history block).0

  -- When the block that comes next can be stored but its change cannot be applied, `apply_block` returns the
  -- error of the change and the set is as it was, but the history keeps the block, also as its best
  -- full block if it was that.
  pub apply_block-unapplied :
      (m : StateManager s chain lib) (block : FullBlock chain) (change : StateChange lib)
      {selection : ChainSelection} {e : StateError}
      → block.header.height ≡ (m.utxo.height + 1) % u32_mod
      → (append_full_block s chain m.history block).1 ≡ ok selection
      → apply_change s lib (stored m block).utxo change block.header.height ≡ err e
      → apply_block s chain lib m block change ≡ (stored m block, err e)
  unfolding apply_block apply_stored
  apply_block-unapplied m block change next appended failed =
      let same : (block.header.height == (m.utxo.height + 1) % u32_mod) ≡ true = ground arith in
      rw (apply_block, same, appended, apply_stored, failed)

  AreFresh-agree :
      (db db' : s.Db) (es : List (BoxEntry lib))
      → ((k : List ℕ) → s.get db' utxo k ≡ s.get db utxo k)
      → AreFresh s lib db es
      → AreFresh s lib db' es
  AreFresh-agree db db' [] same fresh = tt
  AreFresh-agree db db' (e ∷ es) same fresh =
      (same (box_id lib e) ∙ fresh.0, AreFresh-agree db db' es same fresh.1)

  -- A block is clean in a state with the same boxes.
  IsClean-agree :
      (u : UtxoState lib s) (db : s.Db) (change : StateChange lib) (h : ℕ)
      → ((k : List ℕ) → s.get db utxo k ≡ s.get u.storage utxo k)
      → IsClean s lib u change h
      → IsClean s lib (record u { storage = db }) change h
  IsClean-agree u db change h same clean = record {
    fresh = AreFresh-agree u.storage db change.created same clean.fresh;
    storable = clean.storable;
    spent_count = clean.spent_count;
    created_count = clean.created_count;
    height_bound = clean.height_bound;
  }

  -- The rollback of one clean block, as the manager does it.
  undo_change-boxes :
      (m : StateManager s chain lib) (u : UtxoState lib s) (change : StateChange lib)
      → IsConsistent s lib u.storage
      → IsClean s lib u change (u.height + 1)
      → apply_change s lib u change (u.height + 1) ≡ ok m.utxo
      → (let undone = undo_change s chain lib m u.height in
          (undone.utxo.height ≡ u.height)
          × ((k : List ℕ) → s.get undone.utxo.storage utxo k ≡ s.get u.storage utxo k))
  unfolding undo_change apply_all AreClean
  undo_change-boxes m u change c clean applied =
      let one : apply_all s lib u (change ∷ []) ≡ ok m.utxo = rw applied in
      let all_clean : AreClean s lib u (change ∷ []) = rw applied (clean, tt) in
      let p = rollback-apply_all s lib u change [] c all_clean one in
      rw (undo_change, p.1.0) (p.1.1, p.1.2)

  -- Under enforced verification, when the block that comes next and is clean can be stored and applied
  -- to a consistent set, but the set's root is computed and is not that of the header, `apply_block`
  -- returns the mismatch, and the set has the height and the boxes that it had. The history keeps the
  -- block.
  pub apply_block-mismatch :
      (m : StateManager s chain lib) (block : FullBlock chain) (change : StateChange lib)
      {selection : ChainSelection} {u' : UtxoState lib s}
      → IsShared s chain lib m
      → IsConsistent s lib m.utxo.storage
      → IsClean s lib m.utxo change block.header.height
      → block.header.height ≡ m.utxo.height + 1
      → m.state_root_verification ≡ enforce
      → (append_full_block s chain m.history block).1 ≡ ok selection
      → apply_change s lib (stored m block).utxo change block.header.height ≡ ok u'
      → (is_unset u'.state_root || same_bytes u'.state_root (expected_hash block.header.state_root))
        ≡ false
      → (let r = apply_block s chain lib m block change in
          (r.1 ≡ err (state_root_mismatch block.header.height))
          × (r.0.utxo.height ≡ m.utxo.height)
          × ((k : List ℕ) → s.get r.0.utxo.storage utxo k ≡ s.get m.utxo.storage utxo k))
  unfolding apply_block apply_stored verify_state_root
  apply_block-mismatch m block change {u' = u'} shared c clean next mode appended applied other =
      let same : (block.header.height == (m.utxo.height + 1) % u32_mod) ≡ true =
        ground (arith, clean.height_bound) in
      let agree : (k : List ℕ)
          → s.get (stored m block).utxo.storage utxo k ≡ s.get m.utxo.storage utxo k =
        λ k.
          append_full_block-other s chain utxo m.history block k utxo-IsOther refl
          ∙ ap (λ db. s.get db utxo k) shared in
      let undone =
        undo_change-boxes
          (record (with_utxo s chain lib (stored m block) u') { state_root_verification = enforce })
          (stored m block).utxo change (IsConsistent-agree s lib _ _ agree c)
          (subst (λ h. IsClean s lib (stored m block).utxo change h) next
            (IsClean-agree m.utxo _ change _ agree clean))
          (subst (λ h. apply_change s lib (stored m block).utxo change h ≡ ok u') next applied) in
      rw (apply_block, same, appended, apply_stored, applied, mode, verify_state_root, other)
        (refl, undone.0, λ k. undone.1 k ∙ agree k)
