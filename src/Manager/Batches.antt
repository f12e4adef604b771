-- ===== src/Manager/Batches.antt =====
-- Many blocks through the manager in one write: `apply_blocks_batched` (crates/ergo-state/src/manager.rs).
use ergo_rust_node.Prelude.{
  ℕ, ◌+◌, ◌%◌, ◌≡◌, refl, sym, ap, subst, ◌∙◌, inl, inr, Bool-cases, Option, none, Option-cases,
  List, [], ◌∷◌, ◌==◌, ltb, Result, ok, ◌>>=◌, >>=-eq-ok, ok_injective, Result-cases, u32_mod,
  arith,
}
use ergo_rust_node.Storage.{Storage, utxo, overlay, new}
use ergo_rust_node.State.{StateError}
use ergo_rust_node.Utxo.{ErgoLib, StateChange}
use ergo_rust_node.Utxo.Apply.{add_change_to_batch_with_context, update_height_in_memory}
use ergo_rust_node.Utxo.Apply.Loops.{changed}
use ergo_rust_node.Utxo.Apply.Batch.{add_change_to_batch_with_context_lem}
use ergo_rust_node.History.{ChainLib, ChainSelection}
use ergo_rust_node.History.Chain.{
  FullBlock, add_block_to_batch, parent_cumulative, update_in_memory_state,
}
use ergo_rust_node.History.Chain.Columns.{add_block_to_batch-SameColumn, put_both-SameColumn}
use ergo_rust_node.Manager.{
  StateManager, BatchProgress, first_gap, add_blocks, last_block, commit_blocks, apply_block,
  apply_blocks_batched,
}
use ergo_rust_node.Manager.Applying.{utxo-IsOther, IsShared, apply_block-IsApplied}

module _ (s : Storage) (chain : ChainLib) (lib : ErgoLib) where
  -- The abstract changes of blocks, one after the other.
  unfoldable pub changed_all :
      List (FullBlock chain × StateChange lib) → List ℕ → Option (List ℕ) → Option (List ℕ)
  changed_all [] k old = old
  changed_all ((block, change) ∷ blocks) k old = changed_all blocks k (changed lib change k old)

  -- The loop adds the changes of its blocks to the batch.
  add_blocks_lem :
      (m : StateManager s chain lib) (blocks : List (FullBlock chain × StateChange lib))
      (p : BatchProgress s chain lib) {q : BatchProgress s chain lib}
      → add_blocks s chain lib m blocks p ≡ ok q
      → (k : List ℕ) (old : Option (List ℕ))
      → overlay q.batch.operations utxo k old
        ≡ changed_all blocks k (overlay p.batch.operations utxo k old)
  unfolding add_blocks changed_all
  add_blocks_lem m [] p h k old =
      ap (λ x. overlay x.batch.operations utxo k old) (sym (ok_injective h))
  add_blocks_lem m ((block, change) ∷ blocks) p h k old =
      let a = >>=-eq-ok (add_block_to_batch s chain p.batch block p.cumulative_difficulty) _ h in
      let b =
        >>=-eq-ok
          (add_change_to_batch_with_context s lib m.utxo a.0.0 change block.header.height
            p.batch_created_boxes)
          _ a.1.1 in
      rw (
        add_blocks_lem m blocks _ b.1.1 k old,
        add_change_to_batch_with_context_lem s lib m.utxo a.0.0 change block.header.height
            p.batch_created_boxes b.1.0 k old,
        add_block_to_batch-SameColumn s chain utxo p.batch block p.cumulative_difficulty
            utxo-IsOther a.1.0 k old,
      )

  -- What blocks that are applied leave of the set, wherever the history is.
  pub record AreApplied (m : StateManager s chain lib) (block : FullBlock chain)
      (change : StateChange lib) (blocks : List (FullBlock chain × StateChange lib))
      (m' : StateManager s chain lib) : Type 0 where
    pub next : block.header.height ≡ (m.utxo.height + 1) % u32_mod
    pub height : m'.utxo.height ≡ (last_block s chain lib block blocks).header.height
    pub shared : IsShared s chain lib m'
    pub boxes :
        (k : List ℕ)
        → s.get m'.utxo.storage utxo k
          ≡ changed_all ((block, change) ∷ blocks) k (s.get m.utxo.storage utxo k)

  -- The write puts the batch's boxes in place.
  commit_blocks-AreApplied :
      (m : StateManager s chain lib) (block : FullBlock chain) (change : StateChange lib)
      (blocks : List (FullBlock chain × StateChange lib)) (p : BatchProgress s chain lib)
      → block.header.height ≡ (m.utxo.height + 1) % u32_mod
      → IsShared s chain lib m
      → ((k : List ℕ) (old : Option (List ℕ))
          → overlay p.batch.operations utxo k old ≡ changed_all ((block, change) ∷ blocks) k old)
      → AreApplied m block change blocks
          (commit_blocks s chain lib m p (last_block s chain lib block blocks)).0
  unfolding commit_blocks update_height_in_memory update_in_memory_state
  commit_blocks-AreApplied m block change blocks p next shared same =
      let last = last_block s chain lib block blocks in
      record {
        next = next;
        height = refl;
        shared = refl;
        boxes = λ k. rw (
          s.get-write_batch,
          put_both-SameColumn s chain utxo
              (ltb m.history.best_cumulative_difficulty p.cumulative_difficulty)
              (ltb m.history.best_full_block_height last.header.height) p.batch last.header.id
              last.header.height p.cumulative_difficulty refl k (s.get m.history.storage utxo k),
          same k (s.get m.history.storage utxo k),
          shared,
        );
      }

  -- When `apply_blocks_batched` succeeds, the first block has the height after the one of the set, the
  -- heights of the others follow without a gap, the set gets the height of the last, and every id holds
  -- what the abstract changes of the blocks, one after the other, leave it with.
  pub apply_blocks_batched_lem :
      (m : StateManager s chain lib) (block : FullBlock chain) (change : StateChange lib)
      (blocks : List (FullBlock chain × StateChange lib)) {r : ChainSelection}
      → IsShared s chain lib m
      → (apply_blocks_batched s chain lib m ((block, change) ∷ blocks)).1 ≡ ok r
      → (first_gap s chain lib block.header.height ((block, change) ∷ blocks) ≡ none)
        × AreApplied m block change blocks
            (apply_blocks_batched s chain lib m ((block, change) ∷ blocks)).0
  unfolding apply_blocks_batched new
  apply_blocks_batched_lem m block change blocks shared =
      let p : BatchProgress s chain lib = record {
        batch = new;
        cumulative_difficulty = parent_cumulative s chain m.history.storage block.header;
        batch_created_boxes = [];
      } in
      elim (Bool-cases (block.header.height == (m.utxo.height + 1) % u32_mod)) [
        | inr f ↦ rw (apply_blocks_batched, f) (λ h. absurd (ground arith))
        | inl f ↦
            elim (Option-cases
              (first_gap s chain lib block.header.height ((block, change) ∷ blocks))) [
                | inr (gap, g) ↦ rw (apply_blocks_batched, f, g) (λ h. absurd (ground arith))
                | inl g ↦
                    elim (Result-cases (add_blocks s chain lib m ((block, change) ∷ blocks) p)) [
                      | inr (e, q) ↦ rw (apply_blocks_batched, f, g, q) (λ h. absurd (ground arith))
                      | inl (done, q) ↦
                          rw (apply_blocks_batched, f, g, q)
                            (λ h. (
                              refl,
                              commit_blocks-AreApplied m block change blocks done (ground arith)
                                  shared
                                  (λ k old. add_blocks_lem m ((block, change) ∷ blocks) p q k old),
                            ))
                    ]
              ]
      ]

  -- The blocks one by one, up to the first that fails.
  unfoldable pub apply_each :
      StateManager s chain lib
      → List (FullBlock chain × StateChange lib)
      → Result StateError (StateManager s chain lib)
  apply_each m [] = ok m
  apply_each m ((block, change) ∷ blocks) = do
    let applied = apply_block s chain lib m block change
    selection ← applied.1
    apply_each applied.0 blocks

  apply_each_lem :
      (m : StateManager s chain lib) (block : FullBlock chain) (change : StateChange lib)
      (blocks : List (FullBlock chain × StateChange lib)) {m' : StateManager s chain lib}
      → IsShared s chain lib m
      → apply_each m ((block, change) ∷ blocks) ≡ ok m'
      → AreApplied m block change blocks m'
  unfolding apply_each changed_all last_block
  apply_each_lem m block change [] shared h =
      let a = >>=-eq-ok (apply_block s chain lib m block change).1 _ h in
      let applied = apply_block-IsApplied s chain lib m block change shared a.1.0 in
      subst (AreApplied m block change []) (ok_injective a.1.1) (record {
        next = applied.next;
        height = applied.height;
        shared = applied.shared;
        boxes = applied.boxes;
      })
  apply_each_lem m block change ((next, next_change) ∷ blocks) shared h =
      let a = >>=-eq-ok (apply_block s chain lib m block change).1 _ h in
      let applied = apply_block-IsApplied s chain lib m block change shared a.1.0 in
      let rest =
        apply_each_lem (apply_block s chain lib m block change).0 next next_change blocks
          applied.shared a.1.1 in
      record {
        next = applied.next;
        height = rest.height;
        shared = rest.shared;
        boxes =
            λ k. rest.boxes k ∙ ap (changed_all ((next, next_change) ∷ blocks) k) (applied.boxes k);
      }

  -- When one or more blocks can be applied in one batch, and also one by one, the set has the same
  -- height after both, and every id holds the same box.
  pub apply_blocks_batched-apply_each :
      (m : StateManager s chain lib) (block : FullBlock chain) (change : StateChange lib)
      (blocks : List (FullBlock chain × StateChange lib)) {r : ChainSelection}
      {m' : StateManager s chain lib}
      → IsShared s chain lib m
      → (apply_blocks_batched s chain lib m ((block, change) ∷ blocks)).1 ≡ ok r
      → apply_each m ((block, change) ∷ blocks) ≡ ok m'
      → (let batched = (apply_blocks_batched s chain lib m ((block, change) ∷ blocks)).0 in
          (batched.utxo.height ≡ m'.utxo.height)
          × ((k : List ℕ) → s.get batched.utxo.storage utxo k ≡ s.get m'.utxo.storage utxo k))
  apply_blocks_batched-apply_each m block change blocks shared h e =
      let a = (apply_blocks_batched_lem m block change blocks shared h).1 in
      let b = apply_each_lem m block change blocks shared e in
      (a.height ∙ sym b.height, λ k. a.boxes k ∙ sym (b.boxes k))
