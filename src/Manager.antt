-- ===== src/Manager.antt =====
-- The state manager (crates/ergo-state/src/manager.rs): a block goes through the history and the set of
-- unspent boxes, alone or in a batch; recovery of the set at the start. The chain parameters are left
-- out. `output_ids` is what the code reads of a transaction: the ids of its outputs.
pub mod Applying
pub mod Rejecting
pub mod Batches
pub mod Recovery
mod Tests
use ergo_rust_node.Prelude.{
  ℕ, zero, suc, ◌+◌, ◌-◌, ◌%◌, Bool, true, false, not, ◌&&◌, ◌||◌, Option, none, some, is_some,
  List, [], ◌∷◌, ltb, ◌==◌, if◌then◌else◌, length, take, filter, Result, ok, err, ◌>>=◌, u32_mod,
}
use ergo_rust_node.Storage.{Storage, WriteBatch, new}
use ergo_rust_node.Storage.Bytes.{same_bytes}
use ergo_rust_node.State.{StateError, invalid_transition, state_root_mismatch}
use ergo_rust_node.Utxo.{ErgoLib, BoxEntry, StateChange, UtxoState, box_id}
use ergo_rust_node.Utxo.Index.{get_box}
use ergo_rust_node.Utxo.Apply.{
  new_state, init_from_storage, update_height_in_memory, apply_change,
  add_change_to_batch_with_context,
}
use ergo_rust_node.Utxo.Rollback.{rollback}
use ergo_rust_node.History.{ChainLib, ChainSelection, extended, ignored, get_by_height}
use ergo_rust_node.History.Blocks.{get_transactions}
use ergo_rust_node.History.Chain.{
  History, FullBlock, with_pruning, init_from_storage_with_pruning, parent_cumulative, put_best,
  put_best_full, add_block_to_batch, append_full_block, update_in_memory_state,
}

pub data StateRootVerification : Type 0 where
  skip warn_only enforce : StateRootVerification

-- An empty root, or one of zeros, counts as not computed.
unfoldable pub is_unset : List ℕ → Bool
is_unset [] = true
is_unset (b ∷ root) = let rest = is_unset root in if b == 0 then rest else false

-- The hash part of the root in the header: all but the last of 33 bytes.
unfoldable pub expected_hash : List ℕ → List ℕ
expected_hash root = if length root == 33 then take 32 root else root

-- The heights that recovery looks at.
unfoldable pub check_heights : ℕ → List ℕ
check_heights height =
    height
    ∷ (height - 100)
    ∷ (height - 500)
    ∷ (height - 1000)
    ∷ (height - 5000)
    ∷ (height - 10000)
    ∷ []

-- The height that recovery rolls back to, if any.
unfoldable pub recovery_target : ℕ → Option ℕ → Option ℕ
recovery_target height none = some 1
recovery_target height (some good) = if ltb good height then some (good - 10) else none

module _ (s : Storage) (chain : ChainLib) (lib : ErgoLib) where
  pub record StateManager : Type 0 where
    pub utxo : UtxoState lib s
    pub history : History s
    pub state_root_verification : StateRootVerification

  -- The history and the set hold the same storage: what one writes the other reads.
  abbrev pub with_history : StateManager → History s → StateManager
  with_history m h =
      let u = m.utxo in record m { utxo = record u { storage = h.storage }; history = h }

  abbrev pub with_utxo : StateManager → UtxoState lib s → StateManager
  with_utxo m u =
      let h = m.history in record m { utxo = u; history = record h { storage = u.storage } }

  -- `with_verification`; `new` has `warn_only`.
  unfoldable pub with_verification : s.Db → StateRootVerification → StateManager
  with_verification db mode = record {
    utxo = new_state s lib db;
    history = with_pruning s db (u32_mod - 1);
    state_root_verification = mode;
  }

  unfoldable pub set_verification_mode : StateManager → StateRootVerification → StateManager
  set_verification_mode m mode = record m { state_root_verification = mode }

  unfoldable pub heights : StateManager → ℕ × ℕ
  heights m = (m.utxo.height, m.history.best_height)

  unfoldable pub is_synced : StateManager → Bool
  is_synced m =
      ltb 0 m.history.best_full_block_height
      && (m.history.best_full_block_height == m.history.best_height)

  -- The failed rollback after a mismatch only leaves a warning.
  unfoldable pub undo_change : StateManager → ℕ → StateManager
  undo_change m utxo_height = elim (rollback s lib m.utxo utxo_height) [
    | ok u ↦ with_utxo m u
    | err e ↦ m
  ]

  -- The comparison of state roots after the change, under each mode of verification.
  unfoldable pub verify_state_root :
      StateRootVerification
      → StateManager
      → ℕ
      → ℕ
      → List ℕ
      → ChainSelection
      → StateManager × Result StateError ChainSelection
  verify_state_root skip m utxo_height height expected selection = (m, ok selection)
  verify_state_root warn_only m utxo_height height expected selection = (m, ok selection)
  verify_state_root enforce m utxo_height height expected selection =
      if is_unset m.utxo.state_root || same_bytes m.utxo.state_root (expected_hash expected)
      then (m, ok selection)
      else (undo_change m utxo_height, err (state_root_mismatch height))

  -- The part of `apply_block` after the block is stored.
  unfoldable pub apply_stored :
      StateManager
      → FullBlock chain
      → StateChange lib
      → ChainSelection
      → StateManager × Result StateError ChainSelection
  apply_stored m block change selection =
      elim (apply_change s lib m.utxo change block.header.height) [
        | err e ↦ (m, err e)
        | ok u ↦
            verify_state_root m.state_root_verification (with_utxo m u) m.utxo.height
              block.header.height block.header.state_root selection
      ]

  unfoldable pub apply_block :
      StateManager
      → FullBlock chain
      → StateChange lib
      → StateManager × Result StateError ChainSelection
  apply_block m block change =
      let expected = (m.utxo.height + 1) % u32_mod in
      let appended = append_full_block s chain m.history block in
      if not (block.header.height == expected)
      then (m, err (invalid_transition expected block.header.height))
      else elim appended.1 [
        | err e ↦ (with_history m appended.0, err e)
        | ok selection ↦ apply_stored (with_history m appended.0) block change selection
      ]

  -- `apply_state_change`; nothing is written when it fails.
  unfoldable pub apply_state_change :
      StateManager → StateChange lib → ℕ → Result StateError StateManager
  apply_state_change m change height = do
    u ← apply_change s lib m.utxo change height
    ok (with_utxo m u)

  -- What the loop of `apply_blocks_batched` carries.
  pub record BatchProgress : Type 0 where
    pub batch : WriteBatch
    pub cumulative_difficulty : ℕ
    pub batch_created_boxes : List (List ℕ × BoxEntry lib)

  -- The first block that does not have the height expected of it, with the two heights.
  unfoldable pub first_gap : ℕ → List (FullBlock chain × StateChange lib) → Option (ℕ × ℕ)
  first_gap expected [] = none
  first_gap expected ((block, change) ∷ blocks) =
      let rest = first_gap ((expected + 1) % u32_mod) blocks in
      if block.header.height == expected then rest else some (expected, block.header.height)

  unfoldable pub insert_created :
      List (BoxEntry lib) → List (List ℕ × BoxEntry lib) → List (List ℕ × BoxEntry lib)
  insert_created [] context = context
  insert_created (e ∷ es) context = insert_created es ((box_id lib e, e) ∷ context)

  unfoldable pub remove_spent :
      List (List ℕ) → List (List ℕ × BoxEntry lib) → List (List ℕ × BoxEntry lib)
  remove_spent [] context = context
  remove_spent (id ∷ ids) context = remove_spent ids (filter (λ p. not (same_bytes p.0 id)) context)

  unfoldable pub add_blocks :
      StateManager
      → List (FullBlock chain × StateChange lib)
      → BatchProgress
      → Result StateError BatchProgress
  add_blocks m [] p = ok p
  add_blocks m ((block, change) ∷ blocks) p = do
    (batch, difficulty) ← add_block_to_batch s chain p.batch block p.cumulative_difficulty
    batch ←
        add_change_to_batch_with_context s lib m.utxo batch change block.header.height
          p.batch_created_boxes
    add_blocks m blocks (record {
      batch = batch;
      cumulative_difficulty = difficulty;
      batch_created_boxes =
          remove_spent change.spent (insert_created change.created p.batch_created_boxes);
    })

  unfoldable pub last_block :
      FullBlock chain → List (FullBlock chain × StateChange lib) → FullBlock chain
  last_block block [] = block
  last_block block ((next, change) ∷ blocks) = last_block next blocks

  -- The metadata, the one write of the batch, and the state in memory after it.
  unfoldable pub commit_blocks :
      StateManager → BatchProgress → FullBlock chain → StateManager × ChainSelection
  commit_blocks m p last =
      let h = m.history in
      let u = m.utxo in
      let id = last.header.id in
      let height = last.header.height in
      let better = ltb h.best_cumulative_difficulty p.cumulative_difficulty in
      let higher = ltb h.best_full_block_height height in
      let batch =
        if better then put_best s chain p.batch id height p.cumulative_difficulty else p.batch in
      let batch = if higher then put_best_full s chain batch id height else batch in
      let db = s.write_batch h.storage batch in
      (
        record m {
          utxo = update_height_in_memory s lib (record u { storage = db }) height;
          history =
              update_in_memory_state s chain (record h { storage = db }) id height
                p.cumulative_difficulty;
        },
        if better then extended else ignored,
      )

  unfoldable pub apply_blocks_batched :
      StateManager
      → List (FullBlock chain × StateChange lib)
      → StateManager × Result StateError ChainSelection
  apply_blocks_batched m [] = (m, ok ignored)
  apply_blocks_batched m ((block, change) ∷ blocks) =
      let first_height = block.header.height in
      let expected = (m.utxo.height + 1) % u32_mod in
      let added = add_blocks m ((block, change) ∷ blocks) (record {
        batch = new;
        cumulative_difficulty = parent_cumulative s chain m.history.storage block.header;
        batch_created_boxes = [];
      }) in
      if not (first_height == expected)
      then (m, err (invalid_transition expected first_height))
      else elim (first_gap first_height ((block, change) ∷ blocks)) [
        | some gap ↦ (m, err (invalid_transition gap.0 gap.1))
        | none ↦ elim added [
          | err e ↦ (m, err e)
          | ok p ↦ let done = commit_blocks m p (last_block block blocks) in (done.0, ok done.1)
        ]
      ]

  -- `rollback_to`; what is left after a failure in the middle is not modelled.
  unfoldable pub rollback_to : StateManager → ℕ → Result StateError StateManager
  rollback_to m height = do u ← rollback s lib m.utxo height; ok (with_utxo m u)

  module _ (output_ids : chain.Tx → List (List ℕ)) where
    unfoldable pub any_present : s.Db → List (List ℕ) → Result StateError Bool
    any_present db [] = ok false
    any_present db (id ∷ ids) = do
      found ← get_box s lib db id
      let rest = any_present db ids
      (if is_some found then ok true else rest)

    -- Whether an output of the first transaction at a height is unspent.
    unfoldable pub is_good : s.Db → ℕ → Result StateError Bool
    is_good db zero = ok false
    is_good db (suc n) = do
      found ← get_by_height s chain db (suc n)
      elim found [
        | none ↦ ok false
        | some header ↦ do
          stored ← get_transactions s chain db header.id
          elim stored [
            | none ↦ ok false
            | some [] ↦ ok false
            | some (coinbase ∷ txs) ↦ any_present db (output_ids coinbase)
          ]
      ]

    unfoldable pub last_good : s.Db → List ℕ → Result StateError (Option ℕ)
    last_good db [] = ok none
    last_good db (height ∷ heights) = do
      good ← is_good db height
      let rest = last_good db heights
      (if good then ok (some height) else rest)

    unfoldable pub check_and_recover_utxo_state : StateManager → Result StateError StateManager
    check_and_recover_utxo_state m =
        let height = m.utxo.height in
        let recovered = (do
          good ← last_good m.utxo.storage (check_heights height)
          elim (recovery_target height good) [
            | none ↦ ok m
            | some target ↦ rollback_to m target
          ]) in
        if height == 0 then ok m else recovered

    -- `StateManager::init_from_storage`
    unfoldable pub load : s.Db → Result StateError StateManager
    load db = check_and_recover_utxo_state (record {
      utxo = init_from_storage s lib db;
      history = init_from_storage_with_pruning s chain db (u32_mod - 1);
      state_root_verification = warn_only;
    })
