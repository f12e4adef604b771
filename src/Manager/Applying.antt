-- ===== src/Manager/Applying.antt =====
-- One block through the manager: `apply_block` (crates/ergo-state/src/manager.rs).
use ergo_rust_node.Prelude.{
  ℕ, ◌+◌, ◌%◌, ◌≡◌, refl, ap, ◌∙◌, inl, inr, ◌||◌, Bool-cases, List, ◌==◌, ok, Result-cases,
  u32_mod, arith,
}
use ergo_rust_node.Storage.{Storage, utxo}
use ergo_rust_node.Storage.Bytes.{same_bytes}
use ergo_rust_node.Utxo.{ErgoLib, StateChange, UtxoState}
use ergo_rust_node.Utxo.Apply.{apply_change}
use ergo_rust_node.Utxo.Apply.Loops.{changed}
use ergo_rust_node.Utxo.Apply.View.{apply_change-Applied, apply_change_lem}
use ergo_rust_node.History.{ChainLib, ChainSelection}
use ergo_rust_node.History.Chain.{FullBlock, append_full_block}
use ergo_rust_node.History.Chain.Columns.{IsOther, append_full_block-other}
use ergo_rust_node.Manager.{
  StateRootVerification, skip, warn_only, enforce, is_unset, expected_hash, StateManager,
  with_history, with_utxo, verify_state_root, apply_stored, apply_block,
}

pub utxo-IsOther : IsOther utxo
utxo-IsOther = record {
  not_headers = refl;
  not_header_chain = refl;
  not_transactions = refl;
  not_extensions = refl;
  not_ad_proofs = refl;
  not_difficulty = refl;
}

module _ (s : Storage) (chain : ChainLib) (lib : ErgoLib) where
  -- The history and the set are on one storage.
  abbrev pub IsShared : StateManager s chain lib → Type 0
  IsShared m = m.history.storage ≡ m.utxo.storage

  -- What a block that is applied leaves.
  pub record IsApplied (m : StateManager s chain lib) (block : FullBlock chain)
      (change : StateChange lib) (m' : StateManager s chain lib) : Type 0 where
    pub next : block.header.height ≡ (m.utxo.height + 1) % u32_mod
    pub height : m'.utxo.height ≡ block.header.height
    pub shared : IsShared m'
    pub boxes :
        (k : List ℕ)
        → s.get m'.utxo.storage utxo k ≡ changed lib change k (s.get m.utxo.storage utxo k)
    pub stored : m'.history ≡ (
        let h = (append_full_block s chain m.history block).0 in
        record h { storage = m'.utxo.storage })

  -- A root that is accepted changes nothing.
  verify_state_root-ok :
      (mode : StateRootVerification) (m : StateManager s chain lib) (old height : ℕ) (root : List ℕ)
      (selection : ChainSelection) {r : ChainSelection}
      → (verify_state_root s chain lib mode m old height root selection).1 ≡ ok r
      → (verify_state_root s chain lib mode m old height root selection).0 ≡ m
  unfolding verify_state_root
  verify_state_root-ok skip m old height root selection h = refl
  verify_state_root-ok warn_only m old height root selection h = refl
  verify_state_root-ok enforce m old height root selection h =
      elim (Bool-cases
        (is_unset m.utxo.state_root || same_bytes m.utxo.state_root (expected_hash root))) [
          | inl e ↦ rw e
          | inr e ↦ absurd (ground arith)
        ]

  apply_stored-ok :
      (m : StateManager s chain lib) (block : FullBlock chain) (change : StateChange lib)
      (selection : ChainSelection) {r : ChainSelection}
      → (apply_stored s chain lib m block change selection).1 ≡ ok r
      → (u : UtxoState lib s) × ((apply_change s lib m.utxo change block.header.height ≡ ok u)
          × ((apply_stored s chain lib m block change selection).0 ≡ with_utxo s chain lib m u))
  unfolding apply_stored
  apply_stored-ok m block change selection =
      elim (Result-cases (apply_change s lib m.utxo change block.header.height)) [
        | inr (e, q) ↦ rw (apply_stored, q) (λ h. absurd (ground arith))
        | inl (u, q) ↦
            rw (apply_stored, q) (λ h. (u, (refl, verify_state_root-ok _ _ _ _ _ selection h)))
      ]

  apply_change-height :
      (u : UtxoState lib s) (change : StateChange lib) (h : ℕ) {u' : UtxoState lib s}
      → apply_change s lib u change h ≡ ok u'
      → u'.height ≡ h
  apply_change-height u change h e =
      ap (λ x. x.height) ((apply_change-Applied s lib u change h e).result)

  apply_stored-IsApplied :
      (m : StateManager s chain lib) (block : FullBlock chain) (change : StateChange lib)
      (selection : ChainSelection) {r : ChainSelection}
      → IsShared m
      → block.header.height ≡ (m.utxo.height + 1) % u32_mod
      → (let stored = with_history s chain lib m (append_full_block s chain m.history block).0 in
          (apply_stored s chain lib stored block change selection).1 ≡ ok r
          → IsApplied m block change (apply_stored s chain lib stored block change selection).0)
  apply_stored-IsApplied m block change selection shared next h =
      let stored = with_history s chain lib m (append_full_block s chain m.history block).0 in
      let p = apply_stored-ok stored block change selection h in
      rw p.1.1 (record {
        next = next;
        height = apply_change-height stored.utxo change block.header.height p.1.0;
        shared = refl;
        boxes = λ k.
            apply_change_lem s lib stored.utxo change block.header.height p.1.0 k
            ∙ ap (changed lib change k) (
                append_full_block-other s chain utxo m.history block k utxo-IsOther refl
                ∙ ap (λ db. s.get db utxo k) shared);
        stored = refl;
      })

  -- When `apply_block` succeeds, whatever the mode of verification, the block has the height after the
  -- one of the set and the set gets that height; every id holds what the abstract change of the set
  -- leaves it with; the history is the one with the block appended; both are on one storage.
  pub apply_block-IsApplied :
      (m : StateManager s chain lib) (block : FullBlock chain) (change : StateChange lib)
      {r : ChainSelection}
      → IsShared m
      → (apply_block s chain lib m block change).1 ≡ ok r
      → IsApplied m block change (apply_block s chain lib m block change).0
  unfolding apply_block
  apply_block-IsApplied m block change shared =
      elim (Bool-cases (block.header.height == (m.utxo.height + 1) % u32_mod)) [
        | inr f ↦ rw (apply_block, f) (λ h. absurd (ground arith))
        | inl f ↦ elim (Result-cases (append_full_block s chain m.history block).1) [
          | inr (e, q) ↦ rw (apply_block, f, q) (λ h. absurd (ground arith))
          | inl (selection, q) ↦
              rw (apply_block, f, q)
                (apply_stored-IsApplied m block change selection shared (ground arith))
        ]
      ]
