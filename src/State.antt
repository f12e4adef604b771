-- ===== src/State.antt =====
-- The state crate's errors, as in crates/ergo-state/src/error.rs. The texts of the messages are left
-- out; an error keeps the id or the heights that it names.
use ergo_rust_node.Prelude.{ℕ, List}

pub data StateError : Type 0 where
  box_not_found : List ℕ → StateError
  header_not_found : List ℕ → StateError
  rollback_failed : ℕ → StateError
  invalid_transition : ℕ → ℕ → StateError
  state_root_mismatch : ℕ → StateError
  serialization : StateError
