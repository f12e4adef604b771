-- ===== src/Nipopow.antt =====
-- Proofs of proof of work, crates/ergo-consensus/src/nipopow/.
pub mod Interlinks
pub mod Packing
pub mod Superchain
pub mod Algos
pub mod Scores
pub mod Best
pub mod Proof
pub mod Chains
pub mod Verifier
pub mod Verifying
pub mod Replacing
mod Tests
