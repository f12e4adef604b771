-- ===== src/Peers.antt =====
-- Peers, crates/ergo-network/src/: scores, penalties, bans and the table of declined modifiers.
pub mod Penalties
pub mod Scoring
pub mod Bans
pub mod Manager
pub mod States
pub mod Histories
pub mod Banning
pub mod Decline
pub mod Declining
mod Tests
