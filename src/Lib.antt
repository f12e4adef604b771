-- ===== src/Lib.antt =====
-- Verification of the Ergo node in Rust (crates/): models of its components and what is proved of them.
--
-- The node is a workspace of crates. ergo-consensus holds the rules of the chain, ergo-mempool the
-- pool of unconfirmed transactions, ergo-network the peers, ergo-sync the download of blocks,
-- ergo-state and ergo-storage the stored chain, ergo-api the HTTP interface.
--
-- Files and what they model:
-- - Emission (crates/ergo-consensus/src/reemission/rules.rs and settings.rs, and the response of
--   crates/ergo-api/src/handlers/emission.rs): the emission schedule and EIP-27.
-- - Download (crates/ergo-sync/src/download.rs): the queue of blocks to download, requests in
--   flight, retries.
-- - Mempool (crates/ergo-mempool/src/pool.rs, ordering.rs, error.rs): the pool of unconfirmed
--   transactions. Queries has the queries and bulk removals, Order the weights and the ordered set,
--   Order/Laws, Indexes, Family, Eviction, Adding, Removing, Confirmed and Weights the proofs. Fuel:
--   an eviction loop gets one more than there are transactions, since a round takes one out; the
--   update of a family gets the 501 depths that the source allows.
-- - Nipopow (crates/ergo-consensus/src/nipopow/): interlinks (Interlinks, Packing, Superchain), levels
--   and scores of superchains (Algos, Scores, Best), proofs (Proof, Chains) and the verifier (Verifier,
--   Verifying, Replacing). Fuel: packing has a round for each link, and a round takes at least one; the bits of
--   a number are at most its value; the score loop has the 256 levels of the source.
-- - Peers (crates/ergo-network/src/): penalties.rs and scoring.rs (Penalties, Scoring, Bans), the peer
--   manager of peer.rs (Manager, States, Histories, Banning), the table of declined modifiers of decline.rs
--   (Decline, Declining).
-- - Cost (crates/ergo-consensus/src/cost.rs): the accounting of validation costs, and Limits.
-- - Vlq (crates/ergo-network/src/message.rs and handshake.rs, and the copies in
--   crates/ergo-state/src/snapshots.rs and crates/ergo-consensus/src/block.rs): variable-length
--   quantities; RoundTrip has the proofs. Fuel: 10 rounds, since a round takes 7 of 64 bits.
-- - Storage (crates/ergo-storage/src/batch.rs, lib.rs and the columns of database.rs): write batches, and the
--   interface of a storage as a record of operations and laws. The database, RocksDB, is a parameter, and
--   its documented behaviour are the laws: a batch is written at once, and a read finds the last operation
--   on the key. Its errors are left out. Example is a storage that satisfies the laws.
-- - State (crates/ergo-state/src/error.rs): the errors of the state.
-- - Utxo (crates/ergo-state/src/utxo.rs): the set of unspent boxes. Codec has the stored forms, Index the
--   indexes of trees and tokens, Apply the changes of blocks (apply_change, add_change_to_batch_with_context),
--   Rollback the way back. The boxes of ergo-lib with their serialization, and Blake2b256, are parameters.
-- - History (crates/ergo-state/src/history.rs, with nbits_to_target and nbits_to_difficulty of
--   crates/ergo-consensus/src/autolykos.rs and the sections of crates/ergo-consensus/src/block.rs): headers
--   and sections (History itself, Blocks), the choice of the best chain, one header or many at a time
--   (Chain), full blocks, pruning and locators (Queries). Headers and transactions of the crates
--   ergo-chain-types and ergo-lib, with their serialization, and the bytes of num-bigint are parameters.
--   Fuel: a header locator gets as many rounds as the best height, since the height falls in every round
--   before the last.
-- - Manager (crates/ergo-state/src/manager.rs): the history and the set on one storage, which both
--   hold: what one writes the other reads. Applying, Batches and Rejecting have the proofs about blocks alone
--   and in batches, Recovery those about the start. The ids of a transaction's outputs are a parameter.
-- - Sync (crates/ergo-sync/src/sync.rs): the state machine of synchronisation, with Histories over
--   sequences of calls and Chunks for the download of a snapshot. The random choice of a peer is a parameter.
-- - Prelude: shared names, Boolean tests, lists, sets and machine words. Assoc: hash maps as
--   association lists with the laws that the components use.
--
-- Conventions: block, box, transaction and peer ids are numbers (a 32-byte id is the number that its
-- bytes spell; the interlinks, which are packed, and the stored chain, in Storage, Utxo, History and
-- Manager, keep the bytes). A method that changes its object returns the new record. The clock is an
-- argument.
-- Machine integers are numbers with the wrap-around of a release build written out where the source
-- can overflow; block heights are below 2 ^ 32. Locks are left out: each method runs alone.
--
-- Not modelled: storage engines, network and HTTP plumbing, logging, scripts of the sigma
-- interpreter, and floating-point scores. Of the stored chain: the adapter of the AVL+ tree crate
-- (apply_change_with_proof), iteration over all boxes, the chain parameters, and what is left after a
-- rollback of several blocks that fails in the middle.
pub mod Prelude
pub mod Assoc
pub mod Emission
pub mod Download
pub mod Mempool
pub mod Nipopow
pub mod Peers
pub mod Cost
pub mod Vlq
pub mod Storage
pub mod State
pub mod Utxo
pub mod History
pub mod Manager
pub mod Sync
