-- ===== src/Mempool.antt =====
-- The transaction pool, crates/ergo-mempool/src/pool.rs. Each method runs alone: the locks are left
-- out. `DashMap` is a map of `Assoc`.
pub mod Order
pub mod Queries
pub mod Indexes
pub mod Family
pub mod Eviction
pub mod Adding
pub mod Removing
pub mod Confirmed
pub mod Weights
mod Tests
use ergo_rust_node.Prelude.{
  ℕ, zero, suc, ◌+◌, ◌-◌, ◌/◌, Bool, true, false, not, List, [], ◌∷◌, ◌++◌, map, Option, none, some,
  ltb, leb, ◌==◌, if◌then◌else◌, length, take, filter, contains, set_insert, add_u64, sub_u64,
  mul_u64, Result, ok, err, is_some,
}
use ergo_rust_node.Assoc.{Map, get, insert, erase, contains_key, insert_all, erase_all}
use ergo_rust_node.Mempool.Order.{WeightedTxId, add_i64, neg_i64}
use ergo_rust_node.Mempool.Order

-- What the pool uses of its platform: `f64` with its operations, the milliseconds that the n-th
-- reading of the clock in one weight update shows, and the order in which a `HashSet` iterates.
pub record Platform : Type 1 where
  pub F64 : Type 0
  pub from_u64 : ℕ → F64
  pub to_u64 : F64 → ℕ
  pub div : F64 → F64 → F64
  pub mul : F64 → F64 → F64
  pub below : F64 → F64 → Bool
  pub elapsed : ℕ → ℕ
  pub hash_order : List ℕ → List ℕ

pub record PooledTransaction : Type 0 where
  pub id : ℕ
  pub bytes : List ℕ
  pub fee : ℕ
  pub inputs : List ℕ
  pub outputs : List ℕ
  pub arrival_time : ℕ
  pub estimated_cost : Option ℕ

-- The errors that the pool makes; the others of the source are made nowhere in it. An id stands for
-- its hexadecimal text.
pub data MempoolError : Type 0 where
  already_exists : ℕ → MempoolError
  double_spend : ℕ → MempoolError
  too_large : ℕ → ℕ → MempoolError
  fee_too_low : ℕ → ℕ → MempoolError
  not_found : ℕ → MempoolError

abbrev pub max_parent_scan_depth : ℕ
max_parent_scan_depth = 500

abbrev pub max_parent_scan_time_ms : ℕ
max_parent_scan_time_ms = 500

-- The first of the inputs that a pooled transaction spends.
pub first_spent : List ℕ → Map ℕ → Option ℕ
first_spent [] spenders = none
first_spent (i ∷ is) spenders = if contains_key spenders i then some i else first_spent is spenders

-- The set of the transactions whose outputs the inputs spend.
pub parent_ids : List ℕ → Map ℕ → List ℕ
parent_ids [] creators = []
parent_ids (i ∷ is) creators =
    let rest = parent_ids is creators in
    elim (get i creators) [ none ↦ rest | some parent ↦ set_insert parent rest ]

-- The last of the order has the lowest weight. On an empty order nothing is evicted.
pub lowest : List WeightedTxId → Option ℕ
lowest [] = none
lowest (w ∷ []) = some w.tx_id
lowest (w ∷ x ∷ xs) = lowest (x ∷ xs)

abbrev pub weighted : PooledTransaction → WeightedTxId
weighted tx = Order.new tx.id tx.fee (length tx.bytes) tx.arrival_time

module _ (P : Platform) where
  pub record MempoolConfig : Type 0 where
    pub max_size : ℕ
    pub max_transactions : ℕ
    pub tx_expiry_secs : ℕ
    pub min_fee_per_byte : P.F64

  pub record Mempool : Type 0 where
    pub config : MempoolConfig
    pub transactions : Map PooledTransaction
    pub registry : Map WeightedTxId
    pub weight_order : List WeightedTxId
    pub output_to_tx : Map ℕ
    pub input_to_tx : Map ℕ
    pub total_size : ℕ

  pub new : MempoolConfig → Mempool
  new config = record {
    config = config;
    transactions = [];
    registry = [];
    weight_order = [];
    output_to_tx = [];
    input_to_tx = [];
    total_size = 0;
  }

  -- The new weight of a parent, in the registry and in the order.
  pub reweigh : Mempool → ℕ → WeightedTxId → ℕ → Mempool
  reweigh p parent_id old_wtx weight_delta =
      let new_wtx : WeightedTxId = record old_wtx {
        weight = add_i64 old_wtx.weight weight_delta;
      } in
      record p {
        registry = insert parent_id new_wtx p.registry;
        weight_order = Order.insert new_wtx (Order.remove old_wtx p.weight_order);
      }

  -- One round of the loop over the parents: the parent and the pool, unless it is skipped.
  pub update_parent : Mempool → PooledTransaction → ℕ → ℕ → Option (PooledTransaction × Mempool)
  unfolding reweigh
  update_parent p tx weight_delta parent_id =
      if parent_id == tx.id then none else elim (get parent_id p.registry) [
        | none ↦ none
        | some old_wtx ↦ elim (get parent_id p.transactions) [
          | none ↦ none
          | some parent_tx ↦ some (parent_tx, reweigh p parent_id old_wtx weight_delta)
        ]
      ]

  -- The state of an update: the pool, and how often the clock was read.
  abbrev pub Update : Type 0
  Update = Mempool × ℕ

  pub update_parents :
      (PooledTransaction → Update → Update) → PooledTransaction → ℕ → List ℕ → Update → Update
  update_parents rec tx weight_delta [] s = s
  update_parents rec tx weight_delta (id ∷ ids) (p, n) = elim (update_parent p tx weight_delta id) [
    | none ↦ update_parents rec tx weight_delta ids (p, n)
    | some (parent_tx, p') ↦ update_parents rec tx weight_delta ids (rec parent_tx (p', n))
  ]

  -- `left` is the number of depths up to the limit: a call at depth d has 501 - d left.
  pub update_family_recursive : ℕ → ℕ → PooledTransaction → Update → Update
  update_family_recursive weight_delta zero tx s = s
  update_family_recursive weight_delta (suc left) tx (p, n) =
      if ltb max_parent_scan_time_ms (P.elapsed n)
      then (p, n + 1)
      else update_parents (update_family_recursive weight_delta left) tx weight_delta
          (P.hash_order (parent_ids tx.inputs p.output_to_tx)) (p, n + 1)

  pub update_family : Mempool → PooledTransaction → ℕ → Mempool
  update_family p tx weight_delta =
      (update_family_recursive weight_delta (max_parent_scan_depth + 1) tx (p, 0)).0

  -- The indexes without the transaction.
  pub unlink : Mempool → ℕ → PooledTransaction → Mempool
  unlink p tx_id tx = record p {
    transactions = erase tx_id p.transactions;
    registry = erase tx_id p.registry;
    weight_order = elim (get tx_id p.registry) [
      | none ↦ p.weight_order
      | some wtx ↦ Order.remove wtx p.weight_order
    ];
    input_to_tx = erase_all tx.inputs p.input_to_tx;
    output_to_tx = erase_all tx.outputs p.output_to_tx;
    total_size = sub_u64 p.total_size (length tx.bytes);
  }

  pub remove : Mempool → ℕ → Result MempoolError (PooledTransaction × Mempool)
  remove p tx_id = elim (get tx_id p.transactions) [
    | none ↦ err (not_found tx_id)
    | some tx ↦ ok (
      tx,
      elim (get tx_id p.registry) [
        | none ↦ unlink p tx_id tx
        | some wtx ↦ update_family (unlink p tx_id tx) tx (neg_i64 wtx.weight)
      ],
    )
  ]

  pub evict_lowest_weight : Mempool → Result MempoolError Mempool
  evict_lowest_weight p = elim (lowest p.weight_order) [
    | none ↦ ok p
    | some tx_id ↦ elim (remove p tx_id) [ err e ↦ err e | ok (tx, q) ↦ ok q ]
  ]

  -- A `while` loop of `maybe_evict` on fuel; `none` means that the fuel ran out.
  pub evict_while : (Mempool → Bool) → ℕ → Mempool → Option Mempool
  evict_while over zero p = none
  evict_while over (suc fuel) p = elim (over p) [
    | true ↦ elim (evict_lowest_weight p) [ err e ↦ some p | ok q ↦ evict_while over fuel q ]
    | false ↦ some p
  ]

  abbrev pub too_many : Mempool → Bool
  too_many p = ltb p.config.max_transactions (length p.transactions)

  abbrev pub too_big : Mempool → Bool
  too_big p = ltb p.config.max_size p.total_size

  pub maybe_evict : Mempool → Option Mempool
  maybe_evict p = elim (evict_while too_many (length p.transactions + 1) p) [
    | none ↦ none
    | some q ↦ evict_while too_big (length q.transactions + 1) q
  ]

  -- The checks of `add`, in order.
  pub add_check : Mempool → PooledTransaction → Option MempoolError
  add_check p tx =
      let tx_size = length tx.bytes in
      let fee_per_byte = P.div (P.from_u64 tx.fee) (P.from_u64 tx_size) in
      if contains_key p.transactions tx.id
      then some (already_exists tx.id)
      else if ltb (p.config.max_size / 10) tx_size
      then some (too_large tx_size (p.config.max_size / 10))
      else if P.below fee_per_byte p.config.min_fee_per_byte
      then some
          (fee_too_low tx.fee (P.to_u64 (P.mul p.config.min_fee_per_byte (P.from_u64 tx_size))))
      else elim (first_spent tx.inputs p.input_to_tx) [
        | none ↦ none
        | some input ↦ some (double_spend input)
      ]

  -- The indexes with the transaction.
  pub link : Mempool → PooledTransaction → Mempool
  link p tx = record p {
    registry = insert tx.id (weighted tx) p.registry;
    input_to_tx = insert_all tx.inputs tx.id p.input_to_tx;
    output_to_tx = insert_all tx.outputs tx.id p.output_to_tx;
    weight_order = Order.insert (weighted tx) p.weight_order;
    total_size = add_u64 p.total_size (length tx.bytes);
    transactions = insert tx.id tx p.transactions;
  }

  -- `none` means that an eviction loop does not end.
  pub add : Mempool → PooledTransaction → Option (Result MempoolError Mempool)
  add p tx = elim (add_check p tx) [
    | some e ↦ some (err e)
    | none ↦ elim (maybe_evict (update_family (link p tx) tx (weighted tx).weight)) [
      | none ↦ none
      | some q ↦ some (ok q)
    ]
  ]
