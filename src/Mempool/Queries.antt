-- ===== src/Mempool/Queries.antt =====
-- The queries of the pool, and its removal of confirmed and expired transactions (pool.rs).
use ergo_rust_node.Prelude.{
  ℕ, ◌+◌, Bool, List, [], ◌∷◌, map, Option, none, some, ltb, if◌then◌else◌, take, contains, sub_u64,
  mul_u64, Result, ok, err,
}
use ergo_rust_node.Assoc.{Map, get, contains_key}
use ergo_rust_node.Mempool.{Platform, PooledTransaction, Mempool, MempoolError, remove}

-- `filter_map`
abbrev pub filter_map {ℓ κ} : {A : Type ℓ} {B : Type κ} → (A → Option B) → List A → List B
filter_map f [] = []
filter_map f (x ∷ xs) = let rest = filter_map f xs in elim (f x) [ none ↦ rest | some y ↦ y ∷ rest ]

-- The ids of the transactions that arrived too long ago; the subtraction wraps.
unfoldable pub expired_ids : ℕ → ℕ → Map PooledTransaction → List ℕ
expired_ids now expiry_ms [] = []
expired_ids now expiry_ms ((id, tx) ∷ m) =
    let rest = expired_ids now expiry_ms m in
    if ltb expiry_ms (sub_u64 now tx.arrival_time) then id ∷ rest else rest

module _ (P : Platform) where
  unfoldable pub is_input_spent : Mempool P → ℕ → Bool
  is_input_spent p input_id = contains_key p.input_to_tx input_id

  unfoldable pub get_spending_tx : Mempool P → ℕ → Option ℕ
  get_spending_tx p input_id = get input_id p.input_to_tx

  unfoldable pub get_creating_tx : Mempool P → ℕ → Option ℕ
  get_creating_tx p output_id = get output_id p.output_to_tx

  unfoldable pub get_by_output_id : Mempool P → ℕ → Option PooledTransaction
  get_by_output_id p box_id = elim (get box_id p.output_to_tx) [
    | none ↦ none
    | some tx_id ↦ get tx_id p.transactions
  ]

  unfoldable pub get_by_weight : Mempool P → ℕ → List PooledTransaction
  get_by_weight p limit = filter_map (λ w. get w.tx_id p.transactions) (take limit p.weight_order)

  unfoldable pub get_all_ids : Mempool P → List ℕ
  get_all_ids p = map (λ e. e.0) p.transactions

  unfoldable pub get_weight : Mempool P → ℕ → Option ℕ
  get_weight p tx_id = elim (get tx_id p.registry) [ none ↦ none | some w ↦ some w.weight ]

  unfoldable pub clear : Mempool P → Mempool P
  clear p = record p {
    transactions = [];
    registry = [];
    input_to_tx = [];
    output_to_tx = [];
    weight_order = [];
    total_size = 0;
  }

  -- A removal in a loop: a failure changes nothing, a success is counted.
  unfoldable pub counted :
      Mempool P × ℕ → Result MempoolError (PooledTransaction × Mempool P) → Mempool P × ℕ
  counted (p, removed) (err e) = (p, removed)
  counted (p, removed) (ok (tx, q)) = (q, removed + 1)

  unfoldable pub remove_counted : List ℕ → Mempool P × ℕ → Mempool P × ℕ
  unfolding counted
  remove_counted [] (p, removed) = (p, removed)
  remove_counted (id ∷ ids) (p, removed) = remove_counted ids (counted (p, removed) (remove P p id))

  -- The pooled spenders of the inputs, but for the confirmed ones.
  unfoldable pub conflicting : Mempool P → List ℕ → List ℕ → List ℕ
  conflicting p tx_ids [] = []
  conflicting p tx_ids (input ∷ inputs) =
      let rest = conflicting p tx_ids inputs in
      elim (get input p.input_to_tx) [
        | none ↦ rest
        | some id ↦ if contains tx_ids id then rest else id ∷ rest
      ]

  unfoldable pub remove_confirmed : Mempool P → List ℕ → List ℕ → Mempool P × ℕ
  unfolding remove_counted
  remove_confirmed p tx_ids spent_inputs =
      let (q, removed) = remove_counted tx_ids (p, 0) in
      remove_counted (conflicting q tx_ids spent_inputs) (q, removed)

  unfoldable pub remove_expired : Mempool P → ℕ → Mempool P
  remove_expired p now =
      (remove_counted (expired_ids now (mul_u64 p.config.tx_expiry_secs 1000) p.transactions)
        (p, 0)).0
