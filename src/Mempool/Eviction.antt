-- ===== src/Mempool/Eviction.antt =====
-- Removal and eviction: the loops of `maybe_evict` end, within the limits (pool.rs).
use ergo_rust_node.Prelude.{
  ℕ, zero, suc, ◌+◌, ◌≤◌, ◌<◌, ◌≡◌, refl, ap, ◌∙◌, inl, inr, ◌⊎◌, Bool, true, false, List, [], ◌∷◌,
  none, some, length, is_some, arith, Bool-cases, Option-cases, ok, u64_mod,
}
use ergo_rust_node.Assoc.{get, erase, total, length-erase, total-erase, get-erase}
use ergo_rust_node.Mempool.{
  Platform, PooledTransaction, Mempool, remove, unlink, lowest, evict_lowest_weight, evict_while,
  update_family,
}
use ergo_rust_node.Mempool.Indexes.{IsIndexed, unlink-IsIndexed, registration, bytes_of}
use ergo_rust_node.Mempool.Family.{update_family-IsIndexed}
use ergo_rust_node.Mempool.Order.{WeightedTxId, entry, neg_i64}

lowest-some :
    (xs : List WeightedTxId)
    → 0 < length xs
    → (k : ℕ) × (lowest xs ≡ some k) × (is_some (entry k xs) ≡ true)
unfolding lowest entry
lowest-some [] h = absurd (omega arith)
lowest-some (w ∷ []) h = (w.tx_id, refl, ground arith)
lowest-some (w ∷ x ∷ xs) h =
    let (k, e, i) = lowest-some (x ∷ xs) (omega arith) in (k, e, ground arith)

module _ (P : Platform) where
  unlink-config :
      (p : Mempool P) (k : ℕ) (tx : PooledTransaction) → (unlink P p k tx).config ≡ p.config
  unfolding unlink
  unlink-config p k tx = refl

  unlink-transactions :
      (p : Mempool P) (k : ℕ) (tx : PooledTransaction)
      → (unlink P p k tx).transactions ≡ erase k p.transactions
  unfolding unlink
  unlink-transactions p k tx = refl

  -- In a pool with agreeing indexes and a size below 2 ^ 64, the removal of a pooled transaction succeeds
  -- and returns it; the indexes of the rest agree, the configuration is the same, and the transactions
  -- are the others.
  pub remove_pooled :
      (p : Mempool P) (k : ℕ) (tx : PooledTransaction)
      → get k p.transactions ≡ some tx
      → p.total_size < u64_mod
      → IsIndexed P p
      → (q : Mempool P) × (remove P p k ≡ ok (tx, q))
        × IsIndexed P q
        × (q.config ≡ p.config)
        × (q.transactions ≡ erase k p.transactions)
  unfolding remove
  remove_pooled p k tx f b v =
      let (w, e, name, stands) = registration P p k tx f v in
      let bare = unlink-IsIndexed P p k tx f b v in
      let up = update_family-IsIndexed P (unlink P p k tx) tx (neg_i64 w.weight) bare in
      (
        update_family P (unlink P p k tx) tx (neg_i64 w.weight),
        rw (f, e, remove),
        up.0,
        up.1.config ∙ unlink-config p k tx,
        up.1.transactions ∙ unlink-transactions p k tx,
      )

  -- Fewer transactions, and none new.
  pub record Shrinks (p q : Mempool P) : Type 0 where
    pub indexed : IsIndexed P q
    pub config : q.config ≡ p.config
    pub fewer : length q.transactions ≤ length p.transactions
    pub smaller : q.total_size ≤ p.total_size
    pub pooled :
        (k : ℕ) → (get k q.transactions ≡ none) ⊎ (get k q.transactions ≡ get k p.transactions)

  Shrinks-refl : (p : Mempool P) → IsIndexed P p → Shrinks p p
  Shrinks-refl p v = record {
    indexed = v;
    config = refl;
    fewer = omega arith;
    smaller = omega arith;
    pooled = λ k. inr refl;
  }

  pub Shrinks-trans : (p q r : Mempool P) → Shrinks p q → Shrinks q r → Shrinks p r
  Shrinks-trans p q r a b = record {
    indexed = b.indexed;
    config = b.config ∙ a.config;
    fewer = omega (arith, a.fewer, b.fewer);
    smaller = omega (arith, a.smaller, b.smaller);
    pooled = λ k. ground (arith, a.pooled k, b.pooled k);
  }

  pub remove-Shrinks :
      (p q : Mempool P) (k : ℕ) (tx : PooledTransaction)
      → get k p.transactions ≡ some tx
      → IsIndexed P p
      → IsIndexed P q
      → q.config ≡ p.config
      → q.transactions ≡ erase k p.transactions
      → Shrinks p q × (length q.transactions + 1 ≡ length p.transactions)
  remove-Shrinks p q k tx f v u c e =
      let less = length-erase k tx p.transactions v.tx_unique f in
      let size = total-erase bytes_of k tx p.transactions v.tx_unique f in
      (
        record {
          indexed = u;
          config = c;
          fewer = omega (arith, ap length e, less);
          smaller = omega (arith, ap (total bytes_of) e, size, v.sized, u.sized);
          pooled = λ j. ground (arith, ap (get j) e, get-erase k j p.transactions);
        },
        omega (arith, ap length e, less),
      )

  -- One eviction of a pool that is not empty takes one transaction out.
  evict_step :
      (p : Mempool P)
      → 0 < length p.transactions
      → p.total_size < u64_mod
      → IsIndexed P p
      → (q : Mempool P) × (evict_lowest_weight P p ≡ ok q)
        × Shrinks p q
        × (length q.transactions + 1 ≡ length p.transactions)
  unfolding evict_lowest_weight
  evict_step p h b v =
      let (k, low, there) = lowest-some p.weight_order (omega (arith, v.counted)) in
      elim (Option-cases (get k p.transactions)) [
        | inl e ↦ absurd (ground (arith, v.weighed k, v.registered k))
        | inr (tx, e) ↦
            let (q, removed, u, c, t) = remove_pooled p k tx e b v in
            let s = remove-Shrinks p q k tx e v u c t in
            (q, rw (low, removed, evict_lowest_weight), s.0, s.1)
      ]

  -- With more fuel than transactions the loop ends by its test, if the test fails on an empty pool.
  pub evict_while-ends :
      (over : Mempool P → Bool)
      → ((p : Mempool P) → IsIndexed P p → over p ≡ true → 0 < length p.transactions)
      → (fuel : ℕ) (p : Mempool P) → length p.transactions < fuel
      → p.total_size < u64_mod
      → IsIndexed P p
      → (q : Mempool P) × (evict_while P over fuel p ≡ some q) × Shrinks p q × (over q ≡ false)
  unfolding evict_while
  evict_while-ends over stop zero p h b v = absurd (omega arith)
  evict_while-ends over stop (suc fuel) p h b v = elim (Bool-cases (over p)) [
    | inr e ↦ (p, rw (e, evict_while), Shrinks-refl p v, e)
    | inl e ↦
        let (q, evicted, s, less) = evict_step p (stop p v e) b v in
        let (r, ended, t, under) =
          evict_while-ends over stop fuel q (omega arith) (omega (arith, s.smaller)) s.indexed in
        (r, rw (e, evicted, evict_while) ended, Shrinks-trans p q r s t, under)
  ]
