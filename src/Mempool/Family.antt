-- ===== src/Mempool/Family.antt =====
-- Weight updates of the parents (`update_family` of pool.rs): they change weights alone.
use ergo_rust_node.Prelude.{
  ℕ, zero, suc, ◌+◌, ◌≡◌, refl, ap, ◌∙◌, inl, inr, List, [], ◌∷◌, none, some, ==_iff, ltb, arith,
  Bool-cases, Option-cases,
}
use mathlib.Core.Path.{subst}
use ergo_rust_node.Assoc.{get, get-insert}
use ergo_rust_node.Mempool.{
  Platform, PooledTransaction, Mempool, Update, reweigh, update_parent, update_parents,
  update_family_recursive, update_family, max_parent_scan_time_ms, parent_ids,
}
use ergo_rust_node.Mempool.Indexes.{IsIndexed}
use ergo_rust_node.Mempool.Order
use ergo_rust_node.Mempool.Order.{WeightedTxId, entry, add_i64}
use ergo_rust_node.Mempool.Order.Laws.{
  entry-insert, entry-remove, length-insert, length-remove, insert-IsOrdered, remove-IsOrdered,
}

module _ (P : Platform) where
  -- All but the weights is as before.
  pub record Keeps (p q : Mempool P) : Type 0 where
    pub config : q.config ≡ p.config
    pub transactions : q.transactions ≡ p.transactions
    pub output_to_tx : q.output_to_tx ≡ p.output_to_tx
    pub input_to_tx : q.input_to_tx ≡ p.input_to_tx
    pub total_size : q.total_size ≡ p.total_size

  Keeps-refl : (p : Mempool P) → Keeps p p
  Keeps-refl p = record {
    config = refl;
    transactions = refl;
    output_to_tx = refl;
    input_to_tx = refl;
    total_size = refl;
  }

  Keeps-trans : (p q r : Mempool P) → Keeps p q → Keeps q r → Keeps p r
  Keeps-trans p q r a b = ground arith

  reweigh-IsIndexed :
      (p : Mempool P) (k : ℕ) (w : WeightedTxId) (delta : ℕ)
      → get k p.registry ≡ some w
      → IsIndexed P p
      → IsIndexed P (reweigh P p k w delta)
  unfolding reweigh
  reweigh-IsIndexed p k w delta e v =
      let w' : WeightedTxId = record w { weight = add_i64 w.weight delta } in
      let rest = Order.remove w p.weight_order in
      let name = v.named k w e in
      let stands : entry w.tx_id p.weight_order ≡ some w =
        ap (λ j. entry j p.weight_order) name ∙ v.weighed k ∙ e in
      let gone : entry w.tx_id rest ≡ none =
        ground
          (arith, entry-remove w w.tx_id p.weight_order v.ordered stands, ==_iff w.tx_id w.tx_id) in
      record {
        tx_unique = v.tx_unique;
        keyed = v.keyed;
        registered = λ j.
            ground
              (arith, get-insert k j w' p.registry, v.registered j, ==_iff k j, v.registered k);
        named = λ j x g. ground (arith, get-insert k j w' p.registry, v.named j x, ==_iff k j);
        ordered = insert-IsOrdered w' rest gone (remove-IsOrdered w p.weight_order v.ordered);
        weighed = λ j. ground (
          arith,
          entry-insert w' j rest gone,
          entry-remove w j p.weight_order v.ordered stands,
          get-insert k j w' p.registry,
          v.weighed j,
        );
        counted = omega (
          arith,
          length-insert w' rest gone,
          length-remove w p.weight_order v.ordered stands,
          v.counted,
        );
        spent = v.spent;
        created = v.created;
        sized = v.sized;
      }

  reweigh-Keeps :
      (p : Mempool P) (k : ℕ) (w : WeightedTxId) (delta : ℕ) → Keeps p (reweigh P p k w delta)
  unfolding reweigh
  reweigh-Keeps p k w delta = record {
    config = refl;
    transactions = refl;
    output_to_tx = refl;
    input_to_tx = refl;
    total_size = refl;
  }

  -- What an update guarantees.
  abbrev Preserves : Mempool P → Mempool P → Type 0
  Preserves p q = IsIndexed P q × Keeps p q

  update_parent-Preserves :
      (p : Mempool P) (tx : PooledTransaction) (delta k : ℕ) (t : PooledTransaction) (q : Mempool P)
      → IsIndexed P p
      → update_parent P p tx delta k ≡ some (t, q)
      → Preserves p q
  unfolding update_parent
  update_parent-Preserves p tx delta k t q v h = elim (Option-cases (get k p.registry)) [
    | inl e ↦ absurd (ground arith)
    | inr (w, e) ↦
        let same : reweigh P p k w delta ≡ q = ground arith in
        subst (Preserves p) same (reweigh-IsIndexed p k w delta e v, reweigh-Keeps p k w delta)
  ]

  abbrev Updates : (Update P → Update P) → Type 0
  Updates f = (s : Update P) → IsIndexed P s.0 → Preserves s.0 (f s).0

  update_parents-Preserves :
      (rec : PooledTransaction → Update P → Update P)
      → ((t : PooledTransaction) → Updates (rec t))
      → (tx : PooledTransaction) (delta : ℕ) (ids : List ℕ) (p : Mempool P) (n : ℕ) → IsIndexed P p
      → Preserves p (update_parents P rec tx delta ids (p, n)).0
  unfolding update_parents
  update_parents-Preserves rec good tx delta [] p n v = (v, Keeps-refl p)
  update_parents-Preserves rec good tx delta (id ∷ ids) p n v =
      elim (Option-cases (update_parent P p tx delta id)) [
        | inl e ↦ rw (e, update_parents) (update_parents-Preserves rec good tx delta ids p n v)
        | inr ((t, q), e) ↦
            let one = update_parent-Preserves p tx delta id t q v e in
            let s = rec t (q, n) in
            let up = good t (q, n) one.0 in
            let more = update_parents-Preserves rec good tx delta ids s.0 s.1 up.0 in
            rw (e, update_parents)
              (more.0, Keeps-trans p q _ one.1 (Keeps-trans q s.0 _ up.1 more.1))
      ]

  update_family_recursive-Preserves :
      (delta left : ℕ) (tx : PooledTransaction) → Updates (update_family_recursive P delta left tx)
  unfolding update_family_recursive
  update_family_recursive-Preserves delta zero tx s v = (v, Keeps-refl s.0)
  update_family_recursive-Preserves delta (suc left) tx (p, n) v =
      elim (Bool-cases (ltb max_parent_scan_time_ms (P.elapsed n))) [
        | inl late ↦ rw (late, update_family_recursive) (v, Keeps-refl p)
        | inr early ↦
            rw (early, update_family_recursive)
              (update_parents-Preserves (update_family_recursive P delta left)
                (update_family_recursive-Preserves delta left) tx delta
                (P.hash_order (parent_ids tx.inputs p.output_to_tx)) p (n + 1) v)
      ]

  -- A weight update, however long it runs and in whatever order it meets the parents, changes
  -- weights alone and leaves agreeing indexes.
  pub update_family-IsIndexed :
      (p : Mempool P) (tx : PooledTransaction) (delta : ℕ)
      → IsIndexed P p
      → IsIndexed P (update_family P p tx delta) × Keeps p (update_family P p tx delta)
  unfolding update_family
  update_family-IsIndexed p tx delta v = update_family_recursive-Preserves delta _ tx (p, 0) v
