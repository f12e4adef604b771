-- ===== src/Mempool/Indexes.antt =====
-- The indexes of the pool agree with its transactions; linking and unlinking keep that (pool.rs).
use ergo_rust_node.Prelude.{
  ℕ, ◌+◌, ◌<◌, ◌≡◌, ap, ◌∙◌, inl, inr, Bool, true, false, List, [], ◌∷◌, Option, none, some, ◌==◌,
  ==_iff, length, contains, add_u64_lem, sub_u64, u64_mod, is_some, arith, Bool-cases, Option-cases,
}
use ergo_rust_node.Assoc.{
  Map, get, insert, erase, contains_key, insert_all, erase_all, Unique, total, get-insert,
  get-erase, get-insert_all, get-erase_all, insert-Unique, erase-Unique, total-insert_new,
  total-erase, length-insert_new, length-erase,
}
use ergo_rust_node.Mempool.{
  Platform, PooledTransaction, Mempool, link, unlink, weighted, first_spent,
}
use ergo_rust_node.Mempool.Order.{WeightedTxId, entry, new as new_weighted}
use ergo_rust_node.Mempool.Order.Laws.{
  IsOrdered, entry-insert, entry-remove, length-insert, length-remove, insert-IsOrdered,
  remove-IsOrdered,
}

-- Whether a recorded spender (or creator) is the transaction, and whether a transaction spends
-- (or creates) the box.
abbrev pub is_id : ℕ → Option ℕ → Bool
is_id k none = false
is_id k (some j) = j == k

abbrev pub spends : ℕ → Option PooledTransaction → Bool
spends i none = false
spends i (some t) = contains t.inputs i

abbrev pub creates : ℕ → Option PooledTransaction → Bool
creates o none = false
creates o (some t) = contains t.outputs o

abbrev pub bytes_of : PooledTransaction → ℕ
bytes_of t = length t.bytes

-- No input of the list is spent.
first_spent-none :
    (is : List ℕ) (m : Map ℕ) (i : ℕ)
    → first_spent is m ≡ none
    → contains is i ≡ true
    → get i m ≡ none
unfolding first_spent contains_key
first_spent-none [] m i h c = cc
first_spent-none (j ∷ js) m i h c = elim (Bool-cases (j == i)) [
  | inl e ↦ ground (arith, ap (λ x. get x m) ((==_iff j i).0 e))
  | inr e ↦ ground (arith, first_spent-none js m i)
]

module _ (P : Platform) where
  -- Transactions stand under their ids; exactly they are registered, under their ids; the order
  -- holds exactly the registered weights, each once; the input index is exactly the spending
  -- relation; whoever is recorded as a creator creates; the size is the sum of the sizes.
  pub record IsIndexed (p : Mempool P) : Type 0 where
    pub tx_unique : Unique p.transactions
    pub keyed : (k : ℕ) (t : PooledTransaction) → get k p.transactions ≡ some t → t.id ≡ k
    pub registered : (k : ℕ) → is_some (get k p.registry) ≡ is_some (get k p.transactions)
    pub named : (k : ℕ) (w : WeightedTxId) → get k p.registry ≡ some w → w.tx_id ≡ k
    pub ordered : IsOrdered p.weight_order
    pub weighed : (k : ℕ) → entry k p.weight_order ≡ get k p.registry
    pub counted : length p.weight_order ≡ length p.transactions
    pub spent : (i k : ℕ) → is_id k (get i p.input_to_tx) ≡ spends i (get k p.transactions)
    pub created :
        (o k : ℕ) → is_id k (get o p.output_to_tx) ≡ true → creates o (get k p.transactions) ≡ true
    pub sized : p.total_size ≡ total bytes_of p.transactions

  link_spent :
      (p : Mempool P) (tx : PooledTransaction)
      → get tx.id p.transactions ≡ none
      → first_spent tx.inputs p.input_to_tx ≡ none
      → IsIndexed p
      → (i k : ℕ)
      → is_id k (get i (insert_all tx.inputs tx.id p.input_to_tx))
        ≡ spends i (get k (insert tx.id tx p.transactions))
  link_spent p tx f g v i k = ground (
    arith,
    get-insert_all tx.inputs i tx.id p.input_to_tx,
    get-insert tx.id k tx p.transactions,
    first_spent-none tx.inputs p.input_to_tx i g,
    v.spent i k,
  )

  link_created :
      (p : Mempool P) (tx : PooledTransaction)
      → get tx.id p.transactions ≡ none
      → IsIndexed p
      → (o k : ℕ) → is_id k (get o (insert_all tx.outputs tx.id p.output_to_tx)) ≡ true
      → creates o (get k (insert tx.id tx p.transactions)) ≡ true
  link_created p tx f v o k h = ground (
    arith,
    get-insert_all tx.outputs o tx.id p.output_to_tx,
    get-insert tx.id k tx p.transactions,
    v.created o k,
  )

  absent_entry :
      (p : Mempool P) (k : ℕ)
      → IsIndexed p
      → get k p.transactions ≡ none
      → entry k p.weight_order ≡ none
  absent_entry p k v f = ground (arith, v.weighed k, v.registered k)

  -- A transaction that passes the checks is linked into agreeing indexes.
  pub link-IsIndexed :
      (p : Mempool P) (tx : PooledTransaction)
      → get tx.id p.transactions ≡ none
      → first_spent tx.inputs p.input_to_tx ≡ none
      → p.total_size + length tx.bytes < u64_mod
      → IsIndexed p
      → IsIndexed (link P p tx)
  unfolding link new_weighted
  link-IsIndexed p tx f g b v =
      let w = weighted tx in
      let no_entry = absent_entry p tx.id v f in
      record {
        tx_unique = insert-Unique tx.id tx p.transactions v.tx_unique;
        keyed = λ k t e.
            ground (arith, get-insert tx.id k tx p.transactions, v.keyed k t, ==_iff tx.id k);
        registered = λ k. ground (
          arith,
          get-insert tx.id k tx p.transactions,
          get-insert tx.id k w p.registry,
          v.registered k,
        );
        named =
            λ k x e. ground (arith, get-insert tx.id k w p.registry, v.named k x, ==_iff tx.id k);
        ordered = insert-IsOrdered w p.weight_order no_entry v.ordered;
        weighed = λ k. ground (
          arith,
          entry-insert w k p.weight_order no_entry,
          get-insert tx.id k w p.registry,
          v.weighed k,
        );
        counted = omega (
          arith,
          length-insert w p.weight_order no_entry,
          length-insert_new tx.id tx p.transactions f,
          v.counted,
        );
        spent = link_spent p tx f g v;
        created = link_created p tx f v;
        sized = omega (
          arith,
          add_u64_lem p.total_size (length tx.bytes) b,
          total-insert_new bytes_of tx.id tx p.transactions f,
          v.sized,
        );
      }

  unlink_spent :
      (p : Mempool P) (j : ℕ) (tx : PooledTransaction)
      → get j p.transactions ≡ some tx
      → IsIndexed p
      → (i k : ℕ)
      → is_id k (get i (erase_all tx.inputs p.input_to_tx))
        ≡ spends i (get k (erase j p.transactions))
  unlink_spent p j tx f v i k = ground (
    arith,
    get-erase_all tx.inputs i p.input_to_tx,
    get-erase j k p.transactions,
    v.spent i k,
    v.spent i j,
  )

  unlink_created :
      (p : Mempool P) (j : ℕ) (tx : PooledTransaction)
      → get j p.transactions ≡ some tx
      → IsIndexed p
      → (o k : ℕ) → is_id k (get o (erase_all tx.outputs p.output_to_tx)) ≡ true
      → creates o (get k (erase j p.transactions)) ≡ true
  unlink_created p j tx f v o k h = ground (
    arith,
    get-erase_all tx.outputs o p.output_to_tx,
    get-erase j k p.transactions,
    v.created o k,
  )

  sub_u64_lem : (a b c : ℕ) → c + b ≡ a → a < u64_mod → sub_u64 a b ≡ c
  unfolding sub_u64
  sub_u64_lem a b c h k = omega arith

  -- A pooled transaction is registered, and its weight is in the order.
  pub registration :
      (p : Mempool P) (k : ℕ) (tx : PooledTransaction)
      → get k p.transactions ≡ some tx
      → IsIndexed p
      → (w : WeightedTxId) × (get k p.registry ≡ some w)
        × (w.tx_id ≡ k)
        × (entry w.tx_id p.weight_order ≡ some w)
  registration p k tx f v = elim (Option-cases (get k p.registry)) [
    | inl e ↦ absurd (ground (arith, v.registered k))
    | inr (w, e) ↦
        (w, e, v.named k w e, ap (λ j. entry j p.weight_order) (v.named k w e) ∙ v.weighed k ∙ e)
  ]

  -- A transaction that is taken out leaves agreeing indexes.
  pub unlink-IsIndexed :
      (p : Mempool P) (k : ℕ) (tx : PooledTransaction)
      → get k p.transactions ≡ some tx
      → p.total_size < u64_mod
      → IsIndexed p
      → IsIndexed (unlink P p k tx)
  unfolding unlink
  unlink-IsIndexed p k tx f b v =
      let (w, e, name, stands) = registration p k tx f v in
      rw (e, unlink)
        (record {
          tx_unique = erase-Unique k p.transactions v.tx_unique;
          keyed = λ j t g. ground (arith, get-erase k j p.transactions, v.keyed j t);
          registered = λ j.
              ground
                (arith, get-erase k j p.transactions, get-erase k j p.registry, v.registered j);
          named = λ j x g. ground (arith, get-erase k j p.registry, v.named j x);
          ordered = remove-IsOrdered w p.weight_order v.ordered;
          weighed = λ j. ground (
            arith,
            entry-remove w j p.weight_order v.ordered stands,
            get-erase k j p.registry,
            v.weighed j,
          );
          counted = omega (
            arith,
            length-remove w p.weight_order v.ordered stands,
            length-erase k tx p.transactions v.tx_unique f,
            v.counted,
          );
          spent = unlink_spent p k tx f v;
          created = unlink_created p k tx f v;
          sized =
              sub_u64_lem p.total_size (length tx.bytes) _
                (omega (arith, total-erase bytes_of k tx p.transactions v.tx_unique f, v.sized)) b;
        })
