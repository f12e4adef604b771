-- ===== src/Mempool/Adding.antt =====
-- `add`: it returns, rejects exactly by its checks, and keeps the pool valid (pool.rs).
use ergo_rust_node.Prelude.{
  ℕ, ◌+◌, ◌*◌, ◌/◌, ◌≤◌, ◌<◌, ◌≡◌, refl, ap, ◌∙◌, inl, inr, ◌⊎◌, true, false, List, [], ◌∷◌, none,
  some, ◌==◌, ==_iff, if◌then◌else◌, length, contains, is_some, arith, Bool-cases, Option-cases,
  Result, ok, err, u64_mod, add_u64, add_u64_lem,
}
use ergo_rust_node.Assoc.{Map, get, insert, total, contains_key, get-insert}
use ergo_rust_node.Mempool.{
  Platform, PooledTransaction, MempoolConfig, Mempool, MempoolError, double_spend, add, add_check,
  first_spent, link, weighted, maybe_evict, too_many, too_big, update_family, new,
}
use ergo_rust_node.Mempool.Indexes.{IsIndexed, link-IsIndexed, bytes_of}
use ergo_rust_node.Mempool.Family.{update_family-IsIndexed}
use ergo_rust_node.Mempool.Eviction.{Shrinks, Shrinks-trans, evict_while-ends}
use ergo_rust_node.Mempool.Order.{entry}

module _ (P : Platform) where
  -- Agreeing indexes, within the limits of the configuration, of which twice the size fits into a
  -- `usize`.
  pub record IsValid (p : Mempool P) : Type 0 where
    pub indexed : IsIndexed P p
    pub few : length p.transactions ≤ p.config.max_transactions
    pub small : p.total_size ≤ p.config.max_size
    pub sane : p.config.max_size * 2 < u64_mod

  too_many-stop : (p : Mempool P) → IsIndexed P p → too_many P p ≡ true → 0 < length p.transactions
  too_many-stop p v h = ground arith

  too_big-stop : (p : Mempool P) → IsIndexed P p → too_big P p ≡ true → 0 < length p.transactions
  too_big-stop p v h = go p.transactions v.sized
    where
      go : (m : Map PooledTransaction) → p.total_size ≡ total bytes_of m → 0 < length m
      go [] e = absurd (ground arith)
      go (x ∷ xs) e = omega arith

  -- Both eviction loops end, and leave the pool within its limits.
  pub maybe_evict-ends :
      (p : Mempool P)
      → p.total_size < u64_mod
      → IsIndexed P p
      → (q : Mempool P) × (maybe_evict P p ≡ some q)
        × Shrinks P p q
        × (length q.transactions ≤ q.config.max_transactions)
        × (q.total_size ≤ q.config.max_size)
  unfolding maybe_evict
  maybe_evict-ends p b v =
      let (q, first, s, few) =
        evict_while-ends P (too_many P) too_many-stop (length p.transactions + 1) p (omega arith) b
          v in
      let (r, second, t, small) =
        evict_while-ends P (too_big P) too_big-stop (length q.transactions + 1) q (omega arith)
          (omega (arith, s.smaller)) s.indexed in
      (
        r,
        rw (first, maybe_evict) second,
        Shrinks-trans P p q r s t,
        ground (arith, t.fewer, ap (λ c. c.max_transactions) t.config),
        ground arith,
      )

  link-transactions :
      (p : Mempool P) (tx : PooledTransaction)
      → ((link P p tx).config ≡ p.config)
        × ((link P p tx).transactions ≡ insert tx.id tx p.transactions)
        × ((link P p tx).total_size ≡ add_u64 p.total_size (length tx.bytes))
  unfolding link
  link-transactions p tx = (refl, refl, refl)

  add_check-none :
      (p : Mempool P) (tx : PooledTransaction)
      → add_check P p tx ≡ none
      → (get tx.id p.transactions ≡ none)
        × (length tx.bytes ≤ p.config.max_size / 10)
        × (first_spent tx.inputs p.input_to_tx ≡ none)
  unfolding add_check contains_key
  add_check-none p tx h = (ground arith, ground arith, ground arith)

  -- What may come out of `add`: an error, the first that the checks find; or a valid pool in which
  -- each id has no transaction, or the one it had, or, for the new id, the new one.
  abbrev pub Outcome : Mempool P → PooledTransaction → Result MempoolError (Mempool P) → Type 0
  Outcome p tx (err e) = add_check P p tx ≡ some e
  Outcome p tx (ok q) =
      (add_check P p tx ≡ none)
      × IsValid q
      × (q.config ≡ p.config)
      × ((k : ℕ)
          → (get k q.transactions ≡ none)
            ⊎ (get k q.transactions ≡ (if tx.id == k then some tx else get k p.transactions)))

  add_linked :
      (p : Mempool P) (tx : PooledTransaction)
      → IsValid p
      → add_check P p tx ≡ none
      → (q : Mempool P) × (add P p tx ≡ some (ok q)) × Outcome p tx (ok q)
  unfolding add
  add_linked p tx v c =
      let (free, fits, unspent) = add_check-none p tx c in
      let room : p.total_size + length tx.bytes < u64_mod = omega (arith, v.small, v.sane) in
      let linked = link-IsIndexed P p tx free unspent room v.indexed in
      let (lc, lt, ls) = link-transactions p tx in
      let up = update_family-IsIndexed P (link P p tx) tx (weighted tx).weight linked in
      let p₁ = update_family P (link P p tx) tx (weighted tx).weight in
      let bound : p₁.total_size < u64_mod =
        omega (arith, up.1.total_size, ls, add_u64_lem p.total_size (length tx.bytes) room) in
      let (q, ended, s, few, small) = maybe_evict-ends p₁ bound up.0 in
      let config : q.config ≡ p.config = s.config ∙ up.1.config ∙ lc in
      (
        q,
        rw (c, ended, add),
        (
          c,
          record {
            indexed = s.indexed;
            few = few;
            small = small;
            sane = omega (arith, v.sane, ap (λ c. c.max_size) config);
          },
          config,
          λ k. ground (
            arith,
            s.pooled k,
            ap (get k) up.1.transactions,
            ap (get k) lt,
            get-insert tx.id k tx p.transactions,
          ),
        ),
      )

  -- On a valid pool `add` returns: the first error that its checks find, or a valid pool of the same
  -- configuration, within its limits, in which each id has no transaction (it was evicted or never
  -- there), or the transaction that it had, or, for the new id, the new transaction.
  pub add-IsValid :
      (p : Mempool P) (tx : PooledTransaction)
      → IsValid p
      → (r : Result MempoolError (Mempool P)) × (add P p tx ≡ some r) × Outcome p tx r
  unfolding add
  add-IsValid p tx v = elim (Option-cases (add_check P p tx)) [
    | inl c ↦ let (q, e, o) = add_linked p tx v c in (ok q, e, o)
    | inr (e, c) ↦ (err e, rw (c, add), c)
  ]

  -- In a valid pool no two transactions spend the same box.
  pub no_double_spend :
      (p : Mempool P) (j k i : ℕ) (t u : PooledTransaction)
      → IsValid p
      → get j p.transactions ≡ some t
      → get k p.transactions ≡ some u
      → contains t.inputs i ≡ true
      → contains u.inputs i ≡ true
      → j ≡ k
  no_double_spend p j k i t u v e f c d =
      ground (arith, v.indexed.spent i j, v.indexed.spent i k, Option-cases (get i p.input_to_tx))

  first_spent-finds :
      (is : List ℕ) (m : Map ℕ) (i : ℕ)
      → contains is i ≡ true
      → is_some (get i m) ≡ true
      → (j : ℕ) × (first_spent is m ≡ some j) × (contains is j ≡ true) × (is_some (get j m) ≡ true)
  unfolding first_spent contains_key
  first_spent-finds [] m i c s = cc
  first_spent-finds (x ∷ xs) m i c s = elim (Bool-cases (is_some (get x m))) [
    | inl e ↦ (x, ground arith, ground (arith, ==_iff x x), e)
    | inr e ↦
        let other : (x == i) ≡ false = ground (arith, ap (λ y. get y m), ==_iff x i) in
        let (j, found, among, spent) = first_spent-finds xs m i (ground arith) s in
        (j, ground arith, ground arith, spent)
  ]

  -- On a valid pool a new transaction of fitting size and fee that shares an input with a pooled one is
  -- rejected as a double spend, of an input of its own that the pool records as spent.
  pub add-double_spend :
      (p : Mempool P) (tx t : PooledTransaction) (k i : ℕ)
      → IsValid p
      → get k p.transactions ≡ some t
      → contains t.inputs i ≡ true
      → contains tx.inputs i ≡ true
      → get tx.id p.transactions ≡ none
      → length tx.bytes ≤ p.config.max_size / 10
      → P.below (P.div (P.from_u64 tx.fee) (P.from_u64 (length tx.bytes))) p.config.min_fee_per_byte
        ≡ false
      → (j : ℕ) × (add P p tx ≡ some (err (double_spend j)))
        × (contains tx.inputs j ≡ true)
        × (is_some (get j p.input_to_tx) ≡ true)
  unfolding add add_check contains_key
  add-double_spend p tx t k i v e c d f l b =
      let taken : is_some (get i p.input_to_tx) ≡ true = ground (arith, v.indexed.spent i k) in
      let (j, found, among, spent) = first_spent-finds tx.inputs p.input_to_tx i d taken in
      (j, ground arith, among, spent)

  pub new-IsValid : (c : MempoolConfig P) → c.max_size * 2 < u64_mod → IsValid (new P c)
  unfolding new get entry
  new-IsValid c h = record {
    indexed = record {
      tx_unique = tt;
      keyed = λ k t e. cc;
      registered = λ k. refl;
      named = λ k w e. cc;
      ordered = tt;
      weighed = λ k. refl;
      counted = refl;
      spent = λ i k. refl;
      created = λ o k e. cc;
      sized = refl;
    };
    few = omega arith;
    small = omega arith;
    sane = h;
  }
