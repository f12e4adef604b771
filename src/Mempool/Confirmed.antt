-- ===== src/Mempool/Confirmed.antt =====
-- `remove_confirmed` and `remove_expired`: which transactions stay (pool.rs).
use ergo_rust_node.Prelude.{
  ℕ, ◌+◌, ◌*◌, ◌<◌, ◌≡◌, refl, ap, Bool, true, false, ◌||◌, List, [], ◌∷◌, Option, none, some, ◌==◌,
  inl, inr, ==_iff, if◌then◌else◌, ltb, contains, arith, Bool-cases, Option-cases, ok, u64_mod,
  sub_u64, mul_u64,
}
use mathlib.Core.Path.{subst}
use ergo_rust_node.Assoc.{Map, Unique, get}
use ergo_rust_node.Mempool.{Platform, PooledTransaction, MempoolConfig, Mempool, remove, new, add}
use ergo_rust_node.Mempool.Queries.{
  conflicting, remove_confirmed, expired_ids, remove_expired, clear,
}
use ergo_rust_node.Mempool.Indexes.{spends}
use ergo_rust_node.Mempool.Eviction.{remove_pooled, remove-Shrinks}
use ergo_rust_node.Mempool.Adding.{IsValid, Outcome, add-IsValid, new-IsValid, no_double_spend}
use ergo_rust_node.Mempool.Removing.{remove_counted-erases, remove_absent, Shrinks-IsValid}

-- Whether a transaction spends one of the boxes, and whether it arrived too long ago.
abbrev pub spends_any : List ℕ → Option PooledTransaction → Bool
spends_any [] t = false
spends_any (i ∷ is) t = spends i t || spends_any is t

abbrev pub is_expired : ℕ → ℕ → Option PooledTransaction → Bool
is_expired now expiry_ms none = false
is_expired now expiry_ms (some t) = ltb expiry_ms (sub_u64 now t.arrival_time)

spends_any-none : (is : List ℕ) → spends_any is none ≡ false
spends_any-none [] = refl
spends_any-none (i ∷ is) = spends_any-none is

expired_ids-contains :
    (now e : ℕ) (m : Map PooledTransaction) (k : ℕ)
    → Unique m
    → contains (expired_ids now e m) k ≡ is_expired now e (get k m)
unfolding expired_ids get
expired_ids-contains now e [] k u = refl
expired_ids-contains now e ((j, t) ∷ m) k u = elim (Bool-cases (j == k)) [
  | inl i ↦ ground (arith, expired_ids-contains now e m k, ap (λ x. get x m) ((==_iff j k).0 i))
  | inr i ↦ ground (arith, expired_ids-contains now e m k)
]

module _ (P : Platform) where
  conflicting-contains :
      (p : Mempool P) (tx_ids is : List ℕ) (k : ℕ)
      → IsValid P p
      → contains (conflicting P p tx_ids is) k
        ≡ (if contains tx_ids k then false else spends_any is (get k p.transactions))
  unfolding conflicting
  conflicting-contains p tx_ids [] k v = ground arith
  conflicting-contains p tx_ids (i ∷ is) k v = elim (Option-cases (get i p.input_to_tx)) [
    | inl e ↦ ground (arith, v.indexed.spent i k, conflicting-contains p tx_ids is k v)
    | inr (j, e) ↦ elim (Bool-cases (j == k)) [
      | inl s ↦ ground (
        arith,
        v.indexed.spent i k,
        conflicting-contains p tx_ids is k v,
        ap (contains tx_ids) ((==_iff j k).0 s),
      )
      | inr s ↦ ground (arith, v.indexed.spent i k, conflicting-contains p tx_ids is k v)
    ]
  ]

  -- `remove_confirmed` keeps a valid pool valid and takes out exactly the confirmed transactions and
  -- those that spend one of the spent boxes.
  pub remove_confirmed_lem :
      (p : Mempool P) (tx_ids spent_inputs : List ℕ)
      → IsValid P p
      → IsValid P (remove_confirmed P p tx_ids spent_inputs).0
        × ((k : ℕ)
            → get k (remove_confirmed P p tx_ids spent_inputs).0.transactions ≡ (
                if contains tx_ids k || spends_any spent_inputs (get k p.transactions)
                then none
                else get k p.transactions))
  unfolding remove_confirmed
  remove_confirmed_lem p tx_ids spent_inputs v =
      let (q, m, first, u, c, t) = remove_counted-erases P tx_ids p 0 v in
      let (r, l, second, w, d, s) =
        remove_counted-erases P (conflicting P q tx_ids spent_inputs) q m u in
      rw (first, remove_confirmed, second)
        (
          w,
          λ k. ground (
            arith,
            s k,
            t k,
            conflicting-contains q tx_ids spent_inputs k u,
            spends_any-none spent_inputs,
          ),
        )

  -- `remove_expired` keeps a valid pool valid and takes out exactly the transactions that arrived
  -- longer ago than the configuration allows, in the wrapping arithmetic of the code.
  pub remove_expired_lem :
      (p : Mempool P) (now : ℕ)
      → IsValid P p
      → IsValid P (remove_expired P p now)
        × ((k : ℕ)
            → get k (remove_expired P p now).transactions ≡ (
                if is_expired now (mul_u64 p.config.tx_expiry_secs 1000) (get k p.transactions)
                then none
                else get k p.transactions))
  unfolding remove_expired
  remove_expired_lem p now v =
      let late = mul_u64 p.config.tx_expiry_secs 1000 in
      let (q, m, ran, u, c, t) =
        remove_counted-erases P (expired_ids now late p.transactions) p 0 v in
      rw (ran, remove_expired)
        (
          u,
          λ k.
              ground
                (arith, t k, expired_ids-contains now late p.transactions k v.indexed.tx_unique),
        )

  -- A pooled transaction whose arrival time lies ahead of the clock expires at once, unless it lies
  -- so far ahead that the wrapped age is within the limit.
  pub remove_expired_ahead :
      (p : Mempool P) (now k : ℕ) (t : PooledTransaction)
      → IsValid P p
      → get k p.transactions ≡ some t
      → now < t.arrival_time
      → t.arrival_time < u64_mod
      → mul_u64 p.config.tx_expiry_secs 1000 + t.arrival_time < u64_mod + now
      → get k (remove_expired P p now).transactions ≡ none
  unfolding sub_u64
  remove_expired_ahead p now k t v e a b c =
      let gone = (remove_expired_lem p now v).1 k in ground (arith, gone)

  clear-IsValid : (p : Mempool P) → IsValid P p → IsValid P (clear P p)
  unfolding clear new
  clear-IsValid p v = new-IsValid P p.config v.sane

  -- The pools that calls lead to: each operation that changes the pool, when it succeeds.
  pub data Reach : Mempool P → Mempool P → Type 0 where
    done : {p : Mempool P} → Reach p p
    added :
        {p q r : Mempool P}
        → (tx : PooledTransaction) → add P p tx ≡ some (ok q)
        → Reach q r
        → Reach p r
    removed :
        {p q r : Mempool P} {tx : PooledTransaction}
        → (k : ℕ) → remove P p k ≡ ok (tx, q)
        → Reach q r
        → Reach p r
    confirmed :
        {p r : Mempool P}
        → (tx_ids spent : List ℕ) → Reach (remove_confirmed P p tx_ids spent).0 r
        → Reach p r
    expired : {p r : Mempool P} → (now : ℕ) → Reach (remove_expired P p now) r → Reach p r
    cleared : {p r : Mempool P} → Reach (clear P p) r → Reach p r

  added-IsValid :
      (p q : Mempool P) (tx : PooledTransaction)
      → IsValid P p
      → add P p tx ≡ some (ok q)
      → IsValid P q
  added-IsValid p q tx v e =
      let (r, f, o) = add-IsValid P p tx v in
      let same : r ≡ ok q = cc in (subst (Outcome P p tx) same o).1

  removed-IsValid :
      (p q : Mempool P) (k : ℕ) (tx : PooledTransaction)
      → IsValid P p
      → remove P p k ≡ ok (tx, q)
      → IsValid P q
  removed-IsValid p q k tx v e = elim (Option-cases (get k p.transactions)) [
    | inl f ↦ absurd (ground (arith, remove_absent P p k f))
    | inr (t, f) ↦
        let (r, g, u, c, s) = remove_pooled P p k t f (omega (arith, v.small, v.sane)) v.indexed in
        let small = remove-Shrinks P p r k t f v.indexed u c s in
        let same : r ≡ q = cc in subst (IsValid P) same (Shrinks-IsValid P p r v small.0)
  ]

  pub Reach-IsValid_pool : (p q : Mempool P) → IsValid P p → Reach p q → IsValid P q
  Reach-IsValid_pool p q v done = v
  Reach-IsValid_pool p q v (added tx e r) = Reach-IsValid_pool _ q (added-IsValid p _ tx v e) r
  Reach-IsValid_pool p q v (removed k e r) = Reach-IsValid_pool _ q (removed-IsValid p _ k _ v e) r
  Reach-IsValid_pool p q v (confirmed ids spent r) =
      Reach-IsValid_pool _ q (remove_confirmed_lem p ids spent v).0 r
  Reach-IsValid_pool p q v (expired now r) = Reach-IsValid_pool _ q (remove_expired_lem p now v).0 r
  Reach-IsValid_pool p q v (cleared r) = Reach-IsValid_pool _ q (clear-IsValid p v) r

  -- After any sequence of successful calls on a new pool, whose doubled size limit fits a u64, no two
  -- of its transactions spend the same box.
  pub no_double_spend_reached :
      (c : MempoolConfig P) (p : Mempool P) (j k i : ℕ) (t u : PooledTransaction)
      → c.max_size * 2 < u64_mod
      → Reach (new P c) p
      → get j p.transactions ≡ some t
      → get k p.transactions ≡ some u
      → contains t.inputs i ≡ true
      → contains u.inputs i ≡ true
      → j ≡ k
  no_double_spend_reached c p j k i t u sane r =
      no_double_spend P p j k i t u (Reach-IsValid_pool (new P c) p (new-IsValid P c sane) r)
