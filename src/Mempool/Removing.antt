-- ===== src/Mempool/Removing.antt =====
-- Removals: one id, a block's transactions and conflicts, expired transactions (pool.rs).
use ergo_rust_node.Prelude.{
  ℕ, ◌+◌, ◌≡◌, refl, ap, ◌∙◌, inl, inr, List, [], ◌∷◌, none, ◌==◌, ==_iff, if◌then◌else◌, contains,
  arith, Bool-cases, Option-cases, err,
}
use ergo_rust_node.Assoc.{get, get-erase}
use ergo_rust_node.Mempool.{Platform, Mempool, not_found, remove}
use ergo_rust_node.Mempool.Queries.{counted, remove_counted}
use ergo_rust_node.Mempool.Eviction.{Shrinks, remove_pooled, remove-Shrinks}
use ergo_rust_node.Mempool.Adding.{IsValid}

module _ (P : Platform) where
  pub Shrinks-IsValid : (p q : Mempool P) → IsValid P p → Shrinks P p q → IsValid P q
  Shrinks-IsValid p q v s =
      let n = ap (λ c. c.max_transactions) s.config in
      let m = ap (λ c. c.max_size) s.config in
      record {
        indexed = s.indexed;
        few = omega (arith, n, s.fewer, v.few);
        small = omega (arith, m, s.smaller, v.small);
        sane = omega (arith, m, v.sane);
      }

  -- The removal of an id that is not pooled is refused, and nothing else happens.
  pub remove_absent :
      (p : Mempool P) (k : ℕ) → get k p.transactions ≡ none → remove P p k ≡ err (not_found k)
  unfolding remove
  remove_absent p k e = rw (e, remove)

  -- One removal of a loop.
  counted-erases :
      (k : ℕ) (p : Mempool P) (n : ℕ)
      → IsValid P p
      → (q : Mempool P) × (m : ℕ) × (counted P (p, n) (remove P p k) ≡ (q, m))
        × IsValid P q
        × (q.config ≡ p.config)
        × ((j : ℕ) → get j q.transactions ≡ (if k == j then none else get j p.transactions))
  unfolding counted
  counted-erases k p n v = elim (Option-cases (get k p.transactions)) [
    | inl e ↦ (
      p,
      n,
      rw (remove_absent p k e, counted) refl,
      v,
      refl,
      λ j. elim (Bool-cases (k == j)) [
        | inl i ↦ ground (arith, e, ap (λ i. get i p.transactions) ((==_iff k j).0 i))
        | inr i ↦ ground arith
      ],
    )
    | inr (tx, e) ↦
        let (q, removed, u, c, t) =
          remove_pooled P p k tx e (omega (arith, v.small, v.sane)) v.indexed in
        let s = remove-Shrinks P p q k tx e v.indexed u c t in
        (
          q,
          n + 1,
          rw (removed, counted) refl,
          Shrinks-IsValid p q v s.0,
          c,
          λ j. ap (get j) t ∙ get-erase k j p.transactions,
        )
  ]

  -- A loop of removals takes out the listed transactions and leaves the others.
  pub remove_counted-erases :
      (ids : List ℕ) (p : Mempool P) (n : ℕ)
      → IsValid P p
      → (q : Mempool P) × (m : ℕ) × (remove_counted P ids (p, n) ≡ (q, m))
        × IsValid P q
        × (q.config ≡ p.config)
        × ((j : ℕ) → get j q.transactions ≡ (if contains ids j then none else get j p.transactions))
  unfolding remove_counted
  remove_counted-erases [] p n v = (p, n, refl, v, refl, λ j. refl)
  remove_counted-erases (k ∷ ids) p n v =
      let (q, m, one, u, c, t) = counted-erases k p n v in
      let (r, l, more, w, d, s) = remove_counted-erases ids q m u in
      (r, l, rw (one) more, w, d ∙ c, λ j. ground (arith, s j, t j))
