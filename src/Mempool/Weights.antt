-- ===== src/Mempool/Weights.antt =====
-- `get_by_weight`: the transactions in the order of their weights (pool.rs).
use ergo_rust_node.Prelude.{
  ℕ, zero, suc, ◌≡◌, refl, ap, min, true, List, [], ◌∷◌, map, some, inl, inr, ==_refl, take, length,
  length-take, is_some, arith, Option-cases, All,
}
use ergo_rust_node.Assoc.{Map, get}
use ergo_rust_node.Mempool.{Platform, PooledTransaction, Mempool}
use ergo_rust_node.Mempool.Queries.{get_by_weight, filter_map}
use ergo_rust_node.Mempool.Adding.{IsValid}
use ergo_rust_node.Mempool.Order.{WeightedTxId, entry}
use ergo_rust_node.Mempool.Order.Laws.{IsOrdered}

-- Each weighted id of the list has a transaction, under its own id.
HasTransaction : Map PooledTransaction → WeightedTxId → Type 0
HasTransaction m w = (t : PooledTransaction) × (get w.tx_id m ≡ some t) × (t.id ≡ w.tx_id)

filter_map-all :
    (m : Map PooledTransaction) (xs : List WeightedTxId)
    → All (HasTransaction m) xs
    → map (λ t. t.id) (filter_map (λ w. get w.tx_id m) xs) ≡ map (λ w. w.tx_id) xs
unfolding HasTransaction
filter_map-all m [] a = refl
filter_map-all m (x ∷ xs) a =
    let (t, e, i) = a.0 in let rest = filter_map-all m xs a.1 in rw (e, filter_map, map) cc

length-map {ℓ κ} :
    {A : Type ℓ} {B : Type κ} (f : A → B) (xs : List A) → length (map f xs) ≡ length xs
length-map f [] = refl
length-map f (x ∷ xs) = ap suc (length-map f xs)

All-take {ℓ κ} : {A : Type ℓ} (Q : A → Type κ) (n : ℕ) (xs : List A) → All Q xs → All Q (take n xs)
All-take Q zero xs a = tt
All-take Q (suc n) [] a = tt
All-take Q (suc n) (x ∷ xs) a = (a.0, All-take Q n xs a.1)

IsOrdered-take : (n : ℕ) (xs : List WeightedTxId) → IsOrdered xs → IsOrdered (take n xs)
IsOrdered-take zero xs o = tt
IsOrdered-take (suc n) [] o = tt
IsOrdered-take (suc n) (x ∷ xs) o = (All-take _ n xs o.0, IsOrdered-take n xs o.1)

-- Every member has an entry.
entries_of :
    (xs ys : List WeightedTxId)
    → ((k : ℕ) → is_some (entry k xs) ≡ true → is_some (entry k ys) ≡ true)
    → All (λ w. is_some (entry w.tx_id ys) ≡ true) xs
unfolding entry
entries_of [] ys h = tt
entries_of (x ∷ xs) ys h =
    (h x.tx_id (ground (arith, ==_refl x.tx_id)), entries_of xs ys (λ k e. h k (ground arith)))

module _ (P : Platform) where
  all_pooled :
      (p : Mempool P) (xs : List WeightedTxId)
      → IsValid P p
      → All (λ w. is_some (entry w.tx_id p.weight_order) ≡ true) xs
      → All (HasTransaction p.transactions) xs
  unfolding HasTransaction
  all_pooled p [] v a = tt
  all_pooled p (x ∷ xs) v a = (
    elim (Option-cases (get x.tx_id p.transactions)) [
      | inl e ↦
          absurd (ground (arith, v.indexed.weighed x.tx_id, v.indexed.registered x.tx_id, a.0))
      | inr (t, e) ↦ (t, e, v.indexed.keyed x.tx_id t e)
    ],
    all_pooled p xs v a.1,
  )

  -- Of a valid pool `get_by_weight` returns as many transactions as asked for, or all if there are
  -- fewer: those at the start of the order, which is decreasing in weight, then increasing in id.
  pub get_by_weight_lem :
      (p : Mempool P) (limit : ℕ)
      → IsValid P p
      → (length (get_by_weight P p limit) ≡ min limit (length p.transactions))
        × (map (λ t. t.id) (get_by_weight P p limit)
            ≡ map (λ w. w.tx_id) (take limit p.weight_order))
        × IsOrdered (take limit p.weight_order)
  unfolding get_by_weight
  get_by_weight_lem p limit v =
      let listed =
        all_pooled p p.weight_order v (entries_of p.weight_order p.weight_order (λ k e. e)) in
      let same =
        filter_map-all p.transactions (take limit p.weight_order)
          (All-take _ limit p.weight_order listed) in
      (
        omega (
          arith,
          length-map (λ t. t.id) (get_by_weight P p limit),
          ap length same,
          length-map (λ w. w.tx_id) (take limit p.weight_order),
          length-take limit p.weight_order,
          v.indexed.counted,
        ),
        same,
        IsOrdered-take limit p.weight_order v.indexed.ordered,
      )
