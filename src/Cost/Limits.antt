-- ===== src/Cost/Limits.antt =====
-- Costs add up within the limit (cost.rs).
use ergo_rust_node.Prelude.{
  ℕ, ◌+◌, ◌-◌, ◌≤◌, ◌<◌, ◌≡◌, refl, inl, inr, List, [], ◌∷◌, Option, none, some, ltb, is_some,
  if◌then◌else◌, u64_mod, arith, Option-cases,
}
use ergo_rust_node.Cost.{
  CostError, CostAccumulator, add, add_unchecked, is_exceeded, saturating_add_u64,
}

-- A series of costs, added until one is refused, as the `?` of the callers does.
unfoldable pub add_all : CostAccumulator → List ℕ → CostAccumulator × Option CostError
add_all acc [] = (acc, none)
add_all acc (c ∷ costs) =
    let (acc', refused) = add acc c in
    let rest = add_all acc' costs in elim refused [ some e ↦ (acc', some e) | none ↦ rest ]

abbrev pub sum_of : List ℕ → ℕ
sum_of [] = 0
sum_of (c ∷ costs) = c + sum_of costs

-- `would_exceed` foretells the refusal, and the limit stays.
add_lem :
    (acc : CostAccumulator) (cost : ℕ)
    → ((add acc cost).0.limit ≡ acc.limit)
      × ((add acc cost).0.current ≡ saturating_add_u64 acc.current cost)
      × (is_some (add acc cost).1 ≡ ltb acc.limit (saturating_add_u64 acc.current cost))
unfolding add add_unchecked is_exceeded
add_lem acc cost = (ground arith, ground arith, ground arith)

-- A series of costs is refused exactly if its sum, with what was there before, is over the limit, and
-- otherwise the accumulator holds the sum; the limit must be below 2 ^ 64 - 1.
pub add_all_lem :
    (acc : CostAccumulator) (costs : List ℕ)
    → acc.limit < u64_mod - 1
    → acc.current ≤ acc.limit
    → (is_some (add_all acc costs).1 ≡ ltb acc.limit (acc.current + sum_of costs))
      × ((if is_some (add_all acc costs).1
            then acc.current + sum_of costs
            else (add_all acc costs).0.current)
          ≡ acc.current + sum_of costs)
unfolding add_all
add_all_lem acc [] h k = (ground arith, ground arith)
add_all_lem acc (c ∷ costs) h k =
    let (limit, current, refused) = add_lem acc c in
    let acc' = (add acc c).0 in
    elim (Option-cases (add acc c).1) [
      | inr (e, i) ↦ rw (i, add_all) (ground (arith, refused, i), refl)
      | inl i ↦
          let low : acc.current + c ≤ acc.limit = ground (arith, refused, i) in
          let here : acc'.current ≡ acc.current + c = ground (arith, current, low) in
          let (all, held) =
            add_all_lem acc' costs (omega (arith, limit, h)) (omega (arith, limit, here, low)) in
          rw (i, add_all) (ground (arith, all, limit, here), ground (arith, held, here))
    ]
