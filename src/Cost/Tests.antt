-- ===== src/Cost/Tests.antt =====
-- The theorems at a small accumulator (cost.rs).
use ergo_rust_node.Prelude.{◌≡◌, refl, true, [], is_some, add_u64, mul_u64}
use ergo_rust_node.Cost.{
  CostAccumulator, new, for_transaction, for_block, add, add_unchecked, is_exceeded, remaining,
  reset, would_exceed, new_result, exceeds_tx_limit, calculate_base_cost, estimate_tx_cost,
}

program :
    (remaining (add for_transaction 600_000).0 ≡ 400_000)
    × (is_some (add (add for_transaction 600_000).0 600_000).1 ≡ true)
    × (would_exceed for_block 9_000_000 ≡ true)
    × ((reset (add_unchecked for_block 5)).current ≡ 0)
    × (estimate_tx_cost 2 2 0 300 ≡ 6_800)
    × (exceeds_tx_limit (new_result 900_000 50_000 60_000 []) ≡ true)
unfolding new for_transaction for_block add add_unchecked is_exceeded remaining reset would_exceed
    new_result exceeds_tx_limit calculate_base_cost estimate_tx_cost add_u64 mul_u64
program = (refl, refl, refl, refl, refl, refl)

abbrev acc : CostAccumulator
acc = record { current = 10; limit = 100 }
