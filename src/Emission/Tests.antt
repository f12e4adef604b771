-- ===== src/Emission/Tests.antt =====
-- The emission theorems at mainnet heights, and runs of the schedule from its unit tests.
use ergo_rust_node.Prelude.{◌+◌, ◌*◌, ◌≡◌, refl, min, arith, mul_u64, add_u64}
use ergo_rust_node.Emission.{
  coins_in_one_erg, total_supply, emission_at_height, issued_coins_after_height, decreasing_total,
  full_epochs_total,
}
use ergo_rust_node.Emission.Issued
use ergo_rust_node.Emission.Issued.{emission_sum, drift}

issued_coins-emission_sum_example :
    issued_coins_after_height 590_400 ≡ min (emission_sum 590_400 + drift 590_400) total_supply
issued_coins-emission_sum_example = Issued.issued_coins-emission_sum 590_400 (omega arith)

-- The first block of the second epoch pays 72 ERG and is counted as 75 ERG.
first_drift :
    (emission_at_height 590_400 ≡ 72 * coins_in_one_erg)
    × (issued_coins_after_height 590_400
        ≡ issued_coins_after_height 590_399 + 75 * coins_in_one_erg)
unfolding emission_at_height issued_coins_after_height decreasing_total full_epochs_total mul_u64
    add_u64
first_drift = (refl, refl)
