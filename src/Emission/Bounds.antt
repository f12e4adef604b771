-- ===== src/Emission/Bounds.antt =====
-- What the schedule pays at one height (reemission/rules.rs).
use ergo_rust_node.Prelude.{ℕ, ◌+◌, ◌*◌, ◌≤◌, ◌<◌, ◌≡◌, ◌⊎◌, arith, u32_mod, mul_u64, add_u64}
use ergo_rust_node.Emission.{
  ReemissionSettings, new, mainnet, initial_reward, min_reward, coins_in_one_erg,
  emission_at_height, reemission_for_height, miner_reward_at_height, claimable_reemission_at_height,
  total_miner_income_at_height,
}

-- Every block after genesis pays between 3 ERG and 75 ERG.
pub emission_bounds :
    (h : ℕ) → 0 < h → (min_reward ≤ emission_at_height h) × (emission_at_height h ≤ initial_reward)
unfolding emission_at_height
emission_bounds h p = ground arith

-- At block heights (32 bits) a later block never pays more than an earlier one.
pub emission_antitone :
    (h k : ℕ) → 0 < h → h ≤ k → k < u32_mod → emission_at_height k ≤ emission_at_height h
unfolding emission_at_height mul_u64
emission_antitone h k p q b = ground arith

-- Under any settings and at any height the miner's reward and the re-emission contribution add up
-- to the emission.
pub miner_reward-add-reemission :
    (s : ReemissionSettings) (h : ℕ)
    → miner_reward_at_height (new s) h + reemission_for_height (new s) h ≡ emission_at_height h
unfolding miner_reward_at_height reemission_for_height add_u64
miner_reward-add-reemission s h = ground arith

-- After genesis, under any settings, the miner keeps at least 3 ERG and the contribution is at most
-- 12 ERG, and before the activation height it is nothing.
pub reemission_bounds :
    (s : ReemissionSettings) (h : ℕ)
    → 0 < h
    → (min_reward ≤ miner_reward_at_height (new s) h)
      × (reemission_for_height (new s) h ≤ 12 * coins_in_one_erg)
      × ((s.activation_height ≤ h) ⊎ (reemission_for_height (new s) h ≡ 0))
unfolding miner_reward_at_height reemission_for_height emission_at_height add_u64
reemission_bounds s h p = (ground arith, ground arith, ground arith)

-- From the mainnet re-emission start on, at block heights, nothing is charged any more and a block
-- brings its miner exactly 6 ERG: the minimum reward and the claim.
pub mainnet_income_after_start :
    (h : ℕ)
    → mainnet.reemission_start_height ≤ h
    → h < u32_mod
    → (reemission_for_height (new mainnet) h ≡ 0)
      × (total_miner_income_at_height (new mainnet) h ≡ 6 * coins_in_one_erg)
unfolding total_miner_income_at_height miner_reward_at_height reemission_for_height
    emission_at_height claimable_reemission_at_height add_u64 mul_u64
mainnet_income_after_start h p b = ground arith
