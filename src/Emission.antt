-- ===== src/Emission.antt =====
-- The emission schedule and the re-emission rules (EIP-27) of
-- crates/ergo-consensus/src/reemission, and the emission handler of
-- crates/ergo-api/src/handlers/emission.rs. Heights are below 2 ^ 32 where they come from a block.
pub mod Bounds
pub mod Issued
mod Tests
use ergo_rust_node.Prelude.{
  ℕ, ◌+◌, ◌-◌, ◌*◌, ◌/◌, ◌≤◌, ◌<◌, min, Bool, true, false, ◌&&◌, Option, none, List, ltb, leb, ◌==◌,
  if◌then◌else◌, add_u64, mul_u64, u32_mod,
}

abbrev pub coins_in_one_erg : ℕ
coins_in_one_erg = 1_000_000_000

abbrev pub initial_reward : ℕ
initial_reward = 75 * coins_in_one_erg

abbrev pub reward_reduction : ℕ
reward_reduction = 3 * coins_in_one_erg

abbrev pub reduction_period : ℕ
reduction_period = 64_800

abbrev pub fixed_rate_period : ℕ
fixed_rate_period = 525_600

abbrev pub min_reward : ℕ
min_reward = 3 * coins_in_one_erg

abbrev pub total_supply : ℕ
total_supply = 97_739_924 * coins_in_one_erg

-- A 32-byte id is the number that its bytes spell, most significant first.
pub record ReemissionSettings : Type 0 where
  pub check_reemission_rules : Bool
  pub emission_nft_id : ℕ
  pub reemission_token_id : ℕ
  pub reemission_nft_id : ℕ
  pub activation_height : ℕ
  pub reemission_start_height : ℕ
  pub injection_box_bytes : Option (List ℕ)

abbrev pub mainnet : ReemissionSettings
mainnet = record {
  check_reemission_rules = true;
  emission_nft_id = 0x20fa2bf23962cdf51b07722d6237c0c7b8a44f78856c0f7ec308dc1ef1a92a51;
  reemission_token_id = 0xd9a2cc8a09abfaed87afacfbb7daee79a6b26f10c6613fc13d3f3953e5521d1a;
  reemission_nft_id = 0xd6b2a40fbf32a30a5d5ee44c0c9e9cafc8ce9d42e7e1c21e2b2a0b20b80da9c3;
  activation_height = 777_217;
  reemission_start_height = 2_080_800;
  injection_box_bytes = none;
}

abbrev pub testnet : ReemissionSettings
testnet = record {
  check_reemission_rules = true;
  emission_nft_id = 0;
  reemission_token_id = 0;
  reemission_nft_id = 0;
  activation_height = 188_001;
  reemission_start_height = 2_080_800;
  injection_box_bytes = none;
}

abbrev pub disabled : ReemissionSettings
disabled = record {
  check_reemission_rules = false;
  emission_nft_id = 0;
  reemission_token_id = 0;
  reemission_nft_id = 0;
  activation_height = u32_mod - 1;
  reemission_start_height = u32_mod - 1;
  injection_box_bytes = none;
}

pub is_active : ReemissionSettings → ℕ → Bool
is_active s height = s.check_reemission_rules && leb s.activation_height height

pub can_claim_reemission : ReemissionSettings → ℕ → Bool
can_claim_reemission s height = s.check_reemission_rules && leb s.reemission_start_height height

pub record ReemissionRules : Type 0 where
  pub settings : ReemissionSettings
  pub basic_charge_amount : ℕ
  pub reemission_reward_per_block : ℕ

abbrev pub new : ReemissionSettings → ReemissionRules
new settings = record {
  settings = settings;
  basic_charge_amount = 12 * coins_in_one_erg;
  reemission_reward_per_block = 3 * coins_in_one_erg;
}

-- The branch of `emission_at_height` behind the fixed rate period.
decreasing_reward : ℕ → ℕ
decreasing_reward blocks_after_fixed =
    let reduction = mul_u64 (blocks_after_fixed / reduction_period) reward_reduction in
    if leb (initial_reward - min_reward) reduction then min_reward else initial_reward - reduction

pub emission_at_height : ℕ → ℕ
unfolding decreasing_reward
emission_at_height height =
    if height == 0
    then 0
    else if leb height fixed_rate_period
    then initial_reward
    else decreasing_reward (height - fixed_rate_period)

pub reemission_for_height : ReemissionRules → ℕ → ℕ
reemission_for_height rules height =
    let emission = emission_at_height height in
    let threshold = add_u64 rules.basic_charge_amount min_reward in
    let active = leb rules.settings.activation_height height in
    if active && leb threshold emission
    then rules.basic_charge_amount
    else if active && ltb min_reward emission
    then emission - min_reward
    else 0

-- `saturating_sub` is the subtraction on ℕ.
pub miner_reward_at_height : ReemissionRules → ℕ → ℕ
miner_reward_at_height rules height = emission_at_height height - reemission_for_height rules height

pub claimable_reemission_at_height : ReemissionRules → ℕ → ℕ
claimable_reemission_at_height rules height =
    if leb rules.settings.reemission_start_height height
    then rules.reemission_reward_per_block
    else 0

pub total_miner_income_at_height : ReemissionRules → ℕ → ℕ
total_miner_income_at_height rules height =
    add_u64 (miner_reward_at_height rules height) (claimable_reemission_at_height rules height)

-- `(INITIAL_REWARD - MIN_REWARD) / REWARD_REDUCTION`
abbrev pub max_reduction_epochs : ℕ
max_reduction_epochs = (initial_reward - min_reward) / reward_reduction

-- The sum of the arithmetic series over `n` full epochs.
full_epochs_total : ℕ → ℕ
full_epochs_total n =
    if ltb 0 n
    then mul_u64 reduction_period
        (mul_u64 n initial_reward - mul_u64 (mul_u64 reward_reduction n) (n - 1) / 2)
    else 0

-- The three sums behind the fixed rate period: full epochs, the partial epoch, the minimum.
decreasing_total : ℕ → ℕ
unfolding full_epochs_total
decreasing_total blocks_after_fixed =
    let full_epochs = min (blocks_after_fixed / reduction_period) max_reduction_epochs in
    let blocks_in_full_epochs = mul_u64 full_epochs reduction_period in
    let remaining_before_min =
      if ltb full_epochs max_reduction_epochs
      then min (blocks_after_fixed - blocks_in_full_epochs) reduction_period
      else 0 in
    let blocks_at_minimum =
      blocks_after_fixed
      - add_u64 (mul_u64 max_reduction_epochs reduction_period) remaining_before_min in
    let partial_epoch_reward = initial_reward - mul_u64 full_epochs reward_reduction in
    add_u64
      (add_u64 (add_u64 (mul_u64 fixed_rate_period initial_reward) (full_epochs_total full_epochs))
        (mul_u64 remaining_before_min partial_epoch_reward))
      (mul_u64 blocks_at_minimum min_reward)

pub issued_coins_after_height : ℕ → ℕ
issued_coins_after_height height =
    if height == 0
    then 0
    else min
        (if leb height fixed_rate_period
          then mul_u64 height initial_reward
          else decreasing_total (height - fixed_rate_period))
        total_supply

-- The response of the emission handler.
pub record EmissionInfo : Type 0 where
  pub height : ℕ
  pub miner_reward : ℕ
  pub total_coins_issued : ℕ
  pub total_remain_coins : ℕ
  pub reemission_amt : ℕ

pub calculate_emission_info : ReemissionRules → ℕ → EmissionInfo
calculate_emission_info rules height = record {
  height = height;
  miner_reward = miner_reward_at_height rules height;
  total_coins_issued = issued_coins_after_height height;
  total_remain_coins = total_supply - issued_coins_after_height height;
  reemission_amt = reemission_for_height rules height;
}
