-- ===== src/Emission/Issued.antt =====
-- The closed form of `issued_coins_after_height` against the sum of the emissions.
use ergo_rust_node.Prelude.{
  ℕ, zero, suc, ◌+◌, ◌-◌, ◌*◌, ◌/◌, ◌%◌, ◌≤◌, ◌<◌, min, ◌≡◌, refl, ap, arith, u32_mod, mul_u64,
  add_u64, leb, ◌==◌, ==_iff, leb→le, tabulated, tabulated-row,
}
use ergo_rust_node.Emission.Bounds.{miner_reward-add-reemission}
use native.Mathlib.Numerals.{add-one}
use ergo_rust_node.Emission.{
  coins_in_one_erg, ReemissionSettings, new, calculate_emission_info, initial_reward, min_reward,
  reward_reduction, reduction_period, fixed_rate_period, total_supply, decreasing_reward,
  decreasing_total, full_epochs_total, emission_at_height, issued_coins_after_height,
}

-- What the blocks 1 to h pay together.
pub emission_sum : ℕ → ℕ
emission_sum zero = 0
emission_sum (suc h) = emission_sum h + emission_at_height (suc h)

abbrev epoch_reward : ℕ → ℕ
epoch_reward n = initial_reward - n * reward_reduction

-- `full_epochs_total` adds the reward of one more epoch at each step.
full_epochs_total-suc :
    (n : ℕ)
    → n < 24
    → full_epochs_total (n + 1) ≡ full_epochs_total n + reduction_period * epoch_reward n
unfolding full_epochs_total mul_u64 tabulated
full_epochs_total-suc n h =
    let grows = λ (k : ℕ).
      full_epochs_total (k + 1) == full_epochs_total k + reduction_period * epoch_reward k in
    (==_iff _ _).0 (tabulated-row grows 24 n h refl)

abbrev most : ℕ
most = 62_985_600 * coins_in_one_erg

full_epochs_total-le : (n : ℕ) → n < 25 → full_epochs_total n ≤ most
unfolding full_epochs_total mul_u64 tabulated
full_epochs_total-le n h =
    leb→le _ _ (tabulated-row (λ k. leb (full_epochs_total k) most) 25 n h refl)

partial-le :
    (r p : ℕ)
    → r < reduction_period
    → p ≤ initial_reward
    → r * p ≤ reduction_period * initial_reward
partial-le r p h k = grind arith

-- Before the minimum is reached no sum wraps.
decreasing_total_early :
    (b : ℕ)
    → b < 24 * reduction_period
    → decreasing_total b
      ≡ fixed_rate_period * initial_reward
        + full_epochs_total (b / reduction_period)
        + (b % reduction_period) * epoch_reward (b / reduction_period)
unfolding decreasing_total mul_u64 add_u64
decreasing_total_early b h =
    let n = b / reduction_period in
    let e : min (b - n * reduction_period) reduction_period ≡ b % reduction_period = omega arith in
    ground (arith, e, full_epochs_total-le n, partial-le (b % reduction_period) (epoch_reward n))

-- From the minimum on, every block adds the minimum.
decreasing_total_late :
    (b : ℕ)
    → 24 * reduction_period ≤ b
    → b < u32_mod
    → decreasing_total b
      ≡ fixed_rate_period * initial_reward
        + full_epochs_total 24
        + (b - 24 * reduction_period) * min_reward
unfolding decreasing_total full_epochs_total mul_u64 add_u64
decreasing_total_late b h k = ground arith

-- Within an epoch: the partial sum grows by the epoch's reward.
step_within :
    (b : ℕ)
    → b + 1 < 24 * reduction_period
    → b % reduction_period + 1 < reduction_period
    → decreasing_total (b + 1) ≡ decreasing_total b + decreasing_reward (b + 1)
unfolding decreasing_reward mul_u64
step_within b h k =
    let n = b / reduction_period in
    let same : (b + 1) / reduction_period ≡ n = omega arith in
    let next : (b + 1) % reduction_period ≡ b % reduction_period + 1 = omega arith in
    rw (decreasing_total_early (b + 1) h, decreasing_total_early b (omega arith), same, next)
      (ground arith)

-- Into the next epoch: the block is counted at the old reward, and paid the new one.
step_across :
    (b : ℕ)
    → b + 1 < 24 * reduction_period
    → reduction_period ≤ b % reduction_period + 1
    → decreasing_total (b + 1) ≡ decreasing_total b + decreasing_reward (b + 1) + reward_reduction
unfolding decreasing_reward mul_u64
step_across b h k =
    let n = b / reduction_period in
    let same : (b + 1) / reduction_period ≡ n + 1 = omega arith in
    let next : (b + 1) % reduction_period ≡ 0 = omega arith in
    let last : b % reduction_period ≡ 64_799 = omega arith in
    rw (decreasing_total_early (b + 1) h, decreasing_total_early b (omega arith), same, next, last)
      (ground (arith, full_epochs_total-suc n))

-- Block 24 * 64,800 is the first at the minimum.
step_minimum :
    (b : ℕ)
    → b + 1 ≡ 24 * reduction_period
    → decreasing_total (b + 1) ≡ decreasing_total b + decreasing_reward (b + 1) + reward_reduction
unfolding decreasing_reward mul_u64
step_minimum b h =
    let n : b / reduction_period ≡ 23 = omega arith in
    let r : b % reduction_period ≡ 64_799 = omega arith in
    rw
      (
        decreasing_total_late (b + 1) (omega arith) (omega arith),
        decreasing_total_early b (omega arith),
        n,
        r,
      )
      (ground (arith, full_epochs_total-suc 23))

step_late :
    (b : ℕ)
    → 24 * reduction_period ≤ b
    → b + 1 < u32_mod
    → decreasing_total (b + 1) ≡ decreasing_total b + decreasing_reward (b + 1)
unfolding decreasing_reward mul_u64
step_late b h k =
    rw (decreasing_total_late (b + 1) (omega arith) k, decreasing_total_late b h (omega arith))
      (ground arith)

-- One more block, with the drift of the closed form: 3 ERG for each epoch begun, up to 24.
decreasing_total-suc :
    (b : ℕ)
    → b + 1 < u32_mod
    → decreasing_total (b + 1) + reward_reduction * min (b / reduction_period) 24
      ≡ decreasing_total b
        + decreasing_reward (b + 1)
        + reward_reduction * min ((b + 1) / reduction_period) 24
decreasing_total-suc b h = ground (arith, step_within b, step_across b, step_minimum b, step_late b)

-- How far the closed form runs ahead of the blocks' sum.
pub drift : ℕ → ℕ
drift h = reward_reduction * min ((h - fixed_rate_period) / reduction_period) 24

emission_sum_fixed : (h : ℕ) → h ≤ fixed_rate_period → emission_sum h ≡ h * initial_reward
unfolding emission_sum emission_at_height
emission_sum_fixed zero k = omega arith
emission_sum_fixed (suc h) k = ground (arith, emission_sum_fixed h)

emission_sum-suc : (h : ℕ) → emission_sum (suc h) ≡ emission_sum h + emission_at_height (suc h)
unfolding emission_sum
emission_sum-suc h = refl

full_epochs_total_zero : full_epochs_total 0 ≡ 0
unfolding full_epochs_total
full_epochs_total_zero = refl

full_epochs_total_24 : full_epochs_total 24 ≡ 62_985_600 * 1_000_000_000
unfolding full_epochs_total mul_u64
full_epochs_total_24 = refl

late_reward :
    (h : ℕ)
    → fixed_rate_period + 24 * reduction_period ≤ h
    → h < u32_mod
    → emission_at_height h ≡ min_reward
unfolding emission_at_height mul_u64
late_reward h p k = ground arith

issued_le :
    (h : ℕ)
    → issued_coins_after_height h + (total_supply - issued_coins_after_height h) ≡ total_supply
unfolding issued_coins_after_height
issued_le h = ground arith

emission_at_height_late :
    (b : ℕ) → emission_at_height (suc (fixed_rate_period + b)) ≡ decreasing_reward (b + 1)
unfolding emission_at_height mul_u64
emission_at_height_late b = ground arith

emission_sum_decreasing :
    (b : ℕ)
    → fixed_rate_period + b < u32_mod
    → decreasing_total b
      ≡ emission_sum (fixed_rate_period + b) + reward_reduction * min (b / reduction_period) 24
emission_sum_decreasing zero k =
    rw (decreasing_total_early 0 (omega arith), emission_sum_fixed fixed_rate_period (omega arith))
      (omega (arith, full_epochs_total_zero))
emission_sum_decreasing (suc b) k =
    let shift : fixed_rate_period + suc b ≡ suc (fixed_rate_period + b) = omega arith in
    rw (shift, emission_sum-suc, emission_at_height_late b)
      (omega (
        arith,
        decreasing_total-suc b (omega arith),
        emission_sum_decreasing b (omega arith),
        ap decreasing_total (add-one b),
      ))

-- At block heights the closed form is the sum of the emissions up to that height plus 3 ERG for
-- each reduction epoch begun (at most 24), capped at the total supply; nothing overflows.
pub issued_coins-emission_sum :
    (h : ℕ)
    → h < u32_mod
    → issued_coins_after_height h ≡ min (emission_sum h + drift h) total_supply
unfolding issued_coins_after_height drift mul_u64
issued_coins-emission_sum zero k = ground (arith, emission_sum_fixed 0)
issued_coins-emission_sum (suc h) k =
    ground
      (arith, emission_sum_fixed (suc h), emission_sum_decreasing (suc h - fixed_rate_period), e)
  where
    e :
        fixed_rate_period ≤ suc h
        → emission_sum (suc h) ≡ emission_sum (fixed_rate_period + (suc h - fixed_rate_period))
    e p = ap emission_sum (omega arith)

-- From the end of the 24th reduction epoch on, at block heights, the blocks together have paid more
-- than the declared total supply.
emission_sum-over-supply :
    (h : ℕ)
    → fixed_rate_period + 24 * reduction_period ≤ h
    → h < u32_mod
    → total_supply < emission_sum h
emission_sum-over-supply h p k =
    let b = h - fixed_rate_period in
    let e : fixed_rate_period + b ≡ h = omega arith in
    let late = decreasing_total_late b (omega arith) (omega arith) in
    let total = emission_sum_decreasing b (omega arith) in
    let at = ap emission_sum e in omega (arith, late, total, at, full_epochs_total_24)

-- At every height the handler's response splits the supply into issued and remaining coins, and the
-- emission into the miner's reward and the re-emission amount.
pub calculate_emission_info_splits :
    (s : ReemissionSettings) (h : ℕ)
    → let info = calculate_emission_info (new s) h in
      (info.total_coins_issued + info.total_remain_coins ≡ total_supply)
      × (info.miner_reward + info.reemission_amt ≡ emission_at_height h)
unfolding calculate_emission_info
calculate_emission_info_splits s h = (issued_le h, miner_reward-add-reemission s h)

-- From the end of the 24th reduction epoch on, at block heights, the handler reports nothing
-- remaining, although the block still pays the minimum and the blocks up to it have already paid
-- more than the total supply.
pub calculate_emission_info_exhausted :
    (s : ReemissionSettings) (h : ℕ)
    → fixed_rate_period + 24 * reduction_period ≤ h
    → h < u32_mod
    → ((calculate_emission_info (new s) h).total_remain_coins ≡ 0)
      × (emission_at_height h ≡ min_reward)
      × (total_supply < emission_sum h)
unfolding calculate_emission_info
calculate_emission_info_exhausted s h p k =
    let over = emission_sum-over-supply h p k in
    (omega (arith, issued_coins-emission_sum h k, over), late_reward h p k, over)
