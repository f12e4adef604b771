-- ===== src/Cost.antt =====
-- The accounting of validation costs, crates/ergo-consensus/src/cost.rs.
pub mod Limits
mod Tests
use ergo_rust_node.Prelude.{
  ℕ, ◌+◌, ◌-◌, ◌*◌, max, Bool, true, false, List, ltb, if◌then◌else◌, Option, none, some, u64_mod,
  add_u64, mul_u64,
}

pub data CostError : Type 0 where
  limit_exceeded : ℕ → ℕ → CostError
  transaction_cost_exceeded : ℕ → ℕ → CostError
  block_cost_exceeded : ℕ → ℕ → CostError

abbrev pub max_tx_cost : ℕ
max_tx_cost = 1_000_000

abbrev pub max_block_cost : ℕ
max_block_cost = 8_000_000

abbrev pub input_base_cost : ℕ
input_base_cost = 2_000

abbrev pub output_base_cost : ℕ
output_base_cost = 100

abbrev pub data_input_cost : ℕ
data_input_cost = 100

abbrev pub size_cost_per_byte : ℕ
size_cost_per_byte = 2

abbrev pub min_tx_cost : ℕ
min_tx_cost = 1_000

pub record CostAccumulator : Type 0 where
  pub current : ℕ
  pub limit : ℕ

unfoldable pub new : ℕ → CostAccumulator
new limit = record { current = 0; limit = limit }

unfoldable pub for_transaction : CostAccumulator
unfolding new
for_transaction = new max_tx_cost

unfoldable pub for_block : CostAccumulator
unfolding new
for_block = new max_block_cost

-- `saturating_add` at `u64`
abbrev pub saturating_add_u64 : ℕ → ℕ → ℕ
saturating_add_u64 a b = if ltb (a + b) u64_mod then a + b else u64_mod - 1

unfoldable pub add_unchecked : CostAccumulator → ℕ → CostAccumulator
add_unchecked acc cost = record acc { current = saturating_add_u64 acc.current cost }

unfoldable pub is_exceeded : CostAccumulator → Bool
is_exceeded acc = ltb acc.limit acc.current

-- The cost is added also when the limit is exceeded.
unfoldable pub add : CostAccumulator → ℕ → CostAccumulator × Option CostError
unfolding add_unchecked is_exceeded
add acc cost =
    let acc' = add_unchecked acc cost in
    if is_exceeded acc' then (acc', some (limit_exceeded acc'.current acc'.limit)) else (acc', none)

unfoldable pub remaining : CostAccumulator → ℕ
remaining acc = acc.limit - acc.current

unfoldable pub reset : CostAccumulator → CostAccumulator
reset acc = record acc { current = 0 }

unfoldable pub would_exceed : CostAccumulator → ℕ → Bool
would_exceed acc cost = ltb acc.limit (saturating_add_u64 acc.current cost)

pub record TransactionCostResult : Type 0 where
  pub total_cost : ℕ
  pub base_cost : ℕ
  pub size_cost : ℕ
  pub script_cost : ℕ
  pub per_input_costs : List ℕ

unfoldable pub new_result : ℕ → ℕ → ℕ → List ℕ → TransactionCostResult
new_result base_cost size_cost script_cost per_input_costs = record {
  total_cost = add_u64 (add_u64 base_cost size_cost) script_cost;
  base_cost = base_cost;
  size_cost = size_cost;
  script_cost = script_cost;
  per_input_costs = per_input_costs;
}

unfoldable pub exceeds_tx_limit : TransactionCostResult → Bool
exceeds_tx_limit r = ltb max_tx_cost r.total_cost

unfoldable pub calculate_base_cost : ℕ → ℕ → ℕ → ℕ → ℕ
calculate_base_cost num_inputs num_outputs num_data_inputs tx_size_bytes =
    add_u64
      (add_u64 (add_u64 (mul_u64 num_inputs input_base_cost) (mul_u64 num_outputs output_base_cost))
        (mul_u64 num_data_inputs data_input_cost))
      (mul_u64 tx_size_bytes size_cost_per_byte)

unfoldable pub estimate_tx_cost : ℕ → ℕ → ℕ → ℕ → ℕ
unfolding calculate_base_cost
estimate_tx_cost num_inputs num_outputs num_data_inputs tx_size_bytes =
    let base = calculate_base_cost num_inputs num_outputs num_data_inputs tx_size_bytes in
    max (saturating_add_u64 base (mul_u64 num_inputs 1000)) min_tx_cost
