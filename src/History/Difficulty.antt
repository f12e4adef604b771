-- ===== src/History/Difficulty.antt =====
-- Compact targets and difficulties (crates/ergo-consensus/src/autolykos.rs).
use ergo_rust_node.Prelude.{ℕ, ◌-◌, ◌*◌, ◌/◌, ◌%◌, ◌^◌, leb, ◌==◌, if◌then◌else◌}

unfoldable pub nbits_to_target : ℕ → ℕ
nbits_to_target nbits =
    let size = nbits / 2 ^ 24 % 256 in
    let word = nbits % 2 ^ 23 in
    if size == 0
    then 0
    else if leb size 3
    then word / 2 ^ (8 * (3 - size))
    else word * 2 ^ (8 * (size - 3))

unfoldable pub max_target : ℕ
max_target = 2 ^ 256 - 1

unfoldable pub nbits_to_difficulty : ℕ → ℕ
nbits_to_difficulty nbits =
    let target = nbits_to_target nbits in if target == 0 then max_target else max_target / target
