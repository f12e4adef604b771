-- ===== src/Nipopow/Algos.antt =====
-- Levels and scores of superchains, crates/ergo-consensus/src/nipopow/algos.rs. `BigUint` is a
-- number; a hash is the number that its bytes spell.
use ergo_rust_node.Prelude.{
  ℕ, zero, suc, ◌+◌, ◌-◌, ◌*◌, ◌/◌, ◌%◌, ◌^◌, Bool, ◌||◌, List, [], ◌∷◌, ltb, leb, ◌==◌,
  if◌then◌else◌, length, filter, u32_mod, u64_mod,
}

-- `BigUint::bits`; a number has no more bits than its value.
unfoldable pub bits_loop : ℕ → ℕ → ℕ
bits_loop zero n = 0
bits_loop (suc fuel) n = let rest = bits_loop fuel (n / 2) in if n == 0 then 0 else suc rest

unfoldable pub bits : ℕ → ℕ
bits n = bits_loop n n

unfoldable pub decode_nbits : ℕ → ℕ
decode_nbits nbits =
    let exponent = nbits / 2 ^ 24 in
    let mantissa = nbits % 2 ^ 23 in
    if leb exponent 3
    then mantissa / 2 ^ (8 * (3 - exponent))
    else mantissa * 2 ^ (8 * (exponent - 3))

unfoldable pub max_level_of : ℕ → ℕ → Bool → ℕ
max_level_of nbits hit is_genesis =
    let target = decode_nbits nbits in
    if is_genesis
    then u32_mod - 1
    else if hit == 1 || hit == 0
    then 0
    else if leb target hit
    then 0
    else if bits (target / hit) == 0
    then 0
    else (bits (target / hit) - 1) % u32_mod

-- An `i64` is its bit pattern; `max` compares them signed. `1i64 << level` takes the level mod 64.
abbrev pub lift_i64 : ℕ → ℕ
lift_i64 a = (a + 2 ^ 63) % u64_mod

abbrev pub max_i64 : ℕ → ℕ → ℕ
max_i64 a b = if leb (lift_i64 a) (lift_i64 b) then b else a

abbrev pub superblock_count : ℕ → List ℕ → ℕ
superblock_count level levels = length (filter (λ l. leb level l) levels)

unfoldable pub score : ℕ → ℕ → ℕ
score level count = (2 ^ (level % 64) * count) % u64_mod

-- `m as usize` of an `i32`, from its bit pattern.
abbrev pub usize_of_i32 : ℕ → ℕ
usize_of_i32 m = if ltb m (2 ^ 31) then m else m + (u64_mod - u32_mod)

-- The loop over the levels. It stops after level 256, so it has at most 256 rounds.
unfoldable pub best_arg_loop : List ℕ → ℕ → ℕ → ℕ → ℕ → ℕ
best_arg_loop levels m zero level best_score = best_score
best_arg_loop levels m (suc rounds) level best_score =
    let superblocks = superblock_count level levels in
    let rest =
      best_arg_loop levels m rounds (level + 1) (max_i64 best_score (score level superblocks)) in
    if leb (usize_of_i32 m) superblocks then rest else best_score

unfoldable pub best_arg : List ℕ → ℕ → ℕ
best_arg [] m = 0
best_arg (l ∷ levels) m = best_arg_loop (l ∷ levels) m 256 1 (length (l ∷ levels))
