-- ===== src/Nipopow/Scores.antt =====
-- What the levels and the scores mean (algos.rs).
use ergo_rust_node.Prelude.{
  ℕ, zero, suc, ◌+◌, ◌-◌, ◌*◌, ◌/◌, ◌%◌, ◌^◌, ◌≤◌, ◌<◌, ◌≡◌, refl, ap, ◌∙◌, sym, false, ltb, leb,
  ◌==◌, inl, inr, u32_mod, arith, Bool-cases, ==_iff,
}
use native.Mathlib.Nat.{
  pow-le-pow_right, mul-le-mul, mul-le-mul_right, div-add-mod, mod-lt, div-le_self,
}
use ergo_rust_node.Nipopow.Algos.{bits_loop, bits, decode_nbits, max_level_of}

pow_suc : (b : ℕ) → 2 ^ suc b ≡ 2 * 2 ^ b
pow_suc b = omega arith

pub pow_mono : (a b : ℕ) → a ≤ b → 2 ^ a ≤ 2 ^ b
pow_mono a b h = pow-le-pow_right (omega arith) h

bits_loop_zero : (fuel : ℕ) → bits_loop fuel 0 ≡ 0
unfolding bits_loop
bits_loop_zero zero = refl
bits_loop_zero (suc fuel) = refl

-- The number of bits brackets the number.
bits_loop_lem :
    (fuel n : ℕ) → n ≤ fuel → (n < 2 ^ bits_loop fuel n) × (0 < n → 2 ^ bits_loop fuel n ≤ 2 * n)
unfolding bits_loop
bits_loop_lem zero n h = (omega arith, λ k. omega arith)
bits_loop_lem (suc fuel) n h = elim (Bool-cases (n == 0)) [
  | inl e ↦ rw (e) (ground arith, λ k. ground arith)
  | inr e ↦
      let (low, high) = bits_loop_lem fuel (n / 2) (ground arith) in
      let step = pow_suc (bits_loop fuel (n / 2)) in
      rw (e) (
        omega (arith, low, step),
        λ k. elim (Bool-cases (n / 2 == 0)) [
          | inl z ↦
              let none_left = ap (bits_loop fuel) ((==_iff (n / 2) 0).0 z) ∙ bits_loop_zero fuel in
              rw (none_left) (omega (arith, k))
          | inr z ↦ let bound = high (ground arith) in omega (arith, bound, step)
        ],
      )
]

-- A mantissa and a shift of a compact target.
shifted_bound : (m p : ℕ) → m < 2 ^ 23 → p ≤ 2 ^ 2016 → m * p < 2 ^ 2039
shifted_bound m p h k =
    let product : m * p ≤ (2 ^ 23 - 1) * 2 ^ 2016 =
      mul-le-mul {n₁ = m} {m₁ = p} {n₂ = 2 ^ 23 - 1} {m₂ = 2 ^ 2016} (omega arith) k in
    omega (arith, product)

decode_nbits_bound : (nbits : ℕ) → nbits < u32_mod → decode_nbits nbits < 2 ^ 2039
unfolding decode_nbits
decode_nbits_bound nbits h =
    let exponent = nbits / 2 ^ 24 in
    elim (Bool-cases (leb exponent 3)) [
      | inl e ↦ rw (e) (omega (arith, div-le_self (nbits % 2 ^ 23) (2 ^ (8 * (3 - exponent)))))
      | inr e ↦
          let shift = pow_mono (8 * (exponent - 3)) 2016 (omega arith) in
          rw (e) (shifted_bound (nbits % 2 ^ 23) (2 ^ (8 * (exponent - 3))) (omega arith) shift)
    ]

-- A quotient between two powers brackets the dividend between their products.
quotient_bracket :
    (t hit b : ℕ)
    → 0 < hit
    → t / hit < 2 ^ suc b
    → 2 ^ suc b ≤ 2 * (t / hit)
    → (2 ^ b * hit ≤ t) × (t < 2 ^ suc b * hit)
quotient_bracket t hit b h low high =
    let whole = div-add-mod t hit in
    let rest = mod-lt t h in
    let under : 2 ^ b * hit ≤ (t / hit) * hit =
      mul-le-mul_right hit (omega (arith, high, pow_suc b)) in
    let over : (t / hit + 1) * hit ≤ 2 ^ suc b * hit = mul-le-mul_right hit (omega arith) in
    (grind arith, grind arith)

quotient_pos : (t hit : ℕ) → 0 < hit → hit ≤ t → 0 < t / hit
quotient_pos t hit h k =
    let whole = div-add-mod t hit in
    let rest = mod-lt t h in
    elim (Bool-cases (t / hit == 0)) [
      | inl e ↦
          let zero_ : t / hit ≡ 0 = ground arith in
          let left : hit * 0 + t % hit ≡ t = ap (λ q. hit * q + t % hit) (sym zero_) ∙ whole in
          absurd (omega (arith, left, rest))
      | inr e ↦ ground arith
    ]

-- The bits of the quotient: at least one, and far below 2 ^ 32.
quotient_bits :
    (t hit : ℕ)
    → 0 < hit
    → hit ≤ t
    → t < 2 ^ 2039
    → (0 < bits (t / hit))
      × (bits (t / hit) < 2040)
      × (t / hit < 2 ^ bits (t / hit))
      × (2 ^ bits (t / hit) ≤ 2 * (t / hit))
unfolding bits
quotient_bits t hit h k b =
    let q = t / hit in
    let pos = quotient_pos t hit h k in
    let (low, high) = bits_loop_lem q q (omega arith) in
    let top = high pos in
    let whole = div-le_self t hit in
    (
      elim (Bool-cases (bits_loop q q == 0)) [
        | inl e ↦
            let one = ap (λ n. 2 ^ n) ((==_iff (bits_loop q q) 0).0 e) in
            absurd (omega (arith, one, low, pos))
        | inr e ↦ ground arith
      ],
      elim (Bool-cases (ltb (bits_loop q q) 2040)) [
        | inl e ↦ ground arith
        | inr e ↦
            let huge = pow_mono 2040 (bits_loop q q) (ground arith) in
            absurd (omega (arith, huge, top, whole, b))
      ],
      low,
      top,
    )

level_is :
    (nbits hit : ℕ)
    → 1 < hit
    → hit < decode_nbits nbits
    → 0 < bits (decode_nbits nbits / hit)
    → bits (decode_nbits nbits / hit) < 2040
    → max_level_of nbits hit false ≡ bits (decode_nbits nbits / hit) - 1
unfolding max_level_of
level_is nbits hit h k p q = ground arith

-- The level of a block that is not the genesis, with a `u32` for its nBits and a hit above 1 and below
-- the target, is the number of times that the hit can be doubled within the target.
pub max_level_of_lem :
    (nbits hit : ℕ)
    → nbits < u32_mod
    → 1 < hit
    → hit < decode_nbits nbits
    → (2 ^ max_level_of nbits hit false * hit ≤ decode_nbits nbits)
      × (decode_nbits nbits < 2 ^ (max_level_of nbits hit false + 1) * hit)
max_level_of_lem nbits hit b h k =
    let t = decode_nbits nbits in
    let (pos, few, low, high) =
      quotient_bits t hit (omega arith) (omega arith) (decode_nbits_bound nbits b) in
    let size = bits (t / hit) in
    let same : suc (size - 1) ≡ size = omega arith in
    let bracket =
      quotient_bracket t hit (size - 1) (omega arith) (rw (same) low) (rw (same) high) in
    let next : size - 1 + 1 ≡ suc (size - 1) = omega arith in
    rw (level_is nbits hit h k pos few, next) bracket
