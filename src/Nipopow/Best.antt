-- ===== src/Nipopow/Best.antt =====
-- `best_arg` is the best score over all levels (algos.rs).
use ergo_rust_node.Prelude.{
  if◌then◌else◌, ◌&&◌, ℕ, zero, suc, ◌+◌, ◌*◌, ◌%◌, ◌^◌, ◌≤◌, ◌<◌, ◌≡◌, refl, ap, ◌∙◌, true, false,
  List, [], ◌∷◌, leb, ◌==◌, inl, inr, ◌⊎◌, length, All, arith, Bool-cases, length-filter-le, ==_iff,
  leb→le,
}
use native.Mathlib.Nat.{mul-le-mul}
use ergo_rust_node.Nipopow.Algos.{
  superblock_count, score, usize_of_i32, best_arg_loop, best_arg, max_i64,
}
use ergo_rust_node.Nipopow.Scores.{pow_mono}

abbrev pub Low : ℕ → Type 0
Low l = l ≤ 40

-- A higher level has no more superblocks, and one above all has none.
count_antitone :
    (a b : ℕ) (levels : List ℕ) → a ≤ b → superblock_count b levels ≤ superblock_count a levels
count_antitone a b [] h = omega arith
count_antitone a b (l ∷ levels) h = ground (arith, count_antitone a b levels)

count_above : (a : ℕ) (levels : List ℕ) → 40 < a → All Low levels → superblock_count a levels ≡ 0
count_above a [] h k = refl
count_above a (l ∷ levels) h k = ground (arith, k.0, count_above a levels h k.1)

-- In the range of the levels and of the numbers of blocks, a score does not wrap.
score_lem :
    (level : ℕ) (levels : List ℕ)
    → All Low levels
    → length levels < 2 ^ 22
    → (score level (superblock_count level levels) ≡ 2 ^ level * superblock_count level levels)
      × (2 ^ level * superblock_count level levels < 2 ^ 63)
unfolding score
score_lem level levels k h = elim (Bool-cases (leb level 40)) [
  | inl e ↦
      let count = superblock_count level levels in
      let few = length-filter-le (λ l. leb level l) levels in
      let size = pow_mono level 40 (ground arith) in
      let product : 2 ^ level * count ≤ 2 ^ 40 * 2 ^ 22 =
        mul-le-mul {n₁ = 2 ^ level} {m₁ = count} {n₂ = 2 ^ 40} {m₂ = 2 ^ 22} size (omega arith) in
      let plain : level % 64 ≡ level = ground arith in
      (rw (plain) (omega (arith, product)), omega (arith, product))
  | inr e ↦
      let none_left = count_above level levels (ground arith) k in
      rw (none_left) (ground arith, ground arith)
]

max_i64_lem :
    (a b : ℕ)
    → a < 2 ^ 63
    → b < 2 ^ 63
    → (a ≤ max_i64 a b) × (b ≤ max_i64 a b) × ((max_i64 a b ≡ a) ⊎ (max_i64 a b ≡ b))
max_i64_lem a b h k = (ground arith, ground arith, ground arith)

-- What the loop makes of the best score so far: nothing less, nothing less than the scores of the
-- levels to come that have enough superblocks, and one of these.
Best : List ℕ → ℕ → ℕ → ℕ → ℕ → Type 0
Best levels m level start result =
    (start ≤ result)
    × (result < 2 ^ 63)
    × ((l : ℕ)
        → level ≤ l
        → usize_of_i32 m ≤ superblock_count l levels
        → 2 ^ l * superblock_count l levels ≤ result)
    × ((result ≡ start)
        ⊎ ((l : ℕ) × (level ≤ l)
            × (usize_of_i32 m ≤ superblock_count l levels)
            × (result ≡ 2 ^ l * superblock_count l levels)))

loop_step :
    (levels : List ℕ) (m rounds level start : ℕ)
    → leb (usize_of_i32 m) (superblock_count level levels) ≡ true
    → best_arg_loop levels m (suc rounds) level start
      ≡ best_arg_loop levels m rounds
          (level + 1)
          (max_i64 start (score level (superblock_count level levels)))
unfolding best_arg_loop
loop_step levels m rounds level start e = rw (e) refl

loop_done : (levels : List ℕ) (m level start : ℕ) → best_arg_loop levels m 0 level start ≡ start
unfolding best_arg_loop
loop_done levels m level start = refl

not_leb : (a b : ℕ) → leb a b ≡ false → b < a
not_leb a b h = ground arith

loop_stop :
    (levels : List ℕ) (m rounds level start : ℕ)
    → leb (usize_of_i32 m) (superblock_count level levels) ≡ false
    → best_arg_loop levels m (suc rounds) level start ≡ start
unfolding best_arg_loop
loop_stop levels m rounds level start e = rw (e) refl

Best-loop :
    (levels : List ℕ) (m rounds level start : ℕ)
    → All Low levels
    → length levels < 2 ^ 22
    → level + rounds ≡ 257
    → start < 2 ^ 63
    → Best levels m level start (best_arg_loop levels m rounds level start)
unfolding Best
Best-loop levels m zero level start k h r s = rw (loop_done levels m level start) (
  omega arith,
  s,
  λ l a c. rw (count_above l levels (omega (arith, r, a)) k) (ground arith),
  inl refl,
)
Best-loop levels m (suc rounds) level start k h r s =
    let count = superblock_count level levels in
    elim (Bool-cases (leb (usize_of_i32 m) count)) [
      | inl e ↦
          let (plain, bound) = score_lem level levels k h in
          let next = max_i64 start (score level count) in
          let (above, over, either) =
            max_i64_lem start (score level count) s (omega (arith, plain, bound)) in
          let fits : next < 2 ^ 63 = elim either [
            | inl q ↦ omega (arith, q, s)
            | inr q ↦ omega (arith, q, plain, bound)
          ] in
          let (low, small, all, attained) =
            Best-loop levels m rounds (level + 1) next k h (omega (arith, r)) fits in
          rw (loop_step levels m rounds level start e) (
            omega (arith, low, above),
            small,
            λ l a c. elim (Bool-cases (l == level)) [
              | inl q ↦
                  let here = ap (λ i. 2 ^ i * superblock_count i levels) ((==_iff l level).0 q) in
                  omega (arith, here, plain, over, low)
              | inr q ↦ all l (ground (arith, a, q)) c
            ],
            elim attained [
              | inl q ↦ elim either [
                | inl p ↦ inl (q ∙ p)
                | inr p ↦ inr (level, omega arith, leb→le (usize_of_i32 m) count e, q ∙ p ∙ plain)
              ]
              | inr (l, a, c, q) ↦ inr (l, omega (arith, a), c, q)
            ],
          )
      | inr e ↦ rw (loop_stop levels m rounds level start e) (
        omega arith,
        s,
        λ l a c.
            absurd
              (omega (arith, count_antitone level l levels a, c, not_leb (usize_of_i32 m) count e)),
        inl refl,
      )
    ]

-- The score of a level from 1 on that has enough superblocks.
abbrev pub candidate : List ℕ → ℕ → ℕ → ℕ
candidate levels m l =
    if leb 1 l && leb (usize_of_i32 m) (superblock_count l levels)
    then 2 ^ l * superblock_count l levels
    else 0

-- The number of blocks or the score of a level, and no less than any of these.
pub IsBest : List ℕ → ℕ → ℕ → Type 0
IsBest levels m result =
    (length levels ≤ result)
    × ((l : ℕ) → candidate levels m l ≤ result)
    × ((result ≡ length levels) ⊎ ((l : ℕ) × (result ≡ candidate levels m l)))

Best-IsBest :
    (levels : List ℕ) (m result : ℕ)
    → Best levels m 1 (length levels) result
    → IsBest levels m result
unfolding Best IsBest
Best-IsBest levels m result (low, small, all, attained) = (
  low,
  λ l. elim (Bool-cases (leb 1 l && leb (usize_of_i32 m) (superblock_count l levels))) [
    | inl e ↦ rw (e) (all l (ground arith) (ground arith))
    | inr e ↦ rw (e) (omega arith)
  ],
  elim attained [
    | inl e ↦ inl e
    | inr (l, a, c, e) ↦
        let both : leb 1 l && leb (usize_of_i32 m) (superblock_count l levels) ≡ true =
          ground (arith, a, c) in
        inr (l, rw (both) e)
  ],
)

-- For levels up to 40 and fewer than 2 ^ 22 blocks, at least one, `best_arg` is the largest of the
-- number of blocks and of the numbers 2 ^ l times the count of the blocks of level l or more, over
-- the levels l from 1 on with at least m of these.
pub best_arg-IsBest :
    (levels : List ℕ) (m : ℕ)
    → All Low levels
    → length levels < 2 ^ 22
    → 0 < length levels
    → IsBest levels m (best_arg levels m)
unfolding best_arg
best_arg-IsBest [] m k h p = absurd (omega arith)
best_arg-IsBest (l ∷ levels) m k h p =
    Best-IsBest (l ∷ levels) m (best_arg (l ∷ levels) m)
      (Best-loop (l ∷ levels) m 256 1 (length (l ∷ levels)) k h (omega arith) (omega (arith, h)))
