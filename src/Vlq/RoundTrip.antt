-- ===== src/Vlq/RoundTrip.antt =====
-- Decoding gives back what was encoded, whatever follows.
use ergo_rust_node.Prelude.{
  ℕ, zero, suc, ◌+◌, ◌*◌, ◌/◌, ◌%◌, ◌^◌, ◌≤◌, ◌<◌, ◌≡◌, refl, ap, ◌∙◌, inl, inr, false, List, [],
  ◌∷◌, ◌++◌, ltb, ◌==◌, ==_iff, if◌then◌else◌, length, Result, ok, u64_mod, arith, Bool-cases,
}
use native.Mathlib.Nat.{pow-le-pow_right, mul-le-mul_right}
use ergo_rust_node.Vlq.{
  VlqError, decode_loop, vlq_decode, encode_loop, vlq_encode, byte_len_loop, vlq_byte_len, zigzag,
  unzigzag, vlq_encode_signed, vlq_decode_signed,
}

shifted : (shift : ℕ) → 2 ^ (shift + 7) ≡ 128 * 2 ^ shift
shifted shift =
    let steps : shift + 7 ≡ suc (suc (suc (suc (suc (suc (suc shift)))))) = omega arith in
    ap (λ n. 2 ^ n) steps ∙ omega arith

-- One digit and the rest.
digits : (v p : ℕ) → v % 128 * p + v / 128 * (128 * p) ≡ v * p
digits v p =
    let whole : (v % 128 + 128 * (v / 128)) * p ≡ v * p = ap (λ x. x * p) (omega arith) in
    grind (arith, whole)

-- A shift whose value is below 2 ^ 64 is below 64.
small_shift : (v shift : ℕ) → 0 < v → v * 2 ^ shift < u64_mod → shift < 64
small_shift v shift h k = elim (Bool-cases (ltb shift 64)) [
  | inl e ↦ ground arith
  | inr e ↦
      let large : 2 ^ 64 ≤ 2 ^ shift =
        pow-le-pow_right (omega arith) {i = 64} {j = shift} (ground arith) in
      let one : 1 * 2 ^ shift ≤ v * 2 ^ shift = mul-le-mul_right (2 ^ shift) h in
      absurd (omega (arith, large, one, k))
]

encode_last : (rounds v : ℕ) → v / 128 ≡ 0 → encode_loop (suc rounds) v ≡ v % 128 ∷ []
unfolding encode_loop
encode_last rounds v e = rw (e) refl

encode_more :
    (rounds v : ℕ)
    → (v / 128 == 0) ≡ false
    → encode_loop (suc rounds) v ≡ (v % 128 + 128) ∷ encode_loop rounds (v / 128)
unfolding encode_loop
encode_more rounds v e = rw (e) refl

decode_last :
    (byte : ℕ) (bytes : List ℕ) (result shift pos : ℕ)
    → byte / 128 % 2 ≡ 0
    → decode_loop (byte ∷ bytes) result shift pos
      ≡ ok (result + (byte % 128 * 2 ^ shift) % u64_mod, pos + 1)
unfolding decode_loop
decode_last byte bytes result shift pos e = rw (e) refl

decode_more :
    (byte : ℕ) (bytes : List ℕ) (result shift pos : ℕ)
    → byte / 128 % 2 ≡ 1
    → ltb 63 (shift + 7) ≡ false
    → decode_loop (byte ∷ bytes) result shift pos
      ≡ decode_loop bytes (result + (byte % 128 * 2 ^ shift) % u64_mod) (shift + 7) (pos + 1)
unfolding decode_loop
decode_more byte bytes result shift pos e f = rw (e, f) refl

-- The digit of a round, at its place: it fits, and so does the rest.
digit :
    (v shift : ℕ)
    → v * 2 ^ shift < u64_mod
    → ((v % 128 * 2 ^ shift) % u64_mod + v / 128 * 2 ^ (shift + 7) ≡ v * 2 ^ shift)
      × (v / 128 * 2 ^ (shift + 7) < u64_mod)
digit v shift k =
    let p = 2 ^ shift in
    let sum = digits v p in
    let next : v / 128 * 2 ^ (shift + 7) ≡ v / 128 * (128 * p) =
      ap (λ x. v / 128 * x) (shifted shift) in
    (omega (arith, sum, next, k), omega (arith, sum, next, k))

-- The last digit.
decode-encode_last :
    (rounds v shift result pos : ℕ) (rest : List ℕ)
    → v / 128 ≡ 0
    → v * 2 ^ shift < u64_mod
    → decode_loop (encode_loop (suc rounds) v ++ rest) result shift pos
      ≡ ok (result + v * 2 ^ shift, pos + length (encode_loop (suc rounds) v))
decode-encode_last rounds v shift result pos rest low k =
    let same : v % 128 ≡ v = omega (arith, low) in
    let plain : (v % 128 * 2 ^ shift) % u64_mod ≡ v * 2 ^ shift =
      ap (λ x. (x * 2 ^ shift) % u64_mod) same ∙ omega (arith, k) in
    rw (encode_last rounds v low, same)
      (decode_last v rest result shift pos (omega (arith, low))
        ∙ ap (λ x. ok (result + x, pos + 1)) plain)

pair : {a b c d : ℕ} → a ≡ b → c ≡ d → ◌≡◌ {A = Result VlqError (ℕ × ℕ)} (ok (a, c)) (ok (b, d))
pair e f = cc

decode_loop-encode_loop :
    (rounds v shift result pos : ℕ) (rest : List ℕ)
    → v < 128 ^ suc rounds
    → v * 2 ^ shift < u64_mod
    → decode_loop (encode_loop (suc rounds) v ++ rest) result shift pos
      ≡ ok (result + v * 2 ^ shift, pos + length (encode_loop (suc rounds) v))
decode_loop-encode_loop zero v shift result pos rest h k =
    decode-encode_last zero v shift result pos rest (omega (arith, h)) k
decode_loop-encode_loop (suc r) v shift result pos rest h k = elim (Bool-cases (v / 128 == 0)) [
  | inl e ↦ decode-encode_last (suc r) v shift result pos rest ((==_iff (v / 128) 0).0 e) k
  | inr e ↦
      let (sum, fits) = digit v shift k in
      let near = small_shift (v / 128) (shift + 7) (ground arith) fits in
      let byte : (v % 128 + 128) / 128 % 2 ≡ 1 = omega arith in
      let value : (v % 128 + 128) % 128 ≡ v % 128 = omega arith in
      let placed = (v % 128 * 2 ^ shift) % u64_mod in
      let ih =
        decode_loop-encode_loop r (v / 128) (shift + 7) (result + placed) (pos + 1) rest
          (omega (arith, h)) fits in
      let tail = encode_loop (suc r) (v / 128) in
      let first =
        decode_more (v % 128 + 128) (tail ++ rest) result shift pos byte (ground (arith, near))
        ∙ ap
            (λ x.
              decode_loop (tail ++ rest) (result + (x * 2 ^ shift) % u64_mod) (shift + 7) (pos + 1))
            value in
      let total : result + placed + v / 128 * 2 ^ (shift + 7) ≡ result + v * 2 ^ shift =
        omega (arith, sum) in
      let end : pos + 1 + length tail ≡ pos + suc (length tail) = omega arith in
      rw (encode_more (suc r) v e) (first ∙ ih ∙ pair total end)
]

byte_len_lem :
    (rounds v : ℕ)
    → v < 128 ^ suc rounds
    → length (encode_loop (suc rounds) v) ≡ (if v == 0 then 1 else byte_len_loop (suc rounds) v)
unfolding encode_loop byte_len_loop
byte_len_lem zero v h = ground arith
byte_len_lem (suc r) v h = elim (Bool-cases (v / 128 == 0)) [
  | inl e ↦ ground arith
  | inr e ↦ let ih = byte_len_lem r (v / 128) (omega (arith, h)) in ground (arith, ih)
]

-- A `u64`, encoded and followed by any bytes, decodes to itself and to the position after its bytes,
-- which are as many as `vlq_byte_len` says.
pub vlq_decode-vlq_encode :
    (v pos : ℕ) (rest : List ℕ)
    → v < u64_mod
    → (vlq_decode (vlq_encode v ++ rest) pos ≡ ok (v, pos + length (vlq_encode v)))
      × (length (vlq_encode v) ≡ vlq_byte_len v)
unfolding vlq_decode vlq_encode vlq_byte_len
vlq_decode-vlq_encode v pos rest h = (
  decode_loop-encode_loop 9 v 0 0 pos rest (omega (arith, h)) (omega (arith, h))
      ∙ pair (omega arith) refl,
  byte_len_lem 9 v (omega (arith, h)),
)

zigzag_lem : (v : ℕ) → v < u64_mod → (zigzag v < u64_mod) × (unzigzag (zigzag v) ≡ v)
unfolding zigzag unzigzag
zigzag_lem v h = (ground arith, ground arith)

-- An `i64`, given as its bit pattern, encoded and followed by any bytes, decodes to itself and to the
-- position after its bytes.
pub vlq_decode_signed-vlq_encode_signed :
    (v pos : ℕ) (rest : List ℕ)
    → v < u64_mod
    → vlq_decode_signed (vlq_encode_signed v ++ rest) pos
      ≡ ok (v, pos + length (vlq_encode_signed v))
unfolding vlq_decode_signed vlq_encode_signed
vlq_decode_signed-vlq_encode_signed v pos rest h =
    let (small, back) = zigzag_lem v h in
    let plain = (vlq_decode-vlq_encode (zigzag v) pos rest small).0 in
    rw (plain, vlq_decode_signed) (pair back refl)
