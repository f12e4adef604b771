-- ===== src/Storage/Bytes.antt =====
-- Byte strings as lists of numbers, with `to_be_bytes` and `from_be_bytes` at the widths that the
-- state crate stores (crates/ergo-state/src/utxo.rs, history.rs).
use ergo_rust_node.Prelude.{
  ℕ, zero, suc, sym, ◌∙◌, ◌+◌, ◌*◌, ◌/◌, ◌%◌, ◌^◌, ◌<◌, ◌≡◌, refl, ap, inl, inr, Bool, true, false,
  ◌&&◌, List, [], ◌∷◌, ◌++◌, arith, ◌==◌, ==_iff, ==_refl, length, take, drop, Bool-cases,
}

abbrev pub same_bytes : List ℕ → List ℕ → Bool
same_bytes [] [] = true
same_bytes [] (y ∷ ys) = false
same_bytes (x ∷ xs) [] = false
same_bytes (x ∷ xs) (y ∷ ys) = (x == y) && same_bytes xs ys

pub same_bytes_refl : (xs : List ℕ) → same_bytes xs xs ≡ true
same_bytes_refl [] = refl
same_bytes_refl (x ∷ xs) = ground (arith, ==_refl x, same_bytes_refl xs)

pub same_bytes_eq : (xs ys : List ℕ) → same_bytes xs ys ≡ true → xs ≡ ys
same_bytes_eq [] [] h = refl
same_bytes_eq [] (y ∷ ys) h = absurd (ground arith)
same_bytes_eq (x ∷ xs) [] h = absurd (ground arith)
same_bytes_eq (x ∷ xs) (y ∷ ys) h = ground (arith, ==_iff x y, same_bytes_eq xs ys)

pub same_bytes_sym : (xs ys : List ℕ) → same_bytes xs ys ≡ same_bytes ys xs
same_bytes_sym [] [] = refl
same_bytes_sym [] (y ∷ ys) = refl
same_bytes_sym (x ∷ xs) [] = refl
same_bytes_sym (x ∷ xs) (y ∷ ys) = ground (arith, same_bytes_sym xs ys)

-- `to_be_bytes` at `u16` and `u32`
abbrev pub be_u16 : ℕ → List ℕ
be_u16 n = n / 256 % 256 ∷ n % 256 ∷ []

abbrev pub be_u32 : ℕ → List ℕ
be_u32 n = n / 16777216 % 256 ∷ n / 65536 % 256 ∷ n / 256 % 256 ∷ n % 256 ∷ []

-- `from_be_bytes`
abbrev pub from_be : ℕ → List ℕ → ℕ
from_be acc [] = acc
from_be acc (b ∷ bs) = from_be (acc * 256 + b) bs

pub from_be-be_u16 : (n : ℕ) → n < 2 ^ 16 → from_be 0 (be_u16 n) ≡ n
from_be-be_u16 n h = omega arith

pub from_be-be_u32 : (n : ℕ) → n < 2 ^ 32 → from_be 0 (be_u32 n) ≡ n
from_be-be_u32 n h = omega arith

be_u32_eq : (m n : ℕ) → m < 2 ^ 32 → n < 2 ^ 32 → same_bytes (be_u32 m) (be_u32 n) ≡ true → m ≡ n
be_u32_eq m n hm hn e =
    sym (from_be-be_u32 m hm)
    ∙ (ap (from_be 0) (same_bytes_eq (be_u32 m) (be_u32 n) e) ∙ from_be-be_u32 n hn)

-- Numbers that are told apart have different keys.
pub be_u32_injective :
    (m n : ℕ) → m < 2 ^ 32 → n < 2 ^ 32 → same_bytes (be_u32 m) (be_u32 n) ≡ (m == n)
be_u32_injective m n hm hn = elim (Bool-cases (m == n)) [
  | inl q ↦ rw ((==_iff m n).0 q, same_bytes_refl (be_u32 n), ==_refl n)
  | inr q ↦ elim (Bool-cases (same_bytes (be_u32 m) (be_u32 n))) [
    | inl e ↦ absurd (ground (arith, ==_iff m n, be_u32_eq m n hm hn e))
    | inr e ↦ rw (e, q)
  ]
]

module _ {ℓ} {A : Type ℓ} where
  pub take-append : (n : ℕ) (xs ys : List A) → length xs ≡ n → take n (xs ++ ys) ≡ xs
  take-append zero [] ys h = refl
  take-append zero (x ∷ xs) ys h = absurd (omega arith)
  take-append (suc n) [] ys h = absurd (omega arith)
  take-append (suc n) (x ∷ xs) ys h = ap (λ l. x ∷ l) (take-append n xs ys (omega arith))

  pub drop-append : (n : ℕ) (xs ys : List A) → length xs ≡ n → drop n (xs ++ ys) ≡ ys
  drop-append zero [] ys h = refl
  drop-append zero (x ∷ xs) ys h = absurd (omega arith)
  drop-append (suc n) [] ys h = absurd (omega arith)
  drop-append (suc n) (x ∷ xs) ys h = drop-append n xs ys (omega arith)

  pub drop-append_past :
      (k m : ℕ) (xs ys : List A) → length xs + m ≡ k → drop k (xs ++ ys) ≡ drop m ys
  drop-append_past k m [] ys h = ap (λ j. drop j ys) (omega arith)
  drop-append_past zero m (x ∷ xs) ys h = absurd (omega arith)
  drop-append_past (suc k) m (x ∷ xs) ys h = drop-append_past k m xs ys (omega arith)
