-- ===== src/Nipopow/Proof.antt =====
-- Proofs and their comparison, crates/ergo-consensus/src/nipopow/proof.rs and popow_header.rs. An
-- `i32` is its bit pattern; the compact header of the crate ergo-chain-types has the fields in use.
use ergo_rust_node.Prelude.{
  ℕ, ◌+◌, ◌^◌, Bool, true, false, not, ◌||◌, List, [], ◌∷◌, ◌++◌, map, Option, none, some, ltb, leb,
  ◌==◌, if◌then◌else◌, length, contains, get_last?, filter,
}
use ergo_rust_node.Nipopow.Algos.{best_arg, usize_of_i32, lift_i64}

pub record Header : Type 0 where
  pub id : ℕ
  pub parent_id : ℕ
  pub height : ℕ
  pub n_bits : ℕ

pub record PoPowHeader : Type 0 where
  pub header : Header
  pub interlinks : List ℕ
  pub interlinks_proof : List ℕ

unfoldable pub connects_to : PoPowHeader → ℕ → Bool
connects_to h other_id = h.header.parent_id == other_id || contains h.interlinks other_id

pub record NipopowProof : Type 0 where
  pub m : ℕ
  pub k : ℕ
  pub prefix : List PoPowHeader
  pub suffix_head : PoPowHeader
  pub suffix_tail : List Header
  pub continuous : Bool

abbrev pub first {ℓ} : {A : Type ℓ} → List A → Option A
first [] = none
first (x ∷ xs) = some x

unfoldable pub genesis_id : NipopowProof → Option ℕ
genesis_id p = elim (first p.prefix) [ none ↦ none | some h ↦ some h.header.id ]

unfoldable pub headers_chain : NipopowProof → List Header
headers_chain p = map (λ h. h.header) p.prefix ++ p.suffix_head.header ∷ p.suffix_tail

unfoldable pub tip_height : NipopowProof → ℕ
tip_height p = elim (get_last? p.suffix_tail) [
  | none ↦ p.suffix_head.header.height
  | some h ↦ h.height
]

unfoldable pub tip_id : NipopowProof → ℕ
tip_id p = elim (get_last? p.suffix_tail) [ none ↦ p.suffix_head.header.id | some h ↦ h.id ]

-- The loop over `heights.windows(2)`.
unfoldable pub increasing : List Header → Bool
increasing [] = true
increasing (a ∷ []) = true
increasing (a ∷ b ∷ hs) = if leb b.height a.height then false else increasing (b ∷ hs)

unfoldable pub has_valid_heights : NipopowProof → Bool
has_valid_heights p = increasing (headers_chain p)

-- The loop over `prefix.windows(2)`.
unfoldable pub prefix_connects : List PoPowHeader → Bool
prefix_connects [] = true
prefix_connects (a ∷ []) = true
prefix_connects (a ∷ b ∷ hs) =
    if not (connects_to b a.header.id) then false else prefix_connects (b ∷ hs)

-- The loop over the tail of the suffix.
unfoldable pub tail_connects : ℕ → List Header → Bool
tail_connects prev_id [] = true
tail_connects prev_id (h ∷ hs) =
    if not (h.parent_id == prev_id) then false else tail_connects h.id hs

unfoldable pub has_valid_connections : NipopowProof → Bool
has_valid_connections p =
    let tail = tail_connects p.suffix_head.header.id p.suffix_tail in
    if not (prefix_connects p.prefix) then false else elim (get_last? p.prefix) [
      | none ↦ tail
      | some last_prefix ↦
          if not (connects_to p.suffix_head last_prefix.header.id) then false else tail
    ]

-- The messages of the validation errors.
pub data ProofError : Type 0 where
  empty_prefix : ProofError
  small_k : ProofError
  suffix_length : ℕ → ℕ → ProofError
  invalid_heights : ProofError
  invalid_connections : ProofError

unfoldable pub validate : NipopowProof → Option ProofError
validate p =
    if length p.prefix == 0
    then some empty_prefix
    else if p.k == 0 || leb (2 ^ 31) p.k
    then some small_k
    else if not (1 + length p.suffix_tail == usize_of_i32 p.k)
    then some (suffix_length p.k (1 + length p.suffix_tail))
    else if not (has_valid_heights p)
    then some invalid_heights
    else if not (has_valid_connections p)
    then some invalid_connections
    else none

unfoldable pub is_valid : NipopowProof → Bool
is_valid p = elim (validate p) [ none ↦ true | some e ↦ false ]

-- The height of the first of the headers whose id is among the ids.
unfoldable pub common_height : List ℕ → List Header → Option ℕ
common_height ids [] = none
common_height ids (h ∷ hs) = if contains ids h.id then some h.height else common_height ids hs

-- The levels of the headers above the branching point: all placeholders.
unfoldable pub diverging : ℕ → List Header → List ℕ
diverging branch_height hs = map (λ h. 0) (filter (λ h. ltb branch_height h.height) hs)

unfoldable pub is_better_than : NipopowProof → NipopowProof → Bool
is_better_than p other =
    if not (is_valid p)
    then false
    else if not (is_valid other)
    then true
    else elim (common_height (map (λ h. h.id) (headers_chain p)) (headers_chain other)) [
      | none ↦ ltb (tip_height other) (tip_height p)
      | some branch_height ↦
          ltb (lift_i64 (best_arg (diverging branch_height (headers_chain other)) other.m))
            (lift_i64 (best_arg (diverging branch_height (headers_chain p)) p.m))
    ]
