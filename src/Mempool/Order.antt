-- ===== src/Mempool/Order.antt =====
-- Transactions ordered by weight, crates/ergo-mempool/src/ordering.rs, and the ordered set that the
-- pool keeps of them.
pub mod Laws
use Prim.Native.Nat.{compare, Ordering}
use Prim.Native.Nat.Ordering.{lt, eq, gt}
use ergo_rust_node.Prelude.{
  ℕ, ◌+◌, ◌-◌, ◌*◌, ◌/◌, ◌%◌, ◌^◌, List, [], ◌∷◌, Option, none, some, u64_mod, ltb, ◌==◌,
  if◌then◌else◌,
}

-- An `i64` is its bit pattern, below 2 ^ 64. `lift_i64` maps the signed order to that of numbers.
abbrev pub lift_i64 : ℕ → ℕ
lift_i64 a = (a + 2 ^ 63) % u64_mod

abbrev pub add_i64 : ℕ → ℕ → ℕ
add_i64 a b = (a + b) % u64_mod

abbrev pub neg_i64 : ℕ → ℕ
neg_i64 a = (u64_mod - a) % u64_mod

-- Division truncates towards zero.
abbrev pub div_i64 : ℕ → ℕ → ℕ
div_i64 a b = if ltb a (2 ^ 63) then a / b else neg_i64 ((u64_mod - a) / b)

pub record WeightedTxId : Type 0 where
  pub tx_id : ℕ
  pub weight : ℕ
  pub fee_per_factor : ℕ
  pub size : ℕ
  pub created : ℕ

-- Sizes are those of byte vectors, below 2 ^ 63.
unfoldable pub fee_per_factor : ℕ → ℕ → ℕ
fee_per_factor fee size = if size == 0 then 0 else div_i64 ((fee * 1024) % u64_mod) size

unfoldable pub new : ℕ → ℕ → ℕ → ℕ → WeightedTxId
unfolding fee_per_factor
new tx_id fee size created = record {
  tx_id = tx_id;
  weight = fee_per_factor fee size;
  fee_per_factor = fee_per_factor fee size;
  size = size;
  created = created;
}

-- `Ord::cmp`: the higher weight first, then the lower id.
unfoldable pub cmp : WeightedTxId → WeightedTxId → Ordering
cmp a b = elim (compare (lift_i64 b.weight) (lift_i64 a.weight)) [
  | eq ↦ compare a.tx_id b.tx_id
  | other ↦ other
]

-- `BTreeSet` of weighted ids, as the list that it iterates over. An insertion keeps an equal entry.
unfoldable pub insert : WeightedTxId → List WeightedTxId → List WeightedTxId
insert w [] = w ∷ []
insert w (x ∷ xs) =
    let rest = insert w xs in elim (cmp w x) [ lt ↦ w ∷ x ∷ xs | eq ↦ x ∷ xs | gt ↦ x ∷ rest ]

unfoldable pub remove : WeightedTxId → List WeightedTxId → List WeightedTxId
remove w [] = []
remove w (x ∷ xs) =
    let rest = remove w xs in elim (cmp w x) [ lt ↦ x ∷ xs | eq ↦ xs | gt ↦ x ∷ rest ]

-- The entry of a transaction.
unfoldable pub entry : ℕ → List WeightedTxId → Option WeightedTxId
entry k [] = none
entry k (x ∷ xs) = if x.tx_id == k then some x else entry k xs
