-- ===== src/Assoc/Sums.antt =====
-- Sizes: the number of entries, and the sum of a measure over them.
use ergo_rust_node.Prelude.{ℕ, ◌+◌, ◌≤◌, ◌≡◌, [], ◌∷◌, none, some, arith, length}
use ergo_rust_node.Assoc.Defs.{Map, get, insert, erase, Unique}
use ergo_rust_node.Assoc.Laws.{erase_absent}

module _ {ℓ} {V : Type ℓ} where
  -- The sum of `f` over the values.
  abbrev pub total : (V → ℕ) → Map V → ℕ
  total f [] = 0
  total f ((k, v) ∷ m) = f v + total f m

  pub total-insert_new :
      (f : V → ℕ) (k : ℕ) (v : V) (m : Map V)
      → get k m ≡ none
      → total f (insert k v m) ≡ total f m + f v
  unfolding get insert
  total-insert_new f k v [] h = omega arith
  total-insert_new f k v ((i, w) ∷ m) h = ground (arith, total-insert_new f k v m)

  pub total-erase :
      (f : V → ℕ) (k : ℕ) (v : V) (m : Map V)
      → Unique m
      → get k m ≡ some v
      → total f (erase k m) + f v ≡ total f m
  unfolding get erase
  total-erase f k v [] u h = ground arith
  total-erase f k v ((i, w) ∷ m) u h = ground (arith, total-erase f k v m, erase_absent k m)

  pub length-insert_new :
      (k : ℕ) (v : V) (m : Map V) → get k m ≡ none → length (insert k v m) ≡ length m + 1
  unfolding get insert
  length-insert_new k v [] h = omega arith
  length-insert_new k v ((i, w) ∷ m) h = ground (arith, length-insert_new k v m)

  pub length-insert-le : (k : ℕ) (v : V) (m : Map V) → length (insert k v m) ≤ length m + 1
  unfolding insert
  length-insert-le k v [] = omega arith
  length-insert-le k v ((i, w) ∷ m) = ground (arith, length-insert-le k v m)

  pub length-erase :
      (k : ℕ) (v : V) (m : Map V) → Unique m → get k m ≡ some v → length (erase k m) + 1 ≡ length m
  unfolding get erase
  length-erase k v [] u h = ground arith
  length-erase k v ((i, w) ∷ m) u h = ground (arith, length-erase k v m, erase_absent k m)

  pub length-erase-le : (k : ℕ) (m : Map V) → length (erase k m) ≤ length m
  unfolding erase
  length-erase-le k [] = omega arith
  length-erase-le k ((i, w) ∷ m) = ground (arith, length-erase-le k m)
