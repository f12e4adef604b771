-- ===== src/Assoc/Defs.antt =====
-- The operations of a map, the predicate that no key occurs twice, and one on every entry.
use ergo_rust_node.Prelude.{
  ℕ, ◌≡◌, List, [], ◌∷◌, map, Option, none, some, Bool, is_some, ◌==◌, if◌then◌else◌,
}

abbrev pub Map {ℓ} : Type ℓ → Type ℓ
Map V = List (ℕ × V)

module _ {ℓ} {V : Type ℓ} where
  unfoldable pub get : ℕ → Map V → Option V
  get k [] = none
  get k ((j, v) ∷ m) = if j == k then some v else get k m

  -- A key that is present keeps its place.
  unfoldable pub insert : ℕ → V → Map V → Map V
  insert k v [] = (k, v) ∷ []
  insert k v ((j, w) ∷ m) = let rest = insert k v m in if j == k then (k, v) ∷ m else (j, w) ∷ rest

  unfoldable pub erase : ℕ → Map V → Map V
  erase k [] = []
  erase k ((j, v) ∷ m) = let rest = erase k m in if j == k then rest else (j, v) ∷ rest

  unfoldable pub contains_key : Map V → ℕ → Bool
  contains_key m k = is_some (get k m)

  abbrev pub values : Map V → List V
  values = map (λ e. e.1)

  abbrev pub Unique : Map V → Type ℓ
  Unique [] = Unit
  Unique ((k, v) ∷ m) = (get k m ≡ none) × Unique m

-- Every entry of the map satisfies the predicate.
abbrev pub Every {ℓ κ} : {V : Type ℓ} → (ℕ → V → Type κ) → Map V → Type (ℓ ⊔ κ)
Every {V} P m = (k : ℕ) (v : V) → get k m ≡ some v → P k v

module _ {ℓ} {V : Type ℓ} where
  -- A loop that inserts the value under each key, and one that removes each key.
  unfoldable pub insert_all : List ℕ → V → Map V → Map V
  insert_all [] v m = m
  insert_all (k ∷ ks) v m = insert_all ks v (insert k v m)

  unfoldable pub erase_all : List ℕ → Map V → Map V
  erase_all [] m = m
  erase_all (k ∷ ks) m = erase_all ks (erase k m)

  -- `DashMap::retain` with a test of the value.
  unfoldable pub retain : (V → Bool) → Map V → Map V
  retain p [] = []
  retain p ((k, v) ∷ m) = let rest = retain p m in if p v then (k, v) ∷ rest else rest

  abbrev pub kept : (V → Bool) → Option V → Option V
  kept p none = none
  kept p (some v) = if p v then some v else none
