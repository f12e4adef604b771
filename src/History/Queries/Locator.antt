-- ===== src/History/Queries/Locator.antt =====
-- The header locator's loop ends (crates/ergo-state/src/history.rs).
use ergo_rust_node.Prelude.{
  ℕ, zero, suc, ◌+◌, ◌*◌, ◌%◌, ◌^◌, ◌≤◌, ◌<◌, ◌≡◌, refl, ◌⊎◌, inl, inr, true, Bool-cases, is_some,
  List, [], ltb, ◌==◌, if◌then◌else◌, length, Result-cases, u32_mod, arith,
}
use ergo_rust_node.Storage.{Storage}
use ergo_rust_node.History.{ChainLib}
use ergo_rust_node.History.Chain.{History}
use ergo_rust_node.History.Queries.{step_back, locate, locator_loop, get_header_locator}

module _ (s : Storage) (lib : ChainLib) where
  -- At height 1 with any step, or above it with a positive step that fits what the height leaves of a
  -- u32, as many rounds as the height are enough.
  locator_loop-ends :
      (db : s.Db) (fuel height step : ℕ) (locator : List (List ℕ))
      → 0 < height
      → height ≤ fuel
      → (height ≡ 1) ⊎ ((0 < step) × (height + step < 2 ^ 32 + 1))
      → is_some (locator_loop s lib db fuel height step locator) ≡ true
  unfolding locator_loop
  locator_loop-ends db zero height step locator pos enough inv = absurd (omega arith)
  locator_loop-ends db (suc fuel) height step locator pos enough inv =
      elim (Result-cases (locate s lib db height locator)) [
        | inr (e, q) ↦ rw (is_some, locator_loop, q) refl
        | inl (found, q) ↦ elim (Bool-cases (height == 1)) [
          | inl e ↦ rw (is_some, locator_loop, q, e) refl
          | inr e ↦
              rw (is_some, locator_loop, q, e)
                (locator_loop-ends db fuel (step_back height step)
                  (if ltb 10 (length found) then (step * 2) % u32_mod else step) found
                  (ground arith) (ground arith) (ground arith))
        ]
      ]

  -- For a best height below 2^32 the loop of `get_header_locator` ends within as many rounds as the best
  -- height, where the doubled step wraps around as in a release build: the fuel of the model is enough.
  pub get_header_locator-ends :
      (h : History s) → h.best_height < 2 ^ 32 → is_some (get_header_locator s lib h) ≡ true
  unfolding get_header_locator
  get_header_locator-ends h bound = elim (Bool-cases (h.best_height == 0)) [
    | inl e ↦ rw e refl
    | inr e ↦ rw e (
        locator_loop-ends h.storage h.best_height h.best_height 1 [] (ground arith) (omega arith)
          (inr (omega arith, omega arith)))
  ]
