-- ===== src/Manager/Recovery.antt =====
-- Recovery of the set at the start (crates/ergo-state/src/manager.rs).
pub mod Anchors
use ergo_rust_node.Prelude.{
  ℕ, zero, suc, ◌+◌, ◌-◌, ◌<◌, ◌≤◌, ◌≡◌, sym, ap, subst, ◌∙◌, ◌⊎◌, inl, inr, Bool, true, false,
  Bool-cases, Option, Option-cases, none, some, List, [], ◌∷◌, ◌==◌, ltb, leb, if◌then◌else◌, All,
  Result, ok, err, ◌>>=◌, >>=-eq-ok, ok_injective, arith,
}
use ergo_rust_node.Storage.{Storage}
use ergo_rust_node.State.{StateError, rollback_failed}
use ergo_rust_node.Utxo.{ErgoLib, BoxEntry, UtxoState}
use ergo_rust_node.Utxo.Index.{get_box}
use ergo_rust_node.Utxo.Apply.Consistent.{some_injective}
use ergo_rust_node.Utxo.Rollback.{rollback, rollback_blocks}
use ergo_rust_node.History.{Header, ChainLib, get_by_height}
use ergo_rust_node.History.Blocks.{get_transactions}
use ergo_rust_node.Manager.{
  StateManager, check_heights, recovery_target, rollback_to, any_present, is_good, last_good,
  check_and_recover_utxo_state,
}
use ergo_rust_node.Manager.Recovery.Anchors.{Decides, none-some, IsAnchored, is_good_lem}

abbrev tail : List ℕ → List ℕ
tail [] = []
tail (x ∷ xs) = xs

module _ (s : Storage) (chain : ChainLib) (lib : ErgoLib) where
  -- A rollback that succeeds goes down, to the height that it is asked for.
  rollback-height :
      (u : UtxoState lib s) (to_height : ℕ) {u' : UtxoState lib s}
      → rollback s lib u to_height ≡ ok u'
      → (to_height < u.height) × (u'.height ≡ to_height)
  unfolding rollback
  rollback-height u to_height = elim (Bool-cases (leb u.height to_height)) [
    | inl q ↦ rw (rollback, q) (λ h. absurd (ground arith))
    | inr q ↦
        rw (rollback, q)
          (λ h.
            let p =
              >>=-eq-ok (rollback_blocks s lib u.storage (to_height + 1) (u.height - to_height)) _
                h in
            (ground arith, ap (λ x. x.height) (sym (ok_injective p.1.1))))
  ]

  pub rollback_to-height :
      (m : StateManager s chain lib) (height : ℕ) {m' : StateManager s chain lib}
      → rollback_to s chain lib m height ≡ ok m'
      → (height < m.utxo.height) × (m'.utxo.height ≡ height)
  unfolding rollback_to
  rollback_to-height m height h =
      let p = >>=-eq-ok (rollback s lib m.utxo height) _ h in
      let q = rollback-height m.utxo height p.1.0 in
      (q.0, ap (λ x. x.utxo.height) (sym (ok_injective p.1.1)) ∙ q.1)

  module _ (output_ids : chain.Tx → List (List ℕ)) where
    -- The first of some heights that is anchored, if any is.
    unfoldable pub IsFirst : s.Db → List ℕ → Option ℕ → Type 0
    IsFirst db [] none = Unit
    IsFirst db [] (some g) = ⊥
    IsFirst db (height ∷ hs) o =
        (IsAnchored s chain lib output_ids db height × (o ≡ some height))
        ⊎ ((¬ IsAnchored s chain lib output_ids db height) × IsFirst db hs o)

    by_goodness :
        (db : s.Db) (height : ℕ) (hs : List ℕ) (o : Option ℕ) (rest : Result StateError (Option ℕ))
        (b : Bool)
        → Decides b (IsAnchored s chain lib output_ids db height)
        → (rest ≡ ok o → IsFirst db hs o)
        → (if b then ok (some height) else rest) ≡ ok o
        → (IsAnchored s chain lib output_ids db height × (o ≡ some height))
          ⊎ ((¬ IsAnchored s chain lib output_ids db height) × IsFirst db hs o)
    by_goodness db height hs o rest true d later h = inl (d, sym (ok_injective h))
    by_goodness db height hs o rest false d later h = inr (d, later h)

    last_good_lem :
        (db : s.Db) (hs : List ℕ) (o : Option ℕ)
        → last_good s chain lib output_ids db hs ≡ ok o
        → IsFirst db hs o
    unfolding last_good IsFirst
    last_good_lem db [] none h = tt
    last_good_lem db [] (some g) h = none-some g (ok_injective h)
    last_good_lem db (height ∷ hs) o h =
        let p = >>=-eq-ok (is_good s chain lib output_ids db height) _ h in
        by_goodness db height hs o (last_good s chain lib output_ids db hs) p.0
          (is_good_lem s chain lib output_ids db height p.0 p.1.0) (last_good_lem db hs o) p.1.1

    IsFirst-none :
        (db : s.Db) (hs : List ℕ)
        → IsFirst db hs none
        → All (λ x. ¬ IsAnchored s chain lib output_ids db x) hs
    unfolding IsFirst
    IsFirst-none db [] f = tt
    IsFirst-none db (height ∷ hs) (inl f) = absurd (none-some height f.1)
    IsFirst-none db (height ∷ hs) (inr f) = (f.0, IsFirst-none db hs f.1)

    IsFirst-some :
        (P : ℕ → Type 0) (db : s.Db) (hs : List ℕ) (g : ℕ)
        → All P hs
        → IsFirst db hs (some g)
        → P g × IsAnchored s chain lib output_ids db g
    unfolding IsFirst
    IsFirst-some P db [] g a f = absurd f
    IsFirst-some P db (height ∷ hs) g a (inl f) =
        subst (λ x. P x × IsAnchored s chain lib output_ids db x) (sym (some_injective f.1))
          (a.0, f.0)
    IsFirst-some P db (height ∷ hs) g a (inr f) = IsFirst-some P db hs g a.1 f.1

    -- What recovery of a set at a height may do: with no block, or a block that is anchored, nothing;
    -- otherwise go down, to 10 below the first of the heights to look at that is anchored, or to 1 when
    -- none of them is.
    abbrev pub IsRecovery : StateManager s chain lib → StateManager s chain lib → Type 0
    IsRecovery m m' =
        ((m' ≡ m)
          × ((m.utxo.height ≡ 0) ⊎ IsAnchored s chain lib output_ids m.utxo.storage m.utxo.height))
        ⊎ ((¬ IsAnchored s chain lib output_ids m.utxo.storage m.utxo.height)
            × (m'.utxo.height < m.utxo.height)
            × (((m'.utxo.height ≡ 1)
                  × All (λ x. ¬ IsAnchored s chain lib output_ids m.utxo.storage x)
                      (check_heights m.utxo.height))
                ⊎ ((g : ℕ) × ((g < m.utxo.height)
                      × IsAnchored s chain lib output_ids m.utxo.storage g
                      × IsFirst m.utxo.storage (check_heights m.utxo.height) (some g)
                      × (m'.utxo.height ≡ g - 10)))))

    lower_heights : (height : ℕ) → 0 < height → All (λ x. x < height) (tail (check_heights height))
    unfolding check_heights
    lower_heights height h =
        (omega arith, (omega arith, (omega arith, (omega arith, (omega arith, tt)))))

    IsFirst-of_checked :
        (db : s.Db) (height : ℕ) (o : Option ℕ)
        → IsFirst db (check_heights height) o
        → (IsAnchored s chain lib output_ids db height × (o ≡ some height))
          ⊎ ((¬ IsAnchored s chain lib output_ids db height)
              × IsFirst db (tail (check_heights height)) o)
    unfolding check_heights IsFirst
    IsFirst-of_checked db height o f = f

    recovered :
        (m : StateManager s chain lib) (found : Option ℕ) {m' : StateManager s chain lib}
        → 0 < m.utxo.height
        → IsFirst m.utxo.storage (check_heights m.utxo.height) found
        → (elim (recovery_target m.utxo.height found) [
          | none ↦ ok m
          | some target ↦ rollback_to s chain lib m target
        ])
          ≡ ok m'
        → IsRecovery m m'
    unfolding recovery_target
    recovered m none positive f h =
        let q = rollback_to-height m 1 h in
        elim (IsFirst-of_checked m.utxo.storage m.utxo.height none f) [
          | inl a ↦ absurd (none-some m.utxo.height a.1)
          | inr r ↦ inr (
            r.0,
            omega (arith, q.0, q.1),
            inl (q.1, IsFirst-none m.utxo.storage (check_heights m.utxo.height) f),
          )
        ]
    recovered m (some good) positive f h =
        elim (IsFirst-of_checked m.utxo.storage m.utxo.height (some good) f) [
          | inl a ↦
              let same : good ≡ m.utxo.height = some_injective a.1 in
              let kept : ltb good m.utxo.height ≡ false = ground (arith, same) in
              inl (sym (ok_injective (rw kept at h)), inr a.0)
          | inr r ↦
              let g =
                IsFirst-some (λ x. x < m.utxo.height) m.utxo.storage
                  (tail (check_heights m.utxo.height)) good (lower_heights m.utxo.height positive)
                  r.1 in
              let lower : ltb good m.utxo.height ≡ true = ground (arith, g.0) in
              let q = rollback_to-height m (good - 10) (rw lower at h) in
              inr (r.0, omega (arith, q.0, q.1), inr (good, (g.0, g.1, f, q.1)))
        ]

    -- When recovery succeeds: it changed nothing, and the height is 0 or anchored, which means that the
    -- header of the index of heights and the transactions of its block are stored and an output of the
    -- first transaction is unspent; or the height is not anchored and the set went down, either to 10
    -- below (or 0) the first of the heights looked at that is anchored, or to 1 when none of them is.
    pub check_and_recover_utxo_state_lem :
        (m : StateManager s chain lib) {m' : StateManager s chain lib}
        → check_and_recover_utxo_state s chain lib output_ids m ≡ ok m'
        → IsRecovery m m'
    unfolding check_and_recover_utxo_state
    check_and_recover_utxo_state_lem m = elim (Bool-cases (m.utxo.height == 0)) [
      | inl q ↦ rw q (λ h. inl (sym (ok_injective h), inl (ground arith)))
      | inr q ↦ rw q (λ h.
          let p =
            >>=-eq-ok
              (last_good s chain lib output_ids m.utxo.storage (check_heights m.utxo.height)) _ h in
          recovered m p.0 (ground arith)
            (last_good_lem m.utxo.storage (check_heights m.utxo.height) p.0 p.1.0) p.1.1)
    ]

    -- At height 1 recovery fails when no output of the first transaction is unspent: it can go no lower.
    pub check_and_recover_utxo_state-rollback_failed :
        (m : StateManager s chain lib)
        → m.utxo.height ≡ 1
        → is_good s chain lib output_ids m.utxo.storage 1 ≡ ok false
        → check_and_recover_utxo_state s chain lib output_ids m ≡ err (rollback_failed 1)
    unfolding check_and_recover_utxo_state last_good is_good rollback_to rollback check_heights
        recovery_target
    check_and_recover_utxo_state-rollback_failed m one bad = rw (one, bad, one)
