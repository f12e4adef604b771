-- ===== src/Utxo/Apply/Consistent.antt =====
-- What the storage of unspent boxes always satisfies: every id holds the entry of the box with that
-- id, in a form that is read back (crates/ergo-state/src/utxo.rs).
use ergo_rust_node.Prelude.{
  ℕ, ◌≡◌, refl, sym, ap, subst, ◌∙◌, inl, inr, Bool-cases, Option, none, some, List, [], ◌∷◌, All,
  Result, ok, err, ◌>>=◌, ok_injective, arith,
}
use ergo_rust_node.Storage.{Storage, utxo}
use ergo_rust_node.Storage.Bytes.{same_bytes, same_bytes_eq}
use ergo_rust_node.State.{StateError}
use ergo_rust_node.Utxo.{ErgoLib, BoxEntry, StateChange, UtxoState, box_id}
use ergo_rust_node.Utxo.Codec.{serialize, deserialize}
use ergo_rust_node.Utxo.Codec.RoundTrip.{IsStorable, deserialize-serialize}
use ergo_rust_node.Utxo.Index.{get_box, has_id}
use ergo_rust_node.Utxo.Apply.{apply_change}
use ergo_rust_node.Utxo.Apply.Loops.{ok_value, with_created, without, changed}
use ergo_rust_node.Utxo.Apply.View.{apply_change_lem}

pub some_injective {ℓ} : {A : Type ℓ} {a b : A} → some a ≡ some b → a ≡ b
some_injective h = ground arith

module _ (lib : ErgoLib) where
  -- What an id may hold: nothing, or the stored form of a box with that id.
  abbrev pub StoredAs : List ℕ → Option (List ℕ) → Type 0
  StoredAs id none = Unit
  StoredAs id (some bytes) =
      (e : BoxEntry lib) × (IsStorable lib e × (serialize lib e ≡ ok bytes) × (box_id lib e ≡ id))

  stored-StoredAs :
      (e : BoxEntry lib) (k : List ℕ) (r : Result StateError (List ℕ))
      → serialize lib e ≡ r
      → IsStorable lib e
      → box_id lib e ≡ k
      → StoredAs k (ok_value r)
  stored-StoredAs e k (ok bytes) h a q = (e, (a, h, q))
  stored-StoredAs e k (err x) h a q = tt

  with_created-StoredAs :
      (es : List (BoxEntry lib)) (k : List ℕ) (old : Option (List ℕ))
      → All (IsStorable lib) es
      → StoredAs k old
      → StoredAs k (with_created lib es k old)
  unfolding with_created
  with_created-StoredAs [] k old a h = h
  with_created-StoredAs (e ∷ es) k old a h = elim (Bool-cases (same_bytes (box_id lib e) k)) [
    | inl q ↦
        with_created-StoredAs es k _ a.1
          (rw q (stored-StoredAs e k _ refl a.0 (same_bytes_eq _ k q)))
    | inr q ↦ with_created-StoredAs es k _ a.1 (rw q h)
  ]

  without-StoredAs :
      (ids : List (List ℕ)) (k : List ℕ) (old : Option (List ℕ))
      → StoredAs k old
      → StoredAs k (without ids k old)
  without-StoredAs ids k old h = elim (Bool-cases (has_id ids k)) [
    | inl q ↦ rw q tt
    | inr q ↦ rw q h
  ]

  -- The entry that a consistent id is read as.
  pub deserialize-StoredAs :
      (id bytes : List ℕ)
      → StoredAs id (some bytes)
      → (e : BoxEntry lib) × ((deserialize lib bytes ≡ ok e)
          × IsStorable lib e
          × (serialize lib e ≡ ok bytes)
          × (box_id lib e ≡ id))
  deserialize-StoredAs id bytes (e, (a, h, q)) =
      (e, (deserialize-serialize lib e bytes a.0 h, a, h, q))

module _ (s : Storage) (lib : ErgoLib) where
  -- The invariant of the box storage.
  unfoldable pub IsConsistent : s.Db → Type 0
  IsConsistent db = (id : List ℕ) → StoredAs lib id (s.get db utxo id)

  -- `apply_change` keeps the box storage consistent when the created boxes have the widths of their
  -- fields.
  pub apply_change-IsConsistent :
      (u : UtxoState lib s) (change : StateChange lib) (h : ℕ) {u' : UtxoState lib s}
      → IsConsistent u.storage
      → All (IsStorable lib) change.created
      → apply_change s lib u change h ≡ ok u'
      → IsConsistent u'.storage
  unfolding IsConsistent changed
  apply_change-IsConsistent u change h c a e id = rw (apply_change_lem s lib u change h e id) (
      with_created-StoredAs lib change.created id _ a
        (without-StoredAs lib change.spent id _ (c id)))

  -- A consistent storage answers every lookup.
  pub get_box-total :
      (db : s.Db) (id : List ℕ)
      → IsConsistent db
      → (o : Option (BoxEntry lib)) × (get_box s lib db id ≡ ok o)
  unfolding IsConsistent get_box
  get_box-total db id c = by_value (s.get db utxo id) (c id)
    where
      by_value :
          (v : Option (List ℕ))
          → StoredAs lib id v
          → (o : Option (BoxEntry lib)) × (elim v [
            | none ↦ ok none
            | some bytes ↦ deserialize lib bytes >>= λ entry. ok (some entry)
          ]
              ≡ ok o)
      by_value none h = (none, refl)
      by_value (some bytes) h = let p = deserialize-StoredAs lib id bytes h in (some p.0, rw p.1.0)

  -- What a saved entry is: the box with that id, storable, and what the id holds.
  pub get_box-some :
      (db : s.Db) (id : List ℕ) (e : BoxEntry lib)
      → IsConsistent db
      → get_box s lib db id ≡ ok (some e)
      → (bytes : List ℕ) × (IsStorable lib e
          × (serialize lib e ≡ ok bytes)
          × (s.get db utxo id ≡ some bytes)
          × (box_id lib e ≡ id))
  unfolding IsConsistent get_box
  get_box-some db id e c h = by_value (s.get db utxo id) (c id) h
    where
      by_value :
          (v : Option (List ℕ))
          → StoredAs lib id v
          → ◌≡◌ {A = Result StateError (Option (BoxEntry lib))}
              (elim v [
                | none ↦ ok none
                | some bytes ↦ deserialize lib bytes >>= λ entry. ok (some entry)
              ])
              (ok (some e))
          → (bytes : List ℕ) × (IsStorable lib e
              × (serialize lib e ≡ ok bytes)
              × (v ≡ some bytes)
              × (box_id lib e ≡ id))
      by_value none h q = absurd (ground arith)
      by_value (some bytes) h q =
          let p = deserialize-StoredAs lib id bytes h in
          let r : p.0 ≡ e =
            some_injective (ok_injective (sym (ap (λ m. m >>= λ x. ok (some x)) p.1.0) ∙ q)) in
          (
            bytes,
            subst
                (λ x.
                  IsStorable lib x
                  × (serialize lib x ≡ ok bytes)
                  × (some bytes ≡ some bytes)
                  × (box_id lib x ≡ id))
                r (p.1.1, p.1.2, refl, p.1.3),
          )

  -- Consistency is a matter of the boxes only.
  pub IsConsistent-agree :
      (db db' : s.Db)
      → ((k : List ℕ) → s.get db' utxo k ≡ s.get db utxo k)
      → IsConsistent db
      → IsConsistent db'
  unfolding IsConsistent
  IsConsistent-agree db db' same c id = rw (same id) (c id)
