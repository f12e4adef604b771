-- ===== src/Assoc/Laws.antt =====
-- What can be read after an operation.
use ergo_rust_node.Prelude.{
  All, Bool, true, inl, inr, ap, sym, ◌∙◌, Bool-cases, ==_iff, ℕ, ◌≡◌, refl, List, [], ◌∷◌, none,
  some, arith, ◌==◌, if◌then◌else◌, contains,
}
use ergo_rust_node.Assoc.Defs.{Map, get, insert, erase, Unique, insert_all, erase_all, retain, kept}

module _ {ℓ} {V : Type ℓ} where
  get_nil : (k : ℕ) → get {V = V} k [] ≡ none
  unfolding get
  get_nil k = refl

  pub get-insert :
      (k j : ℕ) (v : V) (m : Map V) → get j (insert k v m) ≡ (if k == j then some v else get j m)
  unfolding get insert
  get-insert k j v [] = ground arith
  get-insert k j v ((i, w) ∷ m) = ground (arith, get-insert k j v m)

  pub get-erase : (k j : ℕ) (m : Map V) → get j (erase k m) ≡ (if k == j then none else get j m)
  unfolding get erase
  get-erase k j [] = ground arith
  get-erase k j ((i, w) ∷ m) = ground (arith, get-erase k j m)

  pub insert-Unique : (k : ℕ) (v : V) (m : Map V) → Unique m → Unique (insert k v m)
  unfolding insert
  insert-Unique k v [] u = ground (arith, get_nil k)
  insert-Unique k v ((i, w) ∷ m) u = ground (arith, get-insert k i v m, insert-Unique k v m)

  pub erase-Unique : (k : ℕ) (m : Map V) → Unique m → Unique (erase k m)
  unfolding erase
  erase-Unique k [] u = u
  erase-Unique k ((i, w) ∷ m) u = ground (arith, get-erase k i m, erase-Unique k m)

  -- Erasing an absent key changes nothing.
  pub erase_absent : (k : ℕ) (m : Map V) → get k m ≡ none → erase k m ≡ m
  unfolding get erase
  erase_absent k [] h = refl
  erase_absent k ((i, w) ∷ m) h = ground (arith, erase_absent k m)

module _ {ℓ} {V : Type ℓ} where
  pub get-insert_all :
      (ks : List ℕ) (j : ℕ) (v : V) (m : Map V)
      → get j (insert_all ks v m) ≡ (if contains ks j then some v else get j m)
  unfolding insert_all
  get-insert_all [] j v m = refl
  get-insert_all (k ∷ ks) j v m =
      ground (arith, get-insert_all ks j v (insert k v m), get-insert k j v m)

  pub get-erase_all :
      (ks : List ℕ) (j : ℕ) (m : Map V)
      → get j (erase_all ks m) ≡ (if contains ks j then none else get j m)
  unfolding erase_all
  get-erase_all [] j m = refl
  get-erase_all (k ∷ ks) j m = ground (arith, get-erase_all ks j (erase k m), get-erase k j m)

  pub get-retain :
      (p : V → Bool) (k : ℕ) (m : Map V) → Unique m → get k (retain p m) ≡ kept p (get k m)
  unfolding get retain
  get-retain p k [] u = refl
  get-retain p k ((i, w) ∷ m) u = elim (Bool-cases (i == k)) [
    | inl e ↦
        let gone = ap (λ j. get j m) (sym ((==_iff i k).0 e)) ∙ u.0 in
        ground (arith, get-retain p k m u.1, gone)
    | inr e ↦ ground (arith, get-retain p k m u.1)
  ]

  pub retain-Unique : (p : V → Bool) (m : Map V) → Unique m → Unique (retain p m)
  unfolding get retain
  retain-Unique p [] u = u
  retain-Unique p ((i, w) ∷ m) u = ground (arith, get-retain p i m u.1, retain-Unique p m u.1)

  -- A test that all values pass changes nothing.
  pub retain-All : (p : V → Bool) (m : Map V) → All (λ e. p e.1 ≡ true) m → retain p m ≡ m
  unfolding retain
  retain-All p [] a = refl
  retain-All p ((i, w) ∷ m) a = ground (arith, a.0, retain-All p m a.1)
