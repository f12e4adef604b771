-- ===== src/Nipopow/Verifying.antt =====
-- What the verifier keeps over a sequence of proofs (verifier.rs).
use ergo_rust_node.Prelude.{
  ℕ, ◌<◌, ◌≡◌, refl, ap, ◌∙◌, sym, inl, inr, ◌⊎◌, true, false, List, [], ◌∷◌, Option, none, some,
  ==_iff, is_some, length, arith, Bool-cases, Option-cases,
}
use ergo_rust_node.Nipopow.Proof.{PoPowHeader, NipopowProof, genesis_id, validate, first}
use ergo_rust_node.Nipopow.Chains.{IsChain, validate-IsChain}
use ergo_rust_node.Nipopow.Verifier.{
  NipopowVerifier, process, other_genesis, learn, is_better, with_genesis, new,
}

-- The best proof validates and starts from the expected genesis.
pub record IsSound (v : NipopowVerifier) : Type 0 where
  pub sound : (p : NipopowProof) → v.best_proof ≡ some p → validate p ≡ none
  pub rooted : (p : NipopowProof) → v.best_proof ≡ some p → genesis_id p ≡ v.expected_genesis

genesis-learn :
    (expected id : Option ℕ)
    → is_some id ≡ true
    → other_genesis expected id ≡ false
    → learn expected id ≡ id
unfolding other_genesis learn
genesis-learn none id s h = refl
genesis-learn (some e) none s h = absurd (ground arith)
genesis-learn (some e) (some i) s h = ground (arith, ==_iff i e)

genesis_id-some : (p : NipopowProof) → validate p ≡ none → is_some (genesis_id p) ≡ true
unfolding genesis_id
genesis_id-some p h = go p.prefix (validate-IsChain p h).started
  where
    go :
        (hs : List PoPowHeader)
        → 0 < length hs
        → is_some (elim (first hs) [ none ↦ none | some h ↦ some h.header.id ]) ≡ true
    go [] k = absurd (omega arith)
    go (x ∷ xs) k = refl

-- A processed proof is counted; then it is rejected, or passed over, or becomes the best.
pub process-cases :
    (v : NipopowVerifier) (proof : NipopowProof)
    → (((process v proof).0.best_proof ≡ v.best_proof)
        × ((process v proof).0.expected_genesis ≡ v.expected_genesis))
      ⊎ ((validate proof ≡ none)
          × (other_genesis v.expected_genesis (genesis_id proof) ≡ false)
          × ((process v proof).0.expected_genesis ≡ learn v.expected_genesis (genesis_id proof))
          × (((process v proof).0.best_proof ≡ v.best_proof)
              ⊎ (((process v proof).0.best_proof ≡ some proof)
                  × (is_better proof v.best_proof ≡ true))))
unfolding process
process-cases v proof = elim (Option-cases (validate proof)) [
  | inr (e, i) ↦ inl (ground arith, ground arith)
  | inl c ↦ elim (Bool-cases (other_genesis v.expected_genesis (genesis_id proof))) [
    | inl g ↦ inl (ground arith, ground arith)
    | inr g ↦ elim (Bool-cases (is_better proof v.best_proof)) [
      | inl b ↦ inr (c, g, ground arith, inr (ground arith, b))
      | inr b ↦ inr (c, g, ground arith, inl (ground arith))
    ]
  ]
]

learn-known : (expected id : Option ℕ) → is_some expected ≡ true → learn expected id ≡ expected
unfolding learn
learn-known none id h = absurd (ground arith)
learn-known (some e) id h = refl

process_sound :
    (v : NipopowVerifier) (proof p : NipopowProof)
    → IsSound v
    → (process v proof).0.best_proof ≡ some p
    → (validate p ≡ none) × (genesis_id p ≡ (process v proof).0.expected_genesis)
process_sound v proof p s h = elim (process-cases v proof) [
  | inl (b, e) ↦ let old = sym b ∙ h in (s.sound p old, s.rooted p old ∙ sym e)
  | inr (c, g, e, inl b) ↦
      let old = sym b ∙ h in
      let valid = s.sound p old in
      let known = ap is_some (sym (s.rooted p old)) ∙ genesis_id-some p valid in
      let kept = learn-known v.expected_genesis (genesis_id proof) known in
      (valid, s.rooted p old ∙ sym (e ∙ kept))
  | inr (c, g, e, inr (b, better)) ↦
      let same : proof ≡ p = ground arith in
      let rooted =
        genesis-learn v.expected_genesis (genesis_id proof) (genesis_id-some proof c) g in
      (ap validate (sym same) ∙ c, ap genesis_id (sym same) ∙ sym (e ∙ rooted))
]

process-IsSound :
    (v : NipopowVerifier) (proof : NipopowProof) → IsSound v → IsSound (process v proof).0
process-IsSound v proof s = record {
  sound = λ p h. (process_sound v proof p s h).0;
  rooted = λ p h. (process_sound v proof p s h).1;
}

-- The verifier after a sequence of proofs.
abbrev pub process_all : NipopowVerifier → List NipopowProof → NipopowVerifier
process_all v [] = v
process_all v (p ∷ ps) = process_all (process v p).0 ps

pub process_all-IsSound :
    (v : NipopowVerifier) (proofs : List NipopowProof) → IsSound v → IsSound (process_all v proofs)
process_all-IsSound v [] s = s
process_all-IsSound v (p ∷ ps) s = process_all-IsSound (process v p).0 ps (process-IsSound v p s)

with_genesis-IsSound : (id : ℕ) → IsSound (with_genesis id)
unfolding with_genesis new
with_genesis-IsSound id = record { sound = λ p h. cc; rooted = λ p h. cc }

known_genesis :
    (v : NipopowVerifier) (proof : NipopowProof)
    → is_some v.expected_genesis ≡ true
    → (process v proof).0.expected_genesis ≡ v.expected_genesis
known_genesis v proof k = elim (process-cases v proof) [
  | inl (b, e) ↦ e
  | inr (c, g, e, r) ↦ e ∙ learn-known v.expected_genesis (genesis_id proof) k
]

process_all-genesis :
    (v : NipopowVerifier) (proofs : List NipopowProof)
    → is_some v.expected_genesis ≡ true
    → (process_all v proofs).expected_genesis ≡ v.expected_genesis
process_all-genesis v [] k = refl
process_all-genesis v (p ∷ ps) k =
    let same = known_genesis v p k in
    process_all-genesis (process v p).0 ps (ap is_some same ∙ k) ∙ same

with_genesis-expected : (id : ℕ) → (with_genesis id).expected_genesis ≡ some id
unfolding with_genesis new
with_genesis-expected id = refl

-- A verifier that knows the genesis, after any sequence of proofs, has as its best proof a valid
-- chain from that genesis.
pub process_all-IsChain :
    (id : ℕ) (proofs : List NipopowProof) (p : NipopowProof)
    → (process_all (with_genesis id) proofs).best_proof ≡ some p
    → IsChain p × (genesis_id p ≡ some id)
process_all-IsChain id proofs p h =
    let s = process_all-IsSound (with_genesis id) proofs (with_genesis-IsSound id) in
    let known = ap is_some (with_genesis-expected id) in
    (
      validate-IsChain p (s.sound p h),
      s.rooted p h ∙ process_all-genesis (with_genesis id) proofs known ∙ with_genesis-expected id,
    )
