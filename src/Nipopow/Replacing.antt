-- ===== src/Nipopow/Replacing.antt =====
-- When the best proof is replaced, and what counts towards the quorum (verifier.rs).
use ergo_rust_node.Prelude.{
  ℕ, zero, suc, ◌+◌, ◌%◌, ◌^◌, ◌<◌, ◌≡◌, refl, ap, ◌∙◌, sym, inl, inr, ◌⊎◌, true, false, Option,
  none, some, ==_refl, is_some, replicate, u32_mod, arith, Bool-cases, Option-cases,
}
use ergo_rust_node.Nipopow.Proof.{NipopowProof, ProofError, genesis_id, validate, is_better_than}
use ergo_rust_node.Nipopow.Chains.{is_better_than_irrefl}
use ergo_rust_node.Nipopow.Verifier.{
  NipopowVerifier, better_chain, no_better_chain, has_quorum, process, other_genesis, learn,
  is_better,
}
use ergo_rust_node.Nipopow.Verifying.{process-cases, process_all}

-- The best proof gives way only to a valid proof that is better.
pub process-improves :
    (v : NipopowVerifier) (proof q old : NipopowProof)
    → v.best_proof ≡ some old
    → (process v proof).0.best_proof ≡ some q
    → (q ≡ old) ⊎ ((q ≡ proof) × (validate proof ≡ none) × (is_better_than proof old ≡ true))
unfolding is_better
process-improves v proof q old o h = elim (process-cases v proof) [
  | inl (b, e) ↦ inl (ground arith)
  | inr (c, g, e, inl b) ↦ inl (ground arith)
  | inr (c, g, e, inr (b, better)) ↦ inr (ground arith, c, ap (is_better proof) (sym o) ∙ better)
]

other_genesis-learn :
    (expected id : Option ℕ)
    → other_genesis expected id ≡ false
    → other_genesis (learn expected id) id ≡ false
unfolding other_genesis learn
other_genesis-learn none none h = refl
other_genesis-learn none (some i) h = ground (arith, ==_refl i)
other_genesis-learn (some e) id h = h

process-better :
    (v : NipopowVerifier) (proof : NipopowProof) (n : ℕ)
    → (process v proof).1 ≡ better_chain n
    → (validate proof ≡ none)
      × (other_genesis v.expected_genesis (genesis_id proof) ≡ false)
      × ((process v proof).0.expected_genesis ≡ learn v.expected_genesis (genesis_id proof))
      × ((process v proof).0.best_proof ≡ some proof)
      × ((process v proof).0.proofs_processed ≡ n)
unfolding process
process-better v proof n h = elim (Option-cases (validate proof)) [
  | inr (e, i) ↦ absurd (ground arith)
  | inl c ↦ elim (Bool-cases (other_genesis v.expected_genesis (genesis_id proof))) [
    | inl g ↦ absurd (ground arith)
    | inr g ↦ elim (Bool-cases (is_better proof v.best_proof)) [
      | inl b ↦ (c, g, ground arith, ground arith, ground arith)
      | inr b ↦ absurd (ground arith)
    ]
  ]
]

process-worse :
    (v : NipopowVerifier) (proof : NipopowProof)
    → validate proof ≡ none
    → other_genesis v.expected_genesis (genesis_id proof) ≡ false
    → is_better proof v.best_proof ≡ false
    → (process v proof).1 ≡ no_better_chain ((v.proofs_processed + 1) % u32_mod)
unfolding process
process-worse v proof c g b = ground arith

is_better-same : (proof : NipopowProof) → is_better proof (some proof) ≡ false
unfolding is_better
is_better-same proof = is_better_than_irrefl proof

-- A proof that became the best is not better when it comes again.
pub process-again :
    (v : NipopowVerifier) (proof : NipopowProof) (n : ℕ)
    → (process v proof).1 ≡ better_chain n
    → (process (process v proof).0 proof).1 ≡ no_better_chain ((n + 1) % u32_mod)
process-again v proof n h =
    let (c, g, e, b, m) = process-better v proof n h in
    let w = (process v proof).0 in
    let expected =
      ap (λ x. other_genesis x (genesis_id proof)) e
      ∙ other_genesis-learn v.expected_genesis (genesis_id proof) g in
    process-worse w proof c expected (ap (is_better proof) b ∙ is_better-same proof)
    ∙ ap (λ k. no_better_chain ((k + 1) % u32_mod)) m

-- A proof that does not validate is counted all the same.
process-rejected :
    (v : NipopowVerifier) (bad : NipopowProof) (e : ProofError)
    → validate bad ≡ some e
    → ((process v bad).0.proofs_processed ≡ (v.proofs_processed + 1) % u32_mod)
      × ((process v bad).0.min_proofs ≡ v.min_proofs)
      × ((process v bad).0.best_proof ≡ v.best_proof)
unfolding process
process-rejected v bad e h = (ground arith, ground arith, ground arith)

all_rejected :
    (v : NipopowVerifier) (bad : NipopowProof) (e : ProofError) (n : ℕ)
    → validate bad ≡ some e
    → v.proofs_processed + n < 2 ^ 31
    → ((process_all v (replicate n bad)).proofs_processed ≡ v.proofs_processed + n)
      × ((process_all v (replicate n bad)).min_proofs ≡ v.min_proofs)
      × ((process_all v (replicate n bad)).best_proof ≡ v.best_proof)
all_rejected v bad e zero h k = (omega arith, refl, refl)
all_rejected v bad e (suc n) h k =
    let (c, m, b) = process-rejected v bad e h in
    let w = (process v bad).0 in
    let (c', m', b') = all_rejected w bad e n h (omega (arith, c, k)) in
    (omega (arith, c, c', k), m' ∙ m, b' ∙ b)

-- A verifier with a best proof that is n proofs short of its minimum, which is below 2 ^ 31, reaches the
-- quorum by n repetitions of a proof that does not validate.
pub quorum-rejected :
    (v : NipopowVerifier) (bad : NipopowProof) (e : ProofError) (n : ℕ)
    → validate bad ≡ some e
    → is_some v.best_proof ≡ true
    → v.proofs_processed + n ≡ v.min_proofs
    → v.min_proofs < 2 ^ 31
    → has_quorum (process_all v (replicate n bad)) ≡ true
unfolding has_quorum
quorum-rejected v bad e n h s q k =
    let (c, m, b) = all_rejected v bad e n h (omega (arith, q, k)) in
    ground (arith, c, m, ap is_some b, s, q, k)
