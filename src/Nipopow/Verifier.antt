-- ===== src/Nipopow/Verifier.antt =====
-- The verifier of proofs, crates/ergo-consensus/src/nipopow/verifier.rs.
use ergo_rust_node.Prelude.{
  ℕ, ◌+◌, ◌%◌, ◌^◌, Bool, true, false, not, ◌&&◌, List, Option, none, some, leb, ◌==◌,
  if◌then◌else◌, is_some, u32_mod,
}
use ergo_rust_node.Nipopow.Proof.{
  Header, NipopowProof, ProofError, genesis_id, headers_chain, tip_height, validate, is_better_than,
}

pub data NipopowVerificationResult : Type 0 where
  better_chain : ℕ → NipopowVerificationResult
  no_better_chain : ℕ → NipopowVerificationResult
  validation_error : ProofError → NipopowVerificationResult
  wrong_genesis : NipopowVerificationResult

pub record PoPowParams : Type 0 where
  pub m : ℕ
  pub k : ℕ
  pub continuous : Bool

abbrev pub default_m : ℕ
default_m = 30

abbrev pub default_k : ℕ
default_k = 30

pub record NipopowVerifier : Type 0 where
  pub expected_genesis : Option ℕ
  pub best_proof : Option NipopowProof
  pub proofs_processed : ℕ
  pub min_proofs : ℕ
  pub params : PoPowParams

abbrev pub default_params : PoPowParams
default_params = record { m = default_m; k = default_k; continuous = false }

unfoldable pub new : NipopowVerifier
new = record {
  expected_genesis = none;
  best_proof = none;
  proofs_processed = 0;
  min_proofs = 1;
  params = default_params;
}

unfoldable pub with_genesis : ℕ → NipopowVerifier
unfolding new
with_genesis id = record new { expected_genesis = some id }

unfoldable pub with_params : PoPowParams → ℕ → NipopowVerifier
unfolding new
with_params params min_proofs = record new { params = params; min_proofs = min_proofs }

-- Counters are `i32`, as bit patterns; the comparison is signed.
abbrev pub lift_i32 : ℕ → ℕ
lift_i32 a = (a + 2 ^ 31) % u32_mod

unfoldable pub has_quorum : NipopowVerifier → Bool
has_quorum v = leb (lift_i32 v.min_proofs) (lift_i32 v.proofs_processed) && is_some v.best_proof

unfoldable pub best_height : NipopowVerifier → Option ℕ
best_height v = elim v.best_proof [ none ↦ none | some p ↦ some (tip_height p) ]

unfoldable pub set_genesis_id : NipopowVerifier → ℕ → NipopowVerifier
set_genesis_id v id = record v { expected_genesis = some id }

-- Whether the genesis of the proof is another than the expected one.
unfoldable pub other_genesis : Option ℕ → Option ℕ → Bool
other_genesis (some expected) (some id) = not (id == expected)
other_genesis expected id = false

-- The expected genesis, learnt from the proof if it is not known.
unfoldable pub learn : Option ℕ → Option ℕ → Option ℕ
learn none id = id
learn (some expected) id = some expected

unfoldable pub is_better : NipopowProof → Option NipopowProof → Bool
is_better proof none = true
is_better proof (some current_best) = is_better_than proof current_best

unfoldable pub process :
    NipopowVerifier → NipopowProof → NipopowVerifier × NipopowVerificationResult
process v proof =
    let counted : NipopowVerifier = record v {
      proofs_processed = (v.proofs_processed + 1) % u32_mod;
    } in
    elim (validate proof) [
      | some e ↦ (counted, validation_error e)
      | none ↦
          if other_genesis v.expected_genesis (genesis_id proof)
          then (counted, wrong_genesis)
          else let learnt : NipopowVerifier = record counted {
            expected_genesis = learn v.expected_genesis (genesis_id proof);
          } in
            if is_better proof v.best_proof
            then (record learnt { best_proof = some proof }, better_chain counted.proofs_processed)
            else (learnt, no_better_chain counted.proofs_processed)
    ]

unfoldable pub reset : NipopowVerifier → NipopowVerifier
reset v = record v { best_proof = none; proofs_processed = 0 }

unfoldable pub get_headers_to_apply : NipopowVerifier → Option (List Header)
get_headers_to_apply v =
    if not (has_quorum v)
    then none
    else elim v.best_proof [ none ↦ none | some p ↦ some (headers_chain p) ]
