-- ===== src/Nipopow/Tests.antt =====
-- The theorems at small chains and proofs (nipopow/).
use ergo_rust_node.Prelude.{
  All, ℕ, ◌+◌, ◌*◌, ◌^◌, ◌≤◌, ◌<◌, ◌≡◌, refl, true, false, List, [], ◌∷◌, map, none, some, ltb,
  length, replicate, ok, arith, is_some,
}
use ergo_rust_node.Nipopow.Interlinks.{
  pack_interlinks, unpack_interlinks, pack_loop, duplicates, same_bytes, update_interlinks,
}
use ergo_rust_node.Nipopow.Packing
use ergo_rust_node.Nipopow.Superchain
use ergo_rust_node.Nipopow.Superchain.{interlinks_after, highest, latest, nth_last}
use ergo_rust_node.Nipopow.Algos.{
  max_level_of, decode_nbits, best_arg, best_arg_loop, score, bits, bits_loop,
}
use ergo_rust_node.Nipopow.Scores
use ergo_rust_node.Nipopow.Best
use ergo_rust_node.Nipopow.Best.{IsBest}
use ergo_rust_node.Nipopow.Proof.{
  Header, PoPowHeader, NipopowProof, small_k, validate, genesis_id, headers_chain, is_valid,
  is_better_than, common_height, diverging, has_valid_heights, increasing, has_valid_connections,
  prefix_connects, tail_connects, connects_to, tip_height, tip_id,
}
use ergo_rust_node.Nipopow.Chains
use ergo_rust_node.Nipopow.Chains.{IsChain}
use ergo_rust_node.Nipopow.Verifier.{
  NipopowVerifier, better_chain, process, has_quorum, with_genesis, with_params, new,
  default_params, other_genesis, learn, is_better, set_genesis_id, reset, best_height,
  get_headers_to_apply,
}
use ergo_rust_node.Nipopow.Verifying
use ergo_rust_node.Nipopow.Verifying.{process_all}

abbrev links : List (List ℕ)
links = replicate 32 0 ∷ replicate 32 0 ∷ replicate 32 7 ∷ []

packed : length (pack_interlinks links) ≤ 256
unfolding pack_interlinks pack_loop duplicates same_bytes
packed = omega arith

unpack_interlinks-pack_interlinks_example :
    (unpack_interlinks (pack_interlinks links) ≡ ok links)
    × All Packing.IsCounted (pack_interlinks links)
unpack_interlinks-pack_interlinks_example =
    Packing.unpack_interlinks-pack_interlinks links (refl, (refl, (refl, tt))) packed

abbrev blocks : List (ℕ × ℕ)
blocks = (13, 1) ∷ (12, 3) ∷ (11, 0) ∷ []

interlinks_after-latest_example :
    (tail : List ℕ) × (interlinks_after 10 blocks ≡ 10 ∷ tail)
    × (length tail ≡ highest blocks)
    × ((n : ℕ) → nth_last n tail ≡ latest n blocks)
interlinks_after-latest_example = Superchain.interlinks_after-latest 10 blocks

-- A target of 100.
abbrev nbits : ℕ
nbits = 3 * 2 ^ 24 + 100

under : 5 < decode_nbits nbits
unfolding decode_nbits
under = omega arith

max_level_of_lem_example :
    (2 ^ max_level_of nbits 5 false * 5 ≤ decode_nbits nbits)
    × (decode_nbits nbits < 2 ^ (max_level_of nbits 5 false + 1) * 5)
max_level_of_lem_example = Scores.max_level_of_lem nbits 5 (omega arith) (omega arith) under

abbrev levels : List ℕ
levels = 0 ∷ 2 ∷ 1 ∷ 5 ∷ []

best_arg-IsBest_example : IsBest levels 2 (best_arg levels 2)
best_arg-IsBest_example =
    Best.best_arg-IsBest levels 2 (omega arith, (omega arith, (omega arith, (omega arith, tt))))
      (omega arith) (omega arith)

abbrev header : ℕ → ℕ → ℕ → Header
header id parent_id height = record {
  id = id;
  parent_id = parent_id;
  height = height;
  n_bits = nbits;
}

abbrev popow : Header → List ℕ → PoPowHeader
popow h interlinks = record { header = h; interlinks = interlinks; interlinks_proof = [] }

-- Two proofs from the same genesis, and one with a parameter k of 0.
abbrev short : NipopowProof
short = record {
  m = 1;
  k = 1;
  prefix = popow (header 1 0 1) [] ∷ [];
  suffix_head = popow (header 2 1 2) (1 ∷ []);
  suffix_tail = [];
  continuous = false;
}

abbrev long : NipopowProof
long = record {
  m = 1;
  k = 2;
  prefix = popow (header 1 0 1) [] ∷ [];
  suffix_head = popow (header 5 4 5) (1 ∷ []);
  suffix_tail = header 6 5 6 ∷ [];
  continuous = false;
}

abbrev bad : NipopowProof
bad = record short { k = 0 }

abbrev start : NipopowVerifier
start = with_params default_params 3

program :
    (interlinks_after 10 blocks ≡ 10 ∷ 12 ∷ 12 ∷ 13 ∷ [])
    × (max_level_of nbits 5 false ≡ 4)
    × (best_arg levels 2 ≡ 8)
    × (tip_height long ≡ 6)
    × (tip_id short ≡ 2)
    × (is_better_than long short ≡ true)
    × (best_height (process_all start (short ∷ long ∷ [])) ≡ some 6)
    × (get_headers_to_apply (reset (set_genesis_id start 1)) ≡ none)
unfolding interlinks_after update_interlinks max_level_of decode_nbits bits bits_loop best_arg
    best_arg_loop score tip_height tip_id is_better_than is_valid validate has_valid_heights
    increasing has_valid_connections prefix_connects tail_connects connects_to headers_chain
    common_height diverging best_height process with_params new genesis_id other_genesis learn
    is_better get_headers_to_apply reset set_genesis_id has_quorum
program = (refl, refl, refl, refl, refl, refl, refl, refl)

long_valid : validate long ≡ none
unfolding validate has_valid_heights increasing has_valid_connections prefix_connects tail_connects
    connects_to headers_chain
long_valid = refl

validate-IsChain_example : IsChain long
validate-IsChain_example = Chains.validate-IsChain long long_valid

both :
    (is_valid long ≡ true)
    × (is_valid short ≡ true)
    × (common_height (map (λ h. h.id) (headers_chain long)) (headers_chain short) ≡ some 1)
    × (length (diverging 1 (headers_chain long)) < 2 ^ 63)
    × (length (diverging 1 (headers_chain short)) < 2 ^ 63)
unfolding is_valid validate has_valid_heights increasing has_valid_connections prefix_connects
    tail_connects connects_to headers_chain common_height diverging
both = (refl, refl, refl, omega arith, omega arith)

is_better_than_counts_example :
    is_better_than long short
    ≡ ltb (length (diverging 1 (headers_chain short))) (length (diverging 1 (headers_chain long)))
is_better_than_counts_example =
    Chains.is_better_than_counts long short 1 both.0 both.1 both.2 (omega arith) (omega arith)
      both.3 both.4

learnt : (process_all (with_genesis 1) (bad ∷ short ∷ long ∷ [])).best_proof ≡ some long
unfolding process with_genesis new is_better_than is_valid validate has_valid_heights increasing
    has_valid_connections prefix_connects tail_connects connects_to headers_chain common_height
    diverging best_arg best_arg_loop score genesis_id other_genesis learn is_better
learnt = refl

process_all-IsChain_example : IsChain long × (genesis_id long ≡ some 1)
process_all-IsChain_example = Verifying.process_all-IsChain 1 (bad ∷ short ∷ long ∷ []) long learnt

abbrev holding : NipopowVerifier
holding = (process start short).0

held :
    (holding.best_proof ≡ some short)
    × ((process holding long).0.best_proof ≡ some long)
    × ((process start short).1 ≡ better_chain 1)
    × (validate bad ≡ some small_k)
    × (holding.proofs_processed + 2 ≡ holding.min_proofs)
    × (holding.min_proofs < 2 ^ 31)
unfolding process with_params new is_better_than is_valid validate has_valid_heights increasing
    has_valid_connections prefix_connects tail_connects connects_to headers_chain common_height
    diverging best_arg best_arg_loop score genesis_id other_genesis learn is_better
held = (refl, refl, refl, refl, refl, omega arith)

has_best : is_some holding.best_proof ≡ true
unfolding process with_params new validate has_valid_heights increasing has_valid_connections
    prefix_connects tail_connects connects_to headers_chain genesis_id other_genesis learn is_better
has_best = refl
