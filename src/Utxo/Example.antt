-- ===== src/Utxo/Example.antt =====
-- A library of boxes for tests (crates/ergo-state/src/utxo.rs).
use ergo_rust_node.Prelude.{ℕ, ◌≡◌, refl, sym, Option, none, some, List, [], ◌∷◌, replicate, arith}
use ergo_rust_node.Utxo.{ErgoLib, BoxEntry}
use ergo_rust_node.Utxo.Codec.{serialize}
use ergo_rust_node.Utxo.Codec.RoundTrip.{IsStorable}
use ergo_rust_node.Utxo.Apply.Consistent.{some_injective}

abbrev parse : List ℕ → Option ℕ
parse [] = none
parse (n ∷ []) = some n
parse (n ∷ m ∷ rest) = none

pub parse-some : (n : ℕ) (bytes : List ℕ) → some (n ∷ []) ≡ some bytes → parse bytes ≡ some n
parse-some n bytes h = rw (sym (some_injective h))

-- A box is a number, which is also the first byte of its id; all boxes have one tree.
abbrev pub lib : ErgoLib
lib = record {
  ErgoBox = ℕ;
  id_of = λ n. n ∷ replicate 31 0;
  sigma_serialize_bytes = λ n. some (n ∷ []);
  sigma_parse_bytes = parse;
  tree_bytes = λ n. some (7 ∷ []);
  token_ids = λ n. (9 ∷ []) ∷ [];
  blake2b256 = λ bytes. bytes;
  length-id_of = λ n. refl;
  parse-serialize = parse-some;
}

abbrev pub entry : ℕ → BoxEntry lib
entry n = record { ergo_box = n; creation_height = 1; tx_id = replicate 32 0; output_index = 0 }

abbrev pub id : ℕ → List ℕ
id n = n ∷ replicate 31 0

pub storable : (n : ℕ) → IsStorable lib (entry n)
unfolding serialize
storable n = (
  record { tx_id_len = refl; height_bound = omega arith; index_bound = omega arith },
  omega arith,
)
