-- ===== src/History/Example.antt =====
-- A library of headers and transactions for tests (crates/ergo-state/src/history.rs).
use ergo_rust_node.Prelude.{
  ℕ, ◌≡◌, refl, sym, Option, none, some, List, [], ◌∷◌, ◌++◌, replicate, take, drop,
}
use ergo_rust_node.Storage.Bytes.{be_u32, from_be}
use ergo_rust_node.Utxo.Apply.Consistent.{some_injective}
use ergo_rust_node.History.{Header, ChainLib}

abbrev first_of : List ℕ → ℕ
first_of [] = 0
first_of (n ∷ rest) = n

abbrev parse_tx : List ℕ → Option ℕ
parse_tx [] = none
parse_tx (n ∷ []) = some n
parse_tx (n ∷ m ∷ rest) = none

pub parse_tx-some : (n : ℕ) (bytes : List ℕ) → some (n ∷ []) ≡ some bytes → parse_tx bytes ≡ some n
parse_tx-some n bytes h = rw (sym (some_injective h))

-- A header is its fields, one after the other; the hash takes the first 32 bytes, which are the id.
abbrev pub lib : ChainLib
lib = record {
  scorex_serialize_bytes =
      λ h. some (h.id ++ (h.parent_id ++ (be_u32 h.height ++ be_u32 h.n_bits)));
  scorex_parse_bytes = λ bytes. some (record {
    id = [];
    parent_id = take 32 (drop 32 bytes);
    height = from_be 0 (take 4 (drop 64 bytes));
    n_bits = from_be 0 (drop 68 bytes);
    state_root = [];
  });
  blake2b256 = take 32;
  to_bytes_be = λ n. n ∷ [];
  from_bytes_be = first_of;
  Tx = ℕ;
  sigma_serialize_bytes = λ n. some (n ∷ []);
  sigma_parse_bytes = parse_tx;
  from-to = λ n. refl;
  parse-serialize = parse_tx-some;
}

abbrev pub id : ℕ → List ℕ
id n = n ∷ replicate 31 0

-- All headers have the difficulty 2.
abbrev pub header : ℕ → ℕ → ℕ → Header
header n parent height = record {
  id = id n;
  parent_id = id parent;
  height = height;
  n_bits = 0x207fffff;
  state_root = [];
}
