-- ===== src/History.antt =====
-- Headers, full blocks and the choice of the best chain, as in crates/ergo-state/src/history.rs: the
-- header store here, block sections in History/Blocks, the operations of `History` in History/Chain.
-- Headers and transactions of `ergo_lib`, Blake2b-256 and `num_bigint` are parameters.
pub mod Difficulty
pub mod Blocks
pub mod Chain
pub mod Queries
pub mod Example
mod Tests
use ergo_rust_node.Prelude.{
  ℕ, zero, suc, ◌+◌, ◌-◌, ◌≡◌, Bool, Option, none, some, List, [], ◌∷◌, ◌==◌, if◌then◌else◌, length,
  Result, ok, err, ◌>>=◌, ok_or, saturating_add_u32,
}
use ergo_rust_node.Storage.{Storage, WriteBatch, headers, header_chain, new, put, contains}
use ergo_rust_node.Storage.Bytes.{be_u32}
use ergo_rust_node.State.{StateError, serialization}

-- What the code reads of a `Header`.
pub record Header : Type 0 where
  pub id : List ℕ
  pub parent_id : List ℕ
  pub height : ℕ
  pub n_bits : ℕ
  pub state_root : List ℕ

pub record ChainLib : Type 1 where
  pub scorex_serialize_bytes : Header → Option (List ℕ)
  pub scorex_parse_bytes : List ℕ → Option Header
  pub blake2b256 : List ℕ → List ℕ
  pub to_bytes_be : ℕ → List ℕ
  pub from_bytes_be : List ℕ → ℕ
  pub Tx : Type 0
  pub sigma_serialize_bytes : Tx → Option (List ℕ)
  pub sigma_parse_bytes : List ℕ → Option Tx
  pub from-to : (n : ℕ) → from_bytes_be (to_bytes_be n) ≡ n
  pub parse-serialize :
      (t : Tx) (bytes : List ℕ)
      → sigma_serialize_bytes t ≡ some bytes
      → sigma_parse_bytes bytes ≡ some t

pub data ChainSelection : Type 0 where
  extended : ChainSelection
  reorg : ℕ → ℕ → ChainSelection
  ignored : ChainSelection

-- `HeaderStore::put_with_bytes_batched`
unfoldable pub put_with_bytes_batched : WriteBatch → Header → List ℕ → WriteBatch
put_with_bytes_batched batch header raw_bytes =
    put (put batch headers header.id raw_bytes) header_chain (be_u32 header.height) header.id

module _ (lib : ChainLib) where
  -- `HeaderStore::put_batched`
  unfoldable pub put_batched : WriteBatch → Header → Result StateError WriteBatch
  put_batched batch header = do
    bytes ← ok_or (lib.scorex_serialize_bytes header) serialization
    ok (put_with_bytes_batched batch header bytes)

module _ (s : Storage) (lib : ChainLib) where
  -- `HeaderStore::put_with_bytes` and `HeaderStore::put`
  unfoldable pub put_header : s.Db → Header → Option (List ℕ) → Result StateError s.Db
  put_header db header (some raw_bytes) =
      ok (s.write_batch db (put_with_bytes_batched new header raw_bytes))
  put_header db header none = do batch ← put_batched lib new header; ok (s.write_batch db batch)

  -- `HeaderStore::get`: the id is computed from the stored bytes.
  unfoldable pub get_header : s.Db → List ℕ → Result StateError (Option Header)
  get_header db id = elim (s.get db headers id) [
    | none ↦ ok none
    | some bytes ↦ do
      header ← ok_or (lib.scorex_parse_bytes bytes) serialization
      ok (some (record header { id = lib.blake2b256 bytes }))
  ]

  -- `HeaderStore::get_by_height`
  unfoldable pub get_by_height : s.Db → ℕ → Result StateError (Option Header)
  get_by_height db height = elim (s.get db header_chain (be_u32 height)) [
    | none ↦ ok none
    | some id ↦ if length id == 32 then get_header db id else err serialization
  ]

  unfoldable pub contains_header : s.Db → List ℕ → Bool
  contains_header db id = contains s db headers id

  unfoldable pub range_loop : s.Db → ℕ → ℕ → Result StateError (List Header)
  range_loop db height zero = ok []
  range_loop db height (suc count) = do
    found ← get_by_height db height
    elim found [
      | none ↦ ok []
      | some header ↦ do rest ← range_loop db (height + 1) count; ok (header ∷ rest)
    ]

  -- `HeaderStore::get_range`
  unfoldable pub get_range : s.Db → ℕ → ℕ → Result StateError (List Header)
  get_range db from_height count =
      range_loop db from_height (saturating_add_u32 from_height count - from_height)

  unfoldable pub ids_loop : s.Db → ℕ → ℕ → Result StateError (List (List ℕ))
  ids_loop db height zero = ok []
  ids_loop db height (suc count) = elim (s.get db header_chain (be_u32 height)) [
    | none ↦ ok []
    | some id ↦ do
      checked ← (if length id == 32 then ok id else err serialization)
      rest ← ids_loop db (height + 1) count
      ok (checked ∷ rest)
  ]

  -- `HeaderStore::get_ids_range`
  unfoldable pub get_ids_range : s.Db → ℕ → ℕ → Result StateError (List (List ℕ))
  get_ids_range db from_height count =
      ids_loop db from_height (saturating_add_u32 from_height count - from_height)
