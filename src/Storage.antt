-- ===== src/Storage.antt =====
-- Column families, write batches and the `Storage` trait, as in crates/ergo-storage/src/lib.rs,
-- batch.rs and database.rs. RocksDB is a parameter: what it holds after a batch is that of the
-- batch's operations in their order. Its errors end the caller's operation and are not modelled.
pub mod Bytes
pub mod Overlay
pub mod Example
use ergo_rust_node.Prelude.{
  ℕ, ◌≡◌, Bool, ◌&&◌, Option, none, some, List, [], ◌∷◌, ◌++◌, ◌==◌, if◌then◌else◌, is_some, length,
}
use Bytes.{same_bytes}

pub data ColumnFamily : Type 0 where
  headers block_transactions extensions ad_proofs utxo utxo_snapshots header_chain tx_index
        undo_data ergo_tree_index token_index cumulative_difficulty metadata extra_index box_index
        tx_numeric_index scans scan_boxes default :
      ColumnFamily

-- `ColumnFamily::name`: the names are told apart by a number.
abbrev pub name : ColumnFamily → ℕ
name headers = 0
name block_transactions = 1
name extensions = 2
name ad_proofs = 3
name utxo = 4
name utxo_snapshots = 5
name header_chain = 6
name tx_index = 7
name undo_data = 8
name ergo_tree_index = 9
name token_index = 10
name cumulative_difficulty = 11
name metadata = 12
name extra_index = 13
name box_index = 14
name tx_numeric_index = 15
name scans = 16
name scan_boxes = 17
name default = 18

pub data OperationKind : Type 0 where
  put_value : List ℕ → OperationKind
  delete_key : OperationKind

pub record BatchOperation : Type 0 where
  pub cf : ColumnFamily
  pub key : List ℕ
  pub kind : OperationKind

pub record WriteBatch : Type 0 where
  pub operations : List BatchOperation

unfoldable pub new : WriteBatch
new = record { operations = [] }

unfoldable pub put : WriteBatch → ColumnFamily → List ℕ → List ℕ → WriteBatch
put batch cf key value = record {
  operations = batch.operations ++ (record { cf = cf; key = key; kind = put_value value } ∷ []);
}

unfoldable pub delete : WriteBatch → ColumnFamily → List ℕ → WriteBatch
delete batch cf key = record {
  operations = batch.operations ++ (record { cf = cf; key = key; kind = delete_key } ∷ []);
}

unfoldable pub len : WriteBatch → ℕ
len batch = length batch.operations

unfoldable pub is_empty : WriteBatch → Bool
is_empty batch = elim batch.operations [ [] ↦ Bool.true | _ ∷ _ ↦ Bool.false ]

unfoldable pub clear : WriteBatch → WriteBatch
clear batch = record { operations = [] }

unfoldable pub merge : WriteBatch → WriteBatch → WriteBatch
merge batch other = record { operations = batch.operations ++ other.operations }

-- Whether an operation is one on this key of this column.
abbrev pub touches : BatchOperation → ColumnFamily → List ℕ → Bool
touches op cf key = (name op.cf == name cf) && same_bytes op.key key

abbrev pub written : OperationKind → Option (List ℕ)
written (put_value value) = some value
written delete_key = none

-- What a key holds after the operations, from what it held before them.
abbrev pub overlay : List BatchOperation → ColumnFamily → List ℕ → Option (List ℕ) → Option (List ℕ)
overlay [] cf key old = old
overlay (op ∷ ops) cf key old =
    overlay ops cf key (if touches op cf key then written op.kind else old)

-- The trait, by its documented behaviour: a batch is atomic, and a later operation wins.
pub record Storage : Type 1 where
  pub Db : Type 0
  pub get : Db → ColumnFamily → List ℕ → Option (List ℕ)
  pub write_batch : Db → WriteBatch → Db
  pub get-write_batch :
      (db : Db) (batch : WriteBatch) (cf : ColumnFamily) (key : List ℕ)
      → get (write_batch db batch) cf key ≡ overlay batch.operations cf key (get db cf key)

module _ (s : Storage) where
  -- `Storage::contains`, the trait's default.
  unfoldable pub contains : s.Db → ColumnFamily → List ℕ → Bool
  contains db cf key = is_some (s.get db cf key)

  -- `Storage::put`: RocksDB writes one key as a batch of one operation.
  unfoldable pub put_one : s.Db → ColumnFamily → List ℕ → List ℕ → s.Db
  unfolding new put
  put_one db cf key value = s.write_batch db (put new cf key value)
