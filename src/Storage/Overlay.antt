-- ===== src/Storage/Overlay.antt =====
-- How reads see a batch of writes (crates/ergo-storage/src/batch.rs).
use ergo_rust_node.Prelude.{
  ◌≡◌, refl, false, ◌&&◌, Option, none, some, List, [], ◌∷◌, ◌++◌, if◌then◌else◌, ℕ, ◌==◌,
}
use ergo_rust_node.Storage.{
  Storage, ColumnFamily, BatchOperation, WriteBatch, overlay, name, new, put, delete, put_one,
}
use ergo_rust_node.Storage.Bytes.{same_bytes}

pub overlay-append :
    (ops more : List BatchOperation) (cf : ColumnFamily) (key : List ℕ) (old : Option (List ℕ))
    → overlay (ops ++ more) cf key old ≡ overlay more cf key (overlay ops cf key old)
overlay-append [] more cf key old = refl
overlay-append (op ∷ ops) more cf key old = overlay-append ops more cf key _

module _ (batch : WriteBatch) (c cf : ColumnFamily) (k key : List ℕ) (old : Option (List ℕ)) where
  pub overlay-put :
      (value : List ℕ)
      → overlay (put batch c k value).operations cf key old ≡ (
          if (name c == name cf) && same_bytes k key
          then some value
          else overlay batch.operations cf key old)
  unfolding put
  overlay-put value = overlay-append batch.operations _ cf key old

  pub overlay-delete : overlay (delete batch c k).operations cf key old ≡ (
      if (name c == name cf) && same_bytes k key then none else overlay batch.operations cf key old)
  unfolding delete
  overlay-delete = overlay-append batch.operations _ cf key old

  -- Another column is left alone.
  pub overlay-put_elsewhere :
      (value : List ℕ)
      → (name c == name cf) ≡ false
      → overlay (put batch c k value).operations cf key old ≡ overlay batch.operations cf key old
  overlay-put_elsewhere value h = rw (overlay-put value, h)

  pub overlay-delete_elsewhere :
      (name c == name cf) ≡ false
      → overlay (delete batch c k).operations cf key old ≡ overlay batch.operations cf key old
  overlay-delete_elsewhere h = rw (overlay-delete, h)

pub get-put_one :
    (s : Storage) (db : s.Db) (c cf : ColumnFamily) (k key value : List ℕ)
    → s.get (put_one s db c k value) cf key
      ≡ (if (name c == name cf) && same_bytes k key then some value else s.get db cf key)
unfolding put_one new
get-put_one s db c cf k key value =
    rw (s.get-write_batch, overlay-put (record { operations = [] }) c cf k key _ value)
