-- ===== src/Storage/Example.antt =====
-- A storage that keeps the log of its operations: it meets the laws that the `Storage` trait of
-- crates/ergo-storage/src/lib.rs is used by.
use ergo_rust_node.Prelude.{none, List}
use ergo_rust_node.Storage.{Storage, BatchOperation, overlay}
use ergo_rust_node.Prelude.{◌++◌}
use ergo_rust_node.Storage.Overlay.{overlay-append}

abbrev pub log : Storage
log = record {
  Db = List BatchOperation;
  get = λ db cf key. overlay db cf key none;
  write_batch = λ db batch. db ++ batch.operations;
  get-write_batch = λ db batch cf key. overlay-append db batch.operations cf key none;
}
