-- ===== src/History/Chain/Columns.antt =====
-- Which columns the batches of blocks leave alone (crates/ergo-state/src/history.rs).
use ergo_rust_node.Prelude.{
  ℕ, ◌≡◌, refl, sym, ◌∙◌, inl, inr, Bool, true, false, Option, none, some, List, ◌==◌, ltb,
  if◌then◌else◌, ok, >>=-eq-ok, ok_injective, ok_or, Result-cases,
}
use ergo_rust_node.Storage.{
  Storage, WriteBatch, ColumnFamily, headers, header_chain, block_transactions, extensions,
  ad_proofs, cumulative_difficulty, metadata, name, overlay, new,
}
use ergo_rust_node.Storage.Overlay.{overlay-put_elsewhere}
use ergo_rust_node.History.{Header, ChainLib, put_with_bytes_batched, put_batched}
use ergo_rust_node.History.Blocks.{
  AdProofs, serialize_transactions, put_transactions_batched, put_extension_batched,
  put_ad_proofs_batched,
}
use ergo_rust_node.History.Chain.{
  History, FullBlock, parent_cumulative, store_cumulative_difficulty, put_optional_proofs,
  add_block_to_batch, put_best, put_best_full, finalize_block_batch, append_full_block,
}

-- A column that no part of a block is stored in.
pub record IsOther (c : ColumnFamily) : Type 0 where
  pub not_headers : (name headers == name c) ≡ false
  pub not_header_chain : (name header_chain == name c) ≡ false
  pub not_transactions : (name block_transactions == name c) ≡ false
  pub not_extensions : (name extensions == name c) ≡ false
  pub not_ad_proofs : (name ad_proofs == name c) ≡ false
  pub not_difficulty : (name cumulative_difficulty == name c) ≡ false

-- A batch that leaves a column as another one does.
abbrev pub SameColumn : ColumnFamily → WriteBatch → WriteBatch → Type 0
SameColumn c batch b =
    (k : List ℕ) (old : Option (List ℕ))
    → overlay b.operations c k old ≡ overlay batch.operations c k old

module _ (s : Storage) (lib : ChainLib) (c : ColumnFamily) where
  put_batched-SameColumn :
      (batch : WriteBatch) (header : Header) {b : WriteBatch}
      → IsOther c
      → put_batched lib batch header ≡ ok b
      → SameColumn c batch b
  unfolding put_batched put_with_bytes_batched
  put_batched-SameColumn batch header other h k old =
      let q = >>=-eq-ok (ok_or (lib.scorex_serialize_bytes header) _) _ h in
      rw (
        sym (ok_injective q.1.1),
        overlay-put_elsewhere _ header_chain c _ k old _ other.not_header_chain,
        overlay-put_elsewhere batch headers c _ k old _ other.not_headers,
      )

  put_transactions_batched-SameColumn :
      (batch : WriteBatch) (id : List ℕ) (txs : List lib.Tx) {b : WriteBatch}
      → IsOther c
      → put_transactions_batched lib batch id txs ≡ ok b
      → SameColumn c batch b
  unfolding put_transactions_batched
  put_transactions_batched-SameColumn batch id txs other h k old =
      let q = >>=-eq-ok (serialize_transactions lib txs) _ h in
      rw (
        sym (ok_injective q.1.1),
        overlay-put_elsewhere batch block_transactions c _ k old _ other.not_transactions,
      )

  put_optional_proofs-SameColumn :
      (batch : WriteBatch) (o : Option AdProofs)
      → IsOther c
      → SameColumn c batch (put_optional_proofs s lib batch o)
  unfolding put_optional_proofs put_ad_proofs_batched
  put_optional_proofs-SameColumn batch none other k old = refl
  put_optional_proofs-SameColumn batch (some proofs) other k old =
      overlay-put_elsewhere batch ad_proofs c _ k old _ other.not_ad_proofs

  -- A block's batch is in its own six columns.
  pub add_block_to_batch-SameColumn :
      (batch : WriteBatch) (block : FullBlock lib) (parent : ℕ) {r : WriteBatch × ℕ}
      → IsOther c
      → add_block_to_batch s lib batch block parent ≡ ok r
      → SameColumn c batch r.0
  unfolding add_block_to_batch store_cumulative_difficulty put_extension_batched
  add_block_to_batch-SameColumn batch block parent other h k old =
      let p = >>=-eq-ok (put_batched lib batch block.header) _ h in
      let r =
        >>=-eq-ok (put_transactions_batched lib _ block.header.id block.transactions) _ p.1.1 in
      rw (
        sym (ok_injective r.1.1),
        put_optional_proofs-SameColumn _ block.ad_proofs other k old,
        overlay-put_elsewhere _ extensions c _ k old _ other.not_extensions,
        put_transactions_batched-SameColumn _ block.header.id block.transactions other r.1.0 k old,
        overlay-put_elsewhere _ cumulative_difficulty c _ k old _ other.not_difficulty,
        put_batched-SameColumn batch block.header other p.1.0 k old,
      )

  -- The entries of a new best header and of a new best full block are metadata.
  pub put_best-SameColumn :
      (batch : WriteBatch) (id : List ℕ) (height d : ℕ)
      → (name metadata == name c) ≡ false
      → SameColumn c batch (put_best s lib batch id height d)
  unfolding put_best
  put_best-SameColumn batch id height d other k old = rw (
    overlay-put_elsewhere _ metadata c _ k old _ other,
    overlay-put_elsewhere _ metadata c _ k old _ other,
    overlay-put_elsewhere batch metadata c _ k old _ other,
  )

  pub put_best_full-SameColumn :
      (batch : WriteBatch) (id : List ℕ) (height : ℕ)
      → (name metadata == name c) ≡ false
      → SameColumn c batch (put_best_full s lib batch id height)
  unfolding put_best_full
  put_best_full-SameColumn batch id height other k old = rw (
    overlay-put_elsewhere _ metadata c _ k old _ other,
    overlay-put_elsewhere batch metadata c _ k old _ other,
  )

  -- With either, neither or both of them.
  pub put_both-SameColumn :
      (better higher : Bool) (batch : WriteBatch) (id : List ℕ) (height d : ℕ)
      → (name metadata == name c) ≡ false
      → (let b = if better then put_best s lib batch id height d else batch in
          SameColumn c batch (if higher then put_best_full s lib b id height else b))
  put_both-SameColumn true true batch id height d other k old =
      put_best_full-SameColumn _ id height other k old
      ∙ put_best-SameColumn batch id height d other k old
  put_both-SameColumn true false batch id height d other k old =
      put_best-SameColumn batch id height d other k old
  put_both-SameColumn false true batch id height d other k old =
      put_best_full-SameColumn batch id height other k old
  put_both-SameColumn false false batch id height d other k old = refl

  -- `append_full_block` leaves every other column alone, also when it fails.
  pub append_full_block-other :
      (h : History s) (block : FullBlock lib) (k : List ℕ)
      → IsOther c
      → (name metadata == name c) ≡ false
      → s.get (append_full_block s lib h block).0.storage c k ≡ s.get h.storage c k
  unfolding append_full_block finalize_block_batch new
  append_full_block-other h block k other not_metadata =
      elim (Result-cases
        (add_block_to_batch s lib new block (parent_cumulative s lib h.storage block.header))) [
          | inr (x, q) ↦ rw (append_full_block, q)
          | inl (done, q) ↦ rw (
            append_full_block,
            q,
            finalize_block_batch,
            s.get-write_batch,
            put_both-SameColumn (ltb h.best_cumulative_difficulty done.1)
                (ltb h.best_full_block_height block.header.height) done.0 block.header.id
                block.header.height done.1 not_metadata k (s.get h.storage c k),
            add_block_to_batch-SameColumn new block _ other q k (s.get h.storage c k),
          )
        ]
