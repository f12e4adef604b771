-- ===== src/History/Chain/Batched/Defs.antt =====
-- `append_headers_batched` (crates/ergo-state/src/history.rs): many headers in one write.
use ergo_rust_node.Prelude.{
  ℕ, ◌+◌, ◌<◌, ◌≡◌, refl, Bool, true, false, not, ◌&&◌, some, List, [], ◌∷◌, ltb, if◌then◌else◌,
  Result, ok, err,
}
use ergo_rust_node.Storage.{Storage, WriteBatch, new}
use ergo_rust_node.Storage.Bytes.{same_bytes_refl}
use ergo_rust_node.State.{StateError, header_not_found}
use ergo_rust_node.Utxo.Index.{has_id}
use ergo_rust_node.History.{
  Header, ChainLib, ChainSelection, ignored, put_with_bytes_batched, contains_header,
}
use ergo_rust_node.History.Difficulty.{nbits_to_difficulty}
use ergo_rust_node.History.Chain.{
  History, parent_cumulative, store_cumulative_difficulty, put_best, selection_of,
}

-- What the loop carries: the batch, the ids in it, the running difficulty and the final header.
pub record Progress : Type 0 where
  pub batch : WriteBatch
  pub ids : List (List ℕ)
  pub cumulative : ℕ
  pub final_id : List ℕ
  pub final_height : ℕ
  pub final_cumulative : ℕ

module _ (s : Storage) (lib : ChainLib) where
  unfoldable pub parent_in_batch : Progress → Header → Bool
  parent_in_batch p header = ltb 2 header.height && has_id p.ids header.parent_id

  unfoldable pub add_header : s.Db → Progress → Header → List ℕ → Progress
  add_header db p header raw_bytes =
      let parent =
        if parent_in_batch p header then p.cumulative else parent_cumulative s lib db header in
      let difficulty = parent + nbits_to_difficulty header.n_bits in
      record {
        batch =
            store_cumulative_difficulty s lib (put_with_bytes_batched p.batch header raw_bytes)
              header.id difficulty;
        ids = header.id ∷ p.ids;
        cumulative = difficulty;
        final_id = header.id;
        final_height = header.height;
        final_cumulative = difficulty;
      }

  unfoldable pub batch_loop : s.Db → List (Header × List ℕ) → Progress → Result StateError Progress
  batch_loop db [] p = ok p
  batch_loop db ((header, raw_bytes) ∷ rest) p =
      let orphan =
        ltb 2 header.height
        && (not (has_id p.ids header.parent_id)
            && not (contains_header s lib db header.parent_id)) in
      let skipped = batch_loop db rest p in
      let added = batch_loop db rest (add_header db p header raw_bytes) in
      if contains_header s lib db header.id
      then skipped
      else if orphan
      then err (header_not_found header.parent_id)
      else added

  unfoldable pub start_of : s.Db → Header → Progress
  start_of db first = record {
    batch = new;
    ids = [];
    cumulative = parent_cumulative s lib db first;
    final_id = first.id;
    final_height = first.height;
    final_cumulative = parent_cumulative s lib db first;
  }

  unfoldable pub select_batch : History s → Progress → History s × Result StateError ChainSelection
  select_batch h p =
      let db =
        s.write_batch h.storage
          (put_best s lib p.batch p.final_id p.final_height p.final_cumulative) in
      if ltb h.best_cumulative_difficulty p.final_cumulative
      then (
        record h {
          storage = db;
          best_header_id = some p.final_id;
          best_height = p.final_height;
          best_cumulative_difficulty = p.final_cumulative;
        },
        selection_of s lib db p.final_id p.final_height h.best_height,
      )
      else (record h { storage = s.write_batch h.storage p.batch }, ok ignored)

  unfoldable pub append_headers_batched :
      History s → List (Header × List ℕ) → History s × Result StateError ChainSelection
  append_headers_batched h [] = (h, ok ignored)
  append_headers_batched h ((first, raw_bytes) ∷ rest) =
      elim (batch_loop h.storage ((first, raw_bytes) ∷ rest) (start_of h.storage first)) [
        | err e ↦ (h, err e)
        | ok p ↦ select_batch h p
      ]

  -- Each header is new, has a height above 2 and the one before it as its parent.
  abbrev pub IsLinked : s.Db → Header → List (Header × List ℕ) → Type 0
  IsLinked db before [] = Unit
  IsLinked db before ((header, raw) ∷ rest) =
      (contains_header s lib db header.id ≡ false)
      × (2 < header.height)
      × (header.parent_id ≡ before.id)
      × IsLinked db header rest

  -- The work of the headers, and the last of them.
  unfoldable pub work_of : List (Header × List ℕ) → ℕ
  work_of [] = 0
  work_of ((header, raw) ∷ rest) = nbits_to_difficulty header.n_bits + work_of rest

  unfoldable pub last_of : Header → List (Header × List ℕ) → Header
  last_of header [] = header
  last_of header ((next, raw) ∷ rest) = last_of next rest

  -- The headers, added one after the other.
  unfoldable pub add_all : s.Db → Progress → List (Header × List ℕ) → Progress
  add_all db p [] = p
  add_all db p ((header, raw) ∷ rest) = add_all db (add_header db p header raw) rest

  -- What one header adds.
  pub add_header_lem :
      (db : s.Db) (p : Progress) (header : Header) (raw : List ℕ)
      → (let q = add_header db p header raw in
          (has_id q.ids header.id ≡ true)
          × (q.cumulative ≡ q.final_cumulative)
          × (q.final_id ≡ header.id)
          × (q.cumulative
              ≡ (if parent_in_batch p header
                  then p.cumulative
                  else parent_cumulative s lib db header)
                + nbits_to_difficulty header.n_bits)
          × (q.final_height ≡ header.height))
  unfolding add_header has_id
  add_header_lem db p header raw = (rw (same_bytes_refl header.id), refl, refl, refl, refl)
