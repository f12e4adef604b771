-- ===== src/Sync/Chunks.antt =====
-- The download of the chunks of a snapshot (crates/ergo-sync/src/sync.rs).
use ergo_rust_node.Prelude.{
  ℕ, suc, ◌+◌, ◌<◌, ◌≡◌, refl, sym, ap, subst, ◌∙◌, Bool, false, List, [], ◌∷◌, leb, length,
  contains, set_insert, arith,
}
use ergo_rust_node.Sync.{
  downloading_chunks, Synchronizer, start_chunk_download, counted, mark_chunk_downloaded,
}

-- Chunks that arrive one after the other, with what the last of the calls returned.
unfoldable pub mark_all : Synchronizer → Bool → List ℕ → Synchronizer × Bool
mark_all y complete [] = (y, complete)
mark_all y complete (id ∷ ids) = let r = mark_chunk_downloaded y id in mark_all r.0 r.1 ids

-- No id is in the list, or twice among the ids.
abbrev pub AreNew : List ℕ → List ℕ → Type 0
AreNew known [] = Unit
AreNew known (id ∷ ids) = (contains known id ≡ false) × AreNew (id ∷ known) ids

mark_all_lem :
    (y : Synchronizer) (complete : Bool) (ids : List ℕ) (i h t n : ℕ)
    → y.state ≡ downloading_chunks i h t n
    → complete ≡ leb t (length y.downloaded_chunks)
    → AreNew y.downloaded_chunks ids
    → (mark_all y complete ids).1 ≡ leb t (length y.downloaded_chunks + length ids)
unfolding mark_all mark_chunk_downloaded counted set_insert
mark_all_lem y complete [] i h t n s c new = ground (arith, c)
mark_all_lem y complete (id ∷ ids) i h t n s c new =
    let downloaded = set_insert id y.downloaded_chunks in
    let grown : length downloaded ≡ suc (length y.downloaded_chunks) = rw new.0 in
    let same : downloaded ≡ id ∷ y.downloaded_chunks = rw new.0 in
    let r = mark_chunk_downloaded y id in
    mark_all_lem r.0 r.1 ids i h t (length downloaded)
      (ap (λ x. (counted (length downloaded) x).0) s)
      (ap (λ x. (counted (length downloaded) x).1) s) (subst (λ d. AreNew d ids) (sym same) new.1)
    ∙ ap (leb t) (omega (arith, grown))

-- After the download of `total` chunks is started, at least one, and distinct chunks arrive in any order,
-- the last call reports that all are there exactly if `total` or more have arrived.
pub mark_all-start_chunk_download :
    (y : Synchronizer) (manifest_id height total : ℕ) (ids : List ℕ)
    → 0 < total
    → AreNew [] ids
    → (mark_all (start_chunk_download y manifest_id height total) false ids).1
      ≡ leb total (length ids)
unfolding start_chunk_download
mark_all-start_chunk_download y manifest_id height total ids positive new =
    mark_all_lem (start_chunk_download y manifest_id height total) false ids manifest_id height
      total 0 refl (ground arith) new
    ∙ ap (leb total) (omega arith)
