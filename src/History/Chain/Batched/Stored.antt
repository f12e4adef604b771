-- ===== src/History/Chain/Batched/Stored.antt =====
-- What the batch of `append_headers_batched` (crates/ergo-state/src/history.rs) writes of its headers.
use ergo_rust_node.Prelude.{
  ℕ, ◌+◌, ◌≡◌, refl, ◌∙◌, true, false, Option, some, List, [], ◌∷◌, if◌then◌else◌, lt→ltb, ◌==◌,
  All,
}
use ergo_rust_node.Storage.{
  Storage, WriteBatch, ColumnFamily, headers, header_chain, cumulative_difficulty, metadata, name,
  overlay,
}
use ergo_rust_node.Storage.Bytes.{same_bytes, same_bytes_refl, be_u32}
use ergo_rust_node.Storage.Overlay.{overlay-put, overlay-put_elsewhere}
use ergo_rust_node.Utxo.Index.{has_id}
use ergo_rust_node.History.{Header, ChainLib, put_with_bytes_batched}
use ergo_rust_node.History.Difficulty.{nbits_to_difficulty}
use ergo_rust_node.History.Chain.{get_cumulative_difficulty, store_cumulative_difficulty}
use ergo_rust_node.History.Chain.Columns.{SameColumn}
use ergo_rust_node.History.Chain.Batched.Defs.{
  Progress, parent_in_batch, add_header, add_all, add_header_lem, IsLinked,
}

-- No two of the headers have one id or one stored height.
abbrev pub AreDistinct : List (Header × List ℕ) → Type 0
AreDistinct [] = Unit
AreDistinct ((header, raw) ∷ rest) =
    All (λ e. same_bytes e.0.id header.id ≡ false) rest
    × All (λ e. same_bytes (be_u32 e.0.height) (be_u32 header.height) ≡ false) rest
    × AreDistinct rest

module _ (s : Storage) (lib : ChainLib) where
  -- The headers' raw bytes, their ids in the index of heights, and their difficulties, each the work of
  -- the header added to what is before it, from `d` on.
  unfoldable pub AreStored : s.Db → ℕ → List (Header × List ℕ) → Type 0
  AreStored db d [] = Unit
  AreStored db d ((header, raw) ∷ rest) =
      let difficulty = d + nbits_to_difficulty header.n_bits in
      (s.get db headers header.id ≡ some raw)
      × (s.get db header_chain (be_u32 header.height) ≡ some header.id)
      × (get_cumulative_difficulty s lib db header.id ≡ some difficulty)
      × AreStored db difficulty rest

  -- The same of a batch.
  abbrev pub AreWritten : WriteBatch → ℕ → List (Header × List ℕ) → Type 0
  AreWritten batch d [] = Unit
  AreWritten batch d ((header, raw) ∷ rest) =
      let difficulty = d + nbits_to_difficulty header.n_bits in
      ((old : Option (List ℕ)) → overlay batch.operations headers header.id old ≡ some raw)
      × ((old : Option (List ℕ))
          → overlay batch.operations header_chain (be_u32 header.height) old ≡ some header.id)
      × ((old : Option (List ℕ))
          → overlay batch.operations cumulative_difficulty header.id old
            ≡ some (lib.to_bytes_be difficulty))
      × AreWritten batch difficulty rest

  module _ (db : s.Db) (p : Progress) (header : Header) (raw k : List ℕ)
      (old : Option (List ℕ)) where
    add_header-headers :
        overlay (add_header s lib db p header raw).batch.operations headers k old
        ≡ (if same_bytes header.id k then some raw else overlay p.batch.operations headers k old)
    unfolding add_header store_cumulative_difficulty put_with_bytes_batched
    add_header-headers = rw (
      overlay-put_elsewhere _ cumulative_difficulty headers header.id k old _ refl,
      overlay-put_elsewhere _ header_chain headers (be_u32 header.height) k old _ refl,
      overlay-put p.batch headers headers header.id k old raw,
    )

    add_header-chain :
        overlay (add_header s lib db p header raw).batch.operations header_chain k old ≡ (
          if same_bytes (be_u32 header.height) k
          then some header.id
          else overlay p.batch.operations header_chain k old)
    unfolding add_header store_cumulative_difficulty put_with_bytes_batched
    add_header-chain = rw (
      overlay-put_elsewhere _ cumulative_difficulty header_chain header.id k old _ refl,
      overlay-put _ header_chain header_chain (be_u32 header.height) k old header.id,
      overlay-put_elsewhere p.batch headers header_chain header.id k old raw refl,
    )

    add_header-difficulty :
        overlay (add_header s lib db p header raw).batch.operations cumulative_difficulty k old ≡ (
          if same_bytes header.id k
          then some (lib.to_bytes_be (add_header s lib db p header raw).cumulative)
          else overlay p.batch.operations cumulative_difficulty k old)
    unfolding add_header store_cumulative_difficulty put_with_bytes_batched
    add_header-difficulty = rw (
      overlay-put _ cumulative_difficulty cumulative_difficulty header.id k old _,
      overlay-put_elsewhere _ header_chain cumulative_difficulty (be_u32 header.height) k old _
          refl,
      overlay-put_elsewhere p.batch headers cumulative_difficulty header.id k old raw refl,
    )

  -- Entries under other keys than those of the headers stay.
  kept_headers :
      (db : s.Db) (p : Progress) (hs : List (Header × List ℕ)) (k : List ℕ) (old : Option (List ℕ))
      → All (λ e. same_bytes e.0.id k ≡ false) hs
      → overlay (add_all s lib db p hs).batch.operations headers k old
        ≡ overlay p.batch.operations headers k old
  unfolding add_all
  kept_headers db p [] k old a = refl
  kept_headers db p ((header, raw) ∷ hs) k old a =
      kept_headers db (add_header s lib db p header raw) hs k old a.1
      ∙ rw (add_header-headers db p header raw k old, a.0)

  kept_chain :
      (db : s.Db) (p : Progress) (hs : List (Header × List ℕ)) (k : List ℕ) (old : Option (List ℕ))
      → All (λ e. same_bytes (be_u32 e.0.height) k ≡ false) hs
      → overlay (add_all s lib db p hs).batch.operations header_chain k old
        ≡ overlay p.batch.operations header_chain k old
  unfolding add_all
  kept_chain db p [] k old a = refl
  kept_chain db p ((header, raw) ∷ hs) k old a =
      kept_chain db (add_header s lib db p header raw) hs k old a.1
      ∙ rw (add_header-chain db p header raw k old, a.0)

  kept_difficulty :
      (db : s.Db) (p : Progress) (hs : List (Header × List ℕ)) (k : List ℕ) (old : Option (List ℕ))
      → All (λ e. same_bytes e.0.id k ≡ false) hs
      → overlay (add_all s lib db p hs).batch.operations cumulative_difficulty k old
        ≡ overlay p.batch.operations cumulative_difficulty k old
  unfolding add_all
  kept_difficulty db p [] k old a = refl
  kept_difficulty db p ((header, raw) ∷ hs) k old a =
      kept_difficulty db (add_header s lib db p header raw) hs k old a.1
      ∙ rw (add_header-difficulty db p header raw k old, a.0)

  -- The entries of a header, whose difficulty is `d` and its work, are kept by what comes after.
  add_header-AreWritten :
      (db : s.Db) (p : Progress) (header : Header) (raw : List ℕ) (rest : List (Header × List ℕ))
      (d : ℕ)
      → AreDistinct ((header, raw) ∷ rest)
      → (add_header s lib db p header raw).cumulative ≡ d + nbits_to_difficulty header.n_bits
      → (let batch = (add_all s lib db (add_header s lib db p header raw) rest).batch in
          AreWritten batch (d + nbits_to_difficulty header.n_bits) rest
          → AreWritten batch d ((header, raw) ∷ rest))
  add_header-AreWritten db p header raw rest d distinct work after =
      let q = add_header s lib db p header raw in
      let self = same_bytes_refl header.id in
      (
        λ old.
            kept_headers db q rest header.id old distinct.0
            ∙ rw (add_header-headers db p header raw header.id old, self),
        λ old.
            kept_chain db q rest (be_u32 header.height) old distinct.1
            ∙ rw (
              add_header-chain db p header raw (be_u32 header.height) old,
              same_bytes_refl (be_u32 header.height),
            ),
        λ old.
            kept_difficulty db q rest header.id old distinct.0
            ∙ rw (add_header-difficulty db p header raw header.id old, self, work),
        after,
      )

  pub add_all-AreWritten :
      (db : s.Db) (p : Progress) (header : Header) (raw : List ℕ) (rest : List (Header × List ℕ))
      (d : ℕ)
      → IsLinked s lib db header rest
      → AreDistinct ((header, raw) ∷ rest)
      → (add_header s lib db p header raw).cumulative ≡ d + nbits_to_difficulty header.n_bits
      → AreWritten
          (add_all s lib db (add_header s lib db p header raw) rest).batch
          d
          ((header, raw) ∷ rest)
  unfolding add_all parent_in_batch
  add_all-AreWritten db p header raw [] d linked distinct work =
      add_header-AreWritten db p header raw [] d distinct work tt
  add_all-AreWritten db p header raw ((next, next_raw) ∷ rest) d linked distinct work =
      let q = add_header s lib db p header raw in
      let known : has_id q.ids next.parent_id ≡ true =
        rw (linked.2, (add_header_lem s lib db p header raw).0) in
      let in_batch : parent_in_batch s lib q next ≡ true =
        rw (parent_in_batch, lt→ltb 2 next.height linked.1, known) in
      add_header-AreWritten db p header raw ((next, next_raw) ∷ rest) d distinct work (
        add_all-AreWritten db (add_header s lib db p header raw) next next_raw rest
          (d + nbits_to_difficulty header.n_bits) linked.3 distinct.2
          ((add_header_lem s lib db q next next_raw).3 ∙ rw (in_batch, work)))

  pub AreStored-AreWritten :
      (db : s.Db) (batch b : WriteBatch) (d : ℕ) (hs : List (Header × List ℕ))
      → ((c : ColumnFamily) → (name metadata == name c) ≡ false → SameColumn c batch b)
      → AreWritten batch d hs
      → AreStored (s.write_batch db b) d hs
  unfolding AreStored get_cumulative_difficulty
  AreStored-AreWritten db batch b d [] same w = tt
  AreStored-AreWritten db batch b d ((header, raw) ∷ hs) same w = (
    rw (s.get-write_batch, same headers refl header.id, w.0),
    rw (s.get-write_batch, same header_chain refl (be_u32 header.height), w.1),
    rw (
      get_cumulative_difficulty,
      s.get-write_batch,
      same cumulative_difficulty refl header.id,
      w.2,
      lib.from-to,
    ),
    AreStored-AreWritten db batch b (d + nbits_to_difficulty header.n_bits) hs same w.3,
  )
