-- ===== src/History/Chain/Persistence.antt =====
-- A node that is restarted finds its history as it was (crates/ergo-state/src/history.rs).
use ergo_rust_node.Prelude.{
  ℕ, ◌<◌, ◌^◌, ◌≡◌, refl, All, ◌∙◌, inl, inr, not, ◌&&◌, Bool-cases, Option, none, some, List, [],
  ◌∷◌, ltb, if◌then◌else◌, length, ok, Result-cases,
}
use ergo_rust_node.Storage.{Storage, WriteBatch, cumulative_difficulty, metadata, overlay, new}
use ergo_rust_node.Storage.Bytes.{same_bytes, be_u32, from_be-be_u32}
use ergo_rust_node.Storage.Overlay.{overlay-put, overlay-put_elsewhere}
use ergo_rust_node.History.{Header, ChainLib, put_header, contains_header}
use ergo_rust_node.History.Chain.Columns.{IsOther, add_block_to_batch-SameColumn}
use ergo_rust_node.History.Chain.{
  History, FullBlock, best_header_id_key, best_height_key, best_cumulative_difficulty_key,
  best_full_block_id_key, best_full_block_height_key, minimal_full_block_height_key,
  is_headers_chain_synced_key, loaded_id, loaded_u32, loaded_flag, loaded_difficulty, with_pruning,
  init_from_storage_with_pruning, parent_cumulative, store_cumulative_difficulty, put_best,
  put_best_full, select_header, append_header_internal, finalize_block_batch, append_full_block,
  add_block_to_batch,
}
use ergo_rust_node.History.Chain.Best.{put_header-elsewhere}

module _ (s : Storage) (lib : ChainLib) where
  -- Every field is what is loaded of its metadata entry.
  pub record IsPersisted (h : History s) : Type 0 where
    pub id : loaded_id (s.get h.storage metadata best_header_id_key) none ≡ h.best_header_id
    pub height : loaded_u32 (s.get h.storage metadata best_height_key) 0 ≡ h.best_height
    pub difficulty :
        loaded_difficulty s lib (s.get h.storage metadata best_cumulative_difficulty_key) 0
        ≡ h.best_cumulative_difficulty
    pub full_id :
        loaded_id (s.get h.storage metadata best_full_block_id_key) none ≡ h.best_full_block_id
    pub full_height :
        loaded_u32 (s.get h.storage metadata best_full_block_height_key) 0
        ≡ h.best_full_block_height
    pub minimal :
        loaded_u32 (s.get h.storage metadata minimal_full_block_height_key) 1
        ≡ h.minimal_full_block_height
    pub synced :
        loaded_flag (s.get h.storage metadata is_headers_chain_synced_key)
        ≡ h.is_headers_chain_synced

  pub init-IsPersisted :
      (h : History s)
      → IsPersisted h
      → init_from_storage_with_pruning s lib h.storage h.blocks_to_keep ≡ h
  unfolding init_from_storage_with_pruning with_pruning
  init-IsPersisted h v =
      rw (v.id, v.height, v.difficulty, v.full_id, v.full_height, v.minimal, v.synced)

  -- Writes to other columns than the metadata do not matter.
  same_metadata :
      (h : History s) (db : s.Db)
      → ((k : List ℕ) → s.get db metadata k ≡ s.get h.storage metadata k)
      → IsPersisted h
      → IsPersisted (record h { storage = db })
  same_metadata h db same v = record {
    id = rw (same best_header_id_key) v.id;
    height = rw (same best_height_key) v.height;
    difficulty = rw (same best_cumulative_difficulty_key) v.difficulty;
    full_id = rw (same best_full_block_id_key) v.full_id;
    full_height = rw (same best_full_block_height_key) v.full_height;
    minimal = rw (same minimal_full_block_height_key) v.minimal;
    synced = rw (same is_headers_chain_synced_key) v.synced;
  }

  -- A batch without metadata.
  abbrev pub Quiet : WriteBatch → Type 0
  Quiet batch = (k : List ℕ) (old : Option (List ℕ)) → overlay batch.operations metadata k old ≡ old

  -- The metadata after such a batch and the entries of a new best header.
  best_entry :
      (db : s.Db) (batch : WriteBatch) (id : List ℕ) (height d : ℕ) (k : List ℕ)
      → Quiet batch
      → s.get (s.write_batch db (put_best s lib batch id height d)) metadata k ≡ (
          if same_bytes best_cumulative_difficulty_key k
          then some (lib.to_bytes_be d)
          else if same_bytes best_height_key k
          then some (be_u32 height)
          else if same_bytes best_header_id_key k
          then some id
          else s.get db metadata k)
  unfolding put_best
  best_entry db batch id height d k quiet = rw (
    s.get-write_batch,
    overlay-put _ metadata metadata best_cumulative_difficulty_key k _ _,
    overlay-put _ metadata metadata best_height_key k _ _,
    overlay-put batch metadata metadata best_header_id_key k _ _,
    quiet k _,
  )

  best_full_entry :
      (db : s.Db) (batch : WriteBatch) (id : List ℕ) (height : ℕ) (k : List ℕ)
      → s.get (s.write_batch db (put_best_full s lib batch id height)) metadata k ≡ (
          if same_bytes best_full_block_height_key k
          then some (be_u32 height)
          else if same_bytes best_full_block_id_key k
          then some id
          else s.get (s.write_batch db batch) metadata k)
  unfolding put_best_full
  best_full_entry db batch id height k = rw (
    s.get-write_batch,
    overlay-put _ metadata metadata best_full_block_height_key k _ _,
    overlay-put batch metadata metadata best_full_block_id_key k _ _,
    s.get-write_batch,
  )

  loaded-id :
      (id : List ℕ) (old : Option (List ℕ)) → length id ≡ 32 → loaded_id (some id) old ≡ some id
  unfolding loaded_id
  loaded-id id old h = rw h

  loaded-height :
      (height old : ℕ) → height < 2 ^ 32 → loaded_u32 (some (be_u32 height)) old ≡ height
  unfolding loaded_u32
  loaded-height height old h = from_be-be_u32 height h

  loaded-difficulty : (d old : ℕ) → loaded_difficulty s lib (some (lib.to_bytes_be d)) old ≡ d
  unfolding loaded_difficulty
  loaded-difficulty d old = lib.from-to d

  put_best-IsPersisted :
      (h : History s) (batch : WriteBatch) (id : List ℕ) (height d : ℕ)
      → Quiet batch
      → length id ≡ 32
      → height < 2 ^ 32
      → IsPersisted h
      → IsPersisted (record h {
        storage = s.write_batch h.storage (put_best s lib batch id height d);
        best_header_id = some id;
        best_height = height;
        best_cumulative_difficulty = d;
      })
  put_best-IsPersisted h batch id height d quiet len bound v =
      let at = λ (k : List ℕ). best_entry h.storage batch id height d k quiet in
      record {
        id = rw (at best_header_id_key) (loaded-id id none len);
        height = rw (at best_height_key) (loaded-height height 0 bound);
        difficulty = rw (at best_cumulative_difficulty_key) (loaded-difficulty d 0);
        full_id = rw (at best_full_block_id_key) v.full_id;
        full_height = rw (at best_full_block_height_key) v.full_height;
        minimal = rw (at minimal_full_block_height_key) v.minimal;
        synced = rw (at is_headers_chain_synced_key) v.synced;
      }

  -- The same for the entries of a new best full block, on top of any batch that is written.
  put_best_full-IsPersisted :
      (h : History s) (db : s.Db) (batch : WriteBatch) (id : List ℕ) (height : ℕ)
      → length id ≡ 32
      → height < 2 ^ 32
      → IsPersisted (record h { storage = s.write_batch db batch })
      → IsPersisted (record h {
        storage = s.write_batch db (put_best_full s lib batch id height);
        best_full_block_id = some id;
        best_full_block_height = height;
      })
  put_best_full-IsPersisted h db batch id height len bound v =
      let at = λ (k : List ℕ). best_full_entry db batch id height k in
      record {
        id = rw (at best_header_id_key) v.id;
        height = rw (at best_height_key) v.height;
        difficulty = rw (at best_cumulative_difficulty_key) v.difficulty;
        full_id = rw (at best_full_block_id_key) (loaded-id id none len);
        full_height = rw (at best_full_block_height_key) (loaded-height height 0 bound);
        minimal = rw (at minimal_full_block_height_key) v.minimal;
        synced = rw (at is_headers_chain_synced_key) v.synced;
      }

  Quiet-write :
      (h : History s) (batch : WriteBatch)
      → Quiet batch
      → IsPersisted h
      → IsPersisted (record h { storage = s.write_batch h.storage batch })
  Quiet-write h batch quiet v = same_metadata h _ (λ k. rw (s.get-write_batch, quiet k _)) v

  store-Quiet : (id : List ℕ) (d : ℕ) → Quiet (store_cumulative_difficulty s lib new id d)
  unfolding store_cumulative_difficulty new
  store-Quiet id d k old = overlay-put_elsewhere _ cumulative_difficulty metadata id k old _ refl

  select_header-IsPersisted :
      (h : History s) (header : Header) (d : ℕ)
      → length header.id ≡ 32
      → header.height < 2 ^ 32
      → IsPersisted h
      → IsPersisted (select_header s lib h header d).0
  unfolding select_header
  select_header-IsPersisted h header d len bound v =
      elim (Bool-cases (ltb h.best_cumulative_difficulty d)) [
        | inl e ↦ rw e (
            put_best-IsPersisted h _ header.id header.height d (store-Quiet header.id d) len bound
              v)
        | inr e ↦ rw e (Quiet-write h _ (store-Quiet header.id d) v)
      ]

  append_header_internal-IsPersisted :
      (h : History s) (header : Header) (raw : Option (List ℕ))
      → length header.id ≡ 32
      → header.height < 2 ^ 32
      → IsPersisted h
      → IsPersisted (append_header_internal s lib h header raw).0
  unfolding append_header_internal
  append_header_internal-IsPersisted h header raw len bound v =
      elim (Bool-cases (contains_header s lib h.storage header.id)) [
        | inl e ↦ rw e v
        | inr e ↦
            elim (Bool-cases
              (ltb 2 header.height && not (contains_header s lib h.storage header.parent_id))) [
                | inl p ↦ rw (e, p) v
                | inr p ↦ elim (Result-cases (put_header s lib h.storage header raw)) [
                  | inr (x, q) ↦ rw (e, p, q) v
                  | inl (db, q) ↦
                      rw (e, p, q)
                        (select_header-IsPersisted (record h { storage = db }) header _ len bound
                          (same_metadata h db
                            (λ k.
                              put_header-elsewhere s lib h.storage header raw metadata k q refl
                                refl)
                            v))
                ]
              ]
      ]

  finalize_block_batch-IsPersisted :
      (h : History s) (batch : WriteBatch) (id : List ℕ) (height d : ℕ)
      → Quiet batch
      → length id ≡ 32
      → height < 2 ^ 32
      → IsPersisted h
      → IsPersisted (finalize_block_batch s lib h batch id height d).0
  unfolding finalize_block_batch
  finalize_block_batch-IsPersisted h batch id height d quiet len bound v =
      elim (Bool-cases (ltb h.best_cumulative_difficulty d)) [
        | inl e ↦ elim (Bool-cases (ltb h.best_full_block_height height)) [
          | inl f ↦
              rw (e, f)
                (put_best_full-IsPersisted
                  (record h {
                    best_header_id = some id;
                    best_height = height;
                    best_cumulative_difficulty = d;
                  })
                  h.storage _ id height len bound
                  (put_best-IsPersisted h batch id height d quiet len bound v))
          | inr f ↦ rw (e, f) (put_best-IsPersisted h batch id height d quiet len bound v)
        ]
        | inr e ↦ elim (Bool-cases (ltb h.best_full_block_height height)) [
          | inl f ↦
              rw (e, f)
                (put_best_full-IsPersisted h h.storage batch id height len bound
                  (Quiet-write h batch quiet v))
          | inr f ↦ rw (e, f) (Quiet-write h batch quiet v)
        ]
      ]

  new-Quiet : Quiet new
  unfolding new
  new-Quiet k old = refl

  metadata-IsOther : IsOther metadata
  metadata-IsOther = record {
    not_headers = refl;
    not_header_chain = refl;
    not_transactions = refl;
    not_extensions = refl;
    not_ad_proofs = refl;
    not_difficulty = refl;
  }

  -- A block's batch has no metadata.
  add_block_to_batch-Quiet :
      (block : FullBlock lib) (parent : ℕ) {r : WriteBatch × ℕ}
      → add_block_to_batch s lib new block parent ≡ ok r
      → Quiet r.0
  add_block_to_batch-Quiet block parent h k old =
      add_block_to_batch-SameColumn s lib metadata new block parent metadata-IsOther h k old
      ∙ new-Quiet k old

  append_full_block-IsPersisted :
      (h : History s) (block : FullBlock lib)
      → length block.header.id ≡ 32
      → block.header.height < 2 ^ 32
      → IsPersisted h
      → IsPersisted (append_full_block s lib h block).0
  unfolding append_full_block
  append_full_block-IsPersisted h block len bound v =
      let r = add_block_to_batch s lib new block (parent_cumulative s lib h.storage block.header) in
      elim (Result-cases r) [
        | inr (x, q) ↦ rw (append_full_block, q) v
        | inl (done, q) ↦
            rw (append_full_block, q)
              (finalize_block_batch-IsPersisted h done.0 block.header.id block.header.height done.1
                (add_block_to_batch-Quiet block _ q) len bound v)
      ]

  -- The calls that extend the history.
  pub data Call : Type 0 where
    header_call : Header → Option (List ℕ) → Call
    block_call : FullBlock lib → Call

  abbrev pub header_of : Call → Header
  header_of (header_call header raw) = header
  header_of (block_call block) = block.header

  unfoldable pub run : History s → List Call → History s
  run h [] = h
  run h (header_call header raw ∷ calls) = run (append_header_internal s lib h header raw).0 calls
  run h (block_call block ∷ calls) = run (append_full_block s lib h block).0 calls

  -- Ids and heights of their types' widths.
  abbrev pub IsSized : Call → Type 0
  IsSized call = (length (header_of call).id ≡ 32) × ((header_of call).height < 2 ^ 32)

  -- After any headers and full blocks with ids of 32 bytes and heights below 2^32 are appended to a
  -- history that agrees with its metadata, whatever the calls return, the history that is loaded from
  -- the storage is the one in memory.
  pub init-run :
      (h : History s) (calls : List Call)
      → IsPersisted h
      → All IsSized calls
      → (let h' = run h calls in
          init_from_storage_with_pruning s lib h'.storage h'.blocks_to_keep ≡ h')
  unfolding run
  init-run h [] v a = init-IsPersisted h v
  init-run h (header_call header raw ∷ calls) v a =
      init-run (append_header_internal s lib h header raw).0 calls
        (append_header_internal-IsPersisted h header raw a.0.0 a.0.1 v) a.1
  init-run h (block_call block ∷ calls) v a =
      init-run (append_full_block s lib h block).0 calls
        (append_full_block-IsPersisted h block a.0.0 a.0.1 v) a.1
