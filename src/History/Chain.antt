-- ===== src/History/Chain.antt =====
-- The operations of `History` (crates/ergo-state/src/history.rs) that change it. A call returns the
-- history after it beside its result, also where it fails.
pub mod Columns
pub mod Persistence
pub mod Best
pub mod Fork
pub mod Batched
use ergo_rust_node.Prelude.{
  ℕ, zero, suc, ◌+◌, ◌-◌, ◌%◌, Bool, true, false, not, ◌&&◌, Option, none, some, List, [], ◌∷◌, ltb,
  leb, ◌==◌, if◌then◌else◌, length, take, Result, ok, err, ◌>>=◌, ok_or, u32_mod,
}
use ergo_rust_node.Storage.{Storage, WriteBatch, cumulative_difficulty, metadata, new, put, put_one}
use ergo_rust_node.Storage.Bytes.{same_bytes, be_u32, from_be}
use ergo_rust_node.State.{StateError, header_not_found}
use ergo_rust_node.History.{
  Header, ChainLib, ChainSelection, extended, reorg, ignored, put_with_bytes_batched, put_batched,
  put_header, get_header, get_by_height, contains_header,
}
use ergo_rust_node.History.Difficulty.{nbits_to_difficulty}
use ergo_rust_node.History.Blocks.{
  Extension, AdProofs, put_transactions_batched, put_extension_batched, put_ad_proofs_batched,
}

abbrev pub best_header_id_key : List ℕ
best_header_id_key =
    98 ∷ 101 ∷ 115 ∷ 116 ∷ 95 ∷ 104 ∷ 101 ∷ 97 ∷ 100 ∷ 101 ∷ 114 ∷ 95 ∷ 105 ∷ 100 ∷ []

abbrev pub best_height_key : List ℕ
best_height_key = 98 ∷ 101 ∷ 115 ∷ 116 ∷ 95 ∷ 104 ∷ 101 ∷ 105 ∷ 103 ∷ 104 ∷ 116 ∷ []

abbrev pub best_cumulative_difficulty_key : List ℕ
best_cumulative_difficulty_key =
    98 ∷ 101 ∷ 115 ∷ 116 ∷ 95 ∷ 99 ∷ 117 ∷ 109 ∷ 117 ∷ 108 ∷ 97 ∷ 116 ∷ 105 ∷ 118 ∷ 101 ∷ 95 ∷ 100
    ∷ 105 ∷ 102 ∷ 102 ∷ 105 ∷ 99 ∷ 117 ∷ 108 ∷ 116 ∷ 121 ∷ []

abbrev pub best_full_block_id_key : List ℕ
best_full_block_id_key =
    98 ∷ 101 ∷ 115 ∷ 116 ∷ 95 ∷ 102 ∷ 117 ∷ 108 ∷ 108 ∷ 95 ∷ 98 ∷ 108 ∷ 111 ∷ 99 ∷ 107 ∷ 95 ∷ 105
    ∷ 100 ∷ []

abbrev pub best_full_block_height_key : List ℕ
best_full_block_height_key =
    98 ∷ 101 ∷ 115 ∷ 116 ∷ 95 ∷ 102 ∷ 117 ∷ 108 ∷ 108 ∷ 95 ∷ 98 ∷ 108 ∷ 111 ∷ 99 ∷ 107 ∷ 95 ∷ 104
    ∷ 101 ∷ 105 ∷ 103 ∷ 104 ∷ 116 ∷ []

abbrev pub minimal_full_block_height_key : List ℕ
minimal_full_block_height_key =
    109 ∷ 105 ∷ 110 ∷ 105 ∷ 109 ∷ 97 ∷ 108 ∷ 95 ∷ 102 ∷ 117 ∷ 108 ∷ 108 ∷ 95 ∷ 98 ∷ 108 ∷ 111 ∷ 99
    ∷ 107 ∷ 95 ∷ 104 ∷ 101 ∷ 105 ∷ 103 ∷ 104 ∷ 116 ∷ []

abbrev pub is_headers_chain_synced_key : List ℕ
is_headers_chain_synced_key =
    105 ∷ 115 ∷ 95 ∷ 104 ∷ 101 ∷ 97 ∷ 100 ∷ 101 ∷ 114 ∷ 115 ∷ 95 ∷ 99 ∷ 104 ∷ 97 ∷ 105 ∷ 110 ∷ 95
    ∷ 115 ∷ 121 ∷ 110 ∷ 99 ∷ 101 ∷ 100 ∷ []

-- `blocks_to_keep`, an `i32`, is its bit pattern.
pub record History (s : Storage) : Type 0 where
  pub storage : s.Db
  pub best_header_id : Option (List ℕ)
  pub best_height : ℕ
  pub best_cumulative_difficulty : ℕ
  pub best_full_block_id : Option (List ℕ)
  pub best_full_block_height : ℕ
  pub blocks_to_keep : ℕ
  pub minimal_full_block_height : ℕ
  pub is_headers_chain_synced : Bool

pub record FullBlock (lib : ChainLib) : Type 0 where
  pub header : Header
  pub transactions : List lib.Tx
  pub extension : Extension
  pub ad_proofs : Option AdProofs

-- What is loaded of a stored id, height or flag; a value of another form leaves the default.
unfoldable pub loaded_id : Option (List ℕ) → Option (List ℕ) → Option (List ℕ)
loaded_id none old = old
loaded_id (some bytes) old = if length bytes == 32 then some bytes else old

unfoldable pub loaded_u32 : Option (List ℕ) → ℕ → ℕ
loaded_u32 none old = old
loaded_u32 (some bytes) old = if ltb (length bytes) 4 then old else from_be 0 (take 4 bytes)

unfoldable pub loaded_flag : Option (List ℕ) → Bool
loaded_flag none = false
loaded_flag (some []) = false
loaded_flag (some (b ∷ bytes)) = b == 1

-- Whether a header was found and has the id.
unfoldable pub is_header : Option Header → List ℕ → Bool
is_header none id = false
is_header (some header) id = same_bytes header.id id

-- `History::with_pruning`
unfoldable pub with_pruning : (s : Storage) → s.Db → ℕ → History s
with_pruning s db blocks_to_keep = record {
  storage = db;
  best_header_id = none;
  best_height = 0;
  best_cumulative_difficulty = 0;
  best_full_block_id = none;
  best_full_block_height = 0;
  blocks_to_keep = blocks_to_keep;
  minimal_full_block_height = 1;
  is_headers_chain_synced = false;
}

module _ (s : Storage) (lib : ChainLib) where
  unfoldable pub loaded_difficulty : Option (List ℕ) → ℕ → ℕ
  loaded_difficulty none old = old
  loaded_difficulty (some bytes) old = lib.from_bytes_be bytes

  -- `History::init_from_storage_with_pruning`
  unfoldable pub init_from_storage_with_pruning : s.Db → ℕ → History s
  init_from_storage_with_pruning db blocks_to_keep =
      let h = with_pruning s db blocks_to_keep in
      record h {
        best_header_id = loaded_id (s.get db metadata best_header_id_key) h.best_header_id;
        best_height = loaded_u32 (s.get db metadata best_height_key) h.best_height;
        best_cumulative_difficulty =
            loaded_difficulty (s.get db metadata best_cumulative_difficulty_key)
              h.best_cumulative_difficulty;
        best_full_block_id =
            loaded_id (s.get db metadata best_full_block_id_key) h.best_full_block_id;
        best_full_block_height =
            loaded_u32 (s.get db metadata best_full_block_height_key) h.best_full_block_height;
        minimal_full_block_height =
            loaded_u32 (s.get db metadata minimal_full_block_height_key)
              h.minimal_full_block_height;
        is_headers_chain_synced = loaded_flag (s.get db metadata is_headers_chain_synced_key);
      }

  -- `get_cumulative_difficulty`, and with 0 for a block that has none
  unfoldable pub get_cumulative_difficulty : s.Db → List ℕ → Option ℕ
  get_cumulative_difficulty db block_id = elim (s.get db cumulative_difficulty block_id) [
    | none ↦ none
    | some bytes ↦ some (lib.from_bytes_be bytes)
  ]

  abbrev pub or_zero : Option ℕ → ℕ
  or_zero none = 0
  or_zero (some n) = n

  -- Genesis and the first block after it have no parent difficulty.
  unfoldable pub parent_cumulative : s.Db → Header → ℕ
  parent_cumulative db header =
      if leb header.height 2 then 0 else or_zero (get_cumulative_difficulty db header.parent_id)

  unfoldable pub store_cumulative_difficulty : WriteBatch → List ℕ → ℕ → WriteBatch
  store_cumulative_difficulty batch block_id difficulty =
      put batch cumulative_difficulty block_id (lib.to_bytes_be difficulty)

  -- The walk back along a new chain, until the index of heights has its header: at each height, `id` is
  -- that of the new chain. A missing header ends the loop.
  unfoldable pub fork_loop : s.Db → ℕ → List ℕ → Result StateError ℕ
  fork_loop db zero id = ok 1
  fork_loop db (suc n) id = do
    main ← get_by_height s lib db (suc n)
    (if is_header main id then ok (suc n) else (do
      back ← get_header s lib db id
      elim back [ none ↦ ok 1 | some header ↦ fork_loop db n header.parent_id ]))

  unfoldable pub find_fork_height : s.Db → List ℕ → Result StateError ℕ
  find_fork_height db new_header_id = do
    found ← get_header s lib db new_header_id
    new_header ← ok_or found (header_not_found new_header_id)
    fork_loop db (new_header.height - 1) new_header.parent_id

  -- The three metadata entries of a new best header.
  unfoldable pub put_best : WriteBatch → List ℕ → ℕ → ℕ → WriteBatch
  put_best batch id height difficulty =
      put (put (put batch metadata best_header_id_key id) metadata best_height_key (be_u32 height))
        metadata best_cumulative_difficulty_key (lib.to_bytes_be difficulty)

  -- `height <= current_height && current_height > 0`
  abbrev pub is_reorg : ℕ → ℕ → Bool
  is_reorg height current_height = leb height current_height && ltb 0 current_height

  -- What a new best header at `height` makes of the chain that ended at `current_height`.
  -- `current_height - fork_height` is a `u32` subtraction.
  unfoldable pub selection_of : s.Db → List ℕ → ℕ → ℕ → Result StateError ChainSelection
  selection_of db header_id height current_height =
      let found = (do
        fork_height ← find_fork_height db header_id
        ok (reorg fork_height ((current_height + u32_mod - fork_height) % u32_mod))) in
      if is_reorg height current_height then found else ok extended

  -- The rest of `append_header_internal` after the header is stored.
  unfoldable pub select_header :
      History s → Header → ℕ → History s × Result StateError ChainSelection
  select_header h header difficulty =
      let batch = store_cumulative_difficulty new header.id difficulty in
      let db = s.write_batch h.storage (put_best batch header.id header.height difficulty) in
      if ltb h.best_cumulative_difficulty difficulty
      then (
        record h {
          storage = db;
          best_header_id = some header.id;
          best_height = header.height;
          best_cumulative_difficulty = difficulty;
        },
        selection_of db header.id header.height h.best_height,
      )
      else (record h { storage = s.write_batch h.storage batch }, ok ignored)

  -- `append_header` (no raw bytes) and `append_header_with_bytes`
  unfoldable pub append_header_internal :
      History s → Header → Option (List ℕ) → History s × Result StateError ChainSelection
  append_header_internal h header raw_bytes =
      if contains_header s lib h.storage header.id
      then (h, ok ignored)
      else if ltb 2 header.height && not (contains_header s lib h.storage header.parent_id)
      then (h, err (header_not_found header.parent_id))
      else elim (put_header s lib h.storage header raw_bytes) [
        | err e ↦ (h, err e)
        | ok db ↦
            select_header (record h { storage = db }) header
              (parent_cumulative h.storage header + nbits_to_difficulty header.n_bits)
      ]

  -- `put_ad_proofs_batched` where the block has proofs.
  unfoldable pub put_optional_proofs : WriteBatch → Option AdProofs → WriteBatch
  put_optional_proofs batch none = batch
  put_optional_proofs batch (some proofs) = put_ad_proofs_batched batch proofs

  -- `add_block_to_batch`: the batch with the block, and the block's cumulative difficulty.
  unfoldable pub add_block_to_batch :
      WriteBatch → FullBlock lib → ℕ → Result StateError (WriteBatch × ℕ)
  add_block_to_batch batch block parent = do
    batch ← put_batched lib batch block.header
    let difficulty = parent + nbits_to_difficulty block.header.n_bits
    let batch = store_cumulative_difficulty batch block.header.id difficulty
    batch ← put_transactions_batched lib batch block.header.id block.transactions
    ok (
      put_optional_proofs (put_extension_batched batch block.extension) block.ad_proofs,
      difficulty,
    )

  -- The metadata of a new best full block.
  unfoldable pub put_best_full : WriteBatch → List ℕ → ℕ → WriteBatch
  put_best_full batch id height =
      put (put batch metadata best_full_block_id_key id) metadata best_full_block_height_key
        (be_u32 height)

  -- `finalize_block_batch`; the fork height of a reorganisation is left at 1.
  unfoldable pub finalize_block_batch :
      History s → WriteBatch → List ℕ → ℕ → ℕ → History s × ChainSelection
  finalize_block_batch h batch id height difficulty =
      let better = ltb h.best_cumulative_difficulty difficulty in
      let higher = ltb h.best_full_block_height height in
      let batch = if better then put_best batch id height difficulty else batch in
      let batch = if higher then put_best_full batch id height else batch in
      (
        record h {
          storage = s.write_batch h.storage batch;
          best_header_id = if better then some id else h.best_header_id;
          best_height = if better then height else h.best_height;
          best_cumulative_difficulty = if better then difficulty else h.best_cumulative_difficulty;
          best_full_block_id = if higher then some id else h.best_full_block_id;
          best_full_block_height = if higher then height else h.best_full_block_height;
        },
        if better
            then if is_reorg height h.best_height then reorg 1 (h.best_height - 1) else extended
            else ignored,
      )

  -- `append_full_block`: the block as a batch of its own, finalized in the same way.
  unfoldable pub append_full_block :
      History s → FullBlock lib → History s × Result StateError ChainSelection
  append_full_block h block =
      elim (add_block_to_batch new block (parent_cumulative h.storage block.header)) [
        | err e ↦ (h, err e)
        | ok (batch, difficulty) ↦
            let done =
              finalize_block_batch h batch block.header.id block.header.height difficulty in
            (done.0, ok done.1)
      ]

  -- `update_in_memory_state`, after a batch that `finalize_block_batch` did not write.
  unfoldable pub update_in_memory_state : History s → List ℕ → ℕ → ℕ → History s
  update_in_memory_state h id height difficulty =
      let better = ltb h.best_cumulative_difficulty difficulty in
      let higher = ltb h.best_full_block_height height in
      record h {
        best_header_id = if better then some id else h.best_header_id;
        best_height = if better then height else h.best_height;
        best_cumulative_difficulty = if better then difficulty else h.best_cumulative_difficulty;
        best_full_block_id = if higher then some id else h.best_full_block_id;
        best_full_block_height = if higher then height else h.best_full_block_height;
      }
