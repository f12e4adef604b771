-- ===== src/History/Chain/Batched.antt =====
-- Many headers in one write (crates/ergo-state/src/history.rs): the definitions are in Defs.
pub mod Defs
pub mod Stored
unfoldable pub use Defs.*
use ergo_rust_node.Prelude.{
  ℕ, ◌+◌, ◌<◌, ◌≡◌, refl, sym, ◌∙◌, inl, inr, Bool, true, false, not, ◌&&◌, Bool-cases, some, List,
  [], ◌∷◌, ltb, leb, if◌then◌else◌, max, Result, ok, err, lt→ltb, arith,
}
use ergo_rust_node.Storage.{Storage, WriteBatch, new}
use ergo_rust_node.Storage.Bytes.{same_bytes_refl}
use ergo_rust_node.State.{StateError, header_not_found}
use ergo_rust_node.Utxo.Index.{has_id}
use ergo_rust_node.History.{
  Header, ChainLib, ChainSelection, ignored, put_with_bytes_batched, contains_header,
}
use ergo_rust_node.History.Difficulty.{nbits_to_difficulty}
use ergo_rust_node.History.Chain.{
  or_zero, get_cumulative_difficulty, History, parent_cumulative, store_cumulative_difficulty,
  put_best, selection_of,
}
use ergo_rust_node.History.Chain.Columns.{put_best-SameColumn}
use Stored.{AreDistinct, AreStored, AreWritten, add_all-AreWritten, AreStored-AreWritten}

module _ (s : Storage) (lib : ChainLib) where
  -- Over a linked rest the loop adds every header.
  batch_loop-add_all :
      (db : s.Db) (before : Header) (rest : List (Header × List ℕ)) (p : Progress)
      → IsLinked s lib db before rest
      → has_id p.ids before.id ≡ true
      → batch_loop s lib db rest p ≡ ok (add_all s lib db p rest)
  unfolding batch_loop add_all
  batch_loop-add_all db before [] p l here = refl
  batch_loop-add_all db before ((header, raw) ∷ rest) p l here =
      let known : has_id p.ids header.parent_id ≡ true = rw (l.2, here) in
      rw (l.0, lt→ltb 2 header.height l.1, known)
        (batch_loop-add_all db header rest (add_header s lib db p header raw) l.3
          (add_header_lem s lib db p header raw).0)

  -- After a linked rest the loop is at its last header, with its work added.
  add_all_lem :
      (db : s.Db) (before : Header) (rest : List (Header × List ℕ)) (p : Progress)
      → IsLinked s lib db before rest
      → has_id p.ids before.id ≡ true
      → p.cumulative ≡ p.final_cumulative
      → p.final_id ≡ before.id
      → p.final_height ≡ before.height
      → (let q = add_all s lib db p rest in
          (q.final_cumulative ≡ p.cumulative + work_of s lib rest)
          × (q.final_id ≡ (last_of s lib before rest).id)
          × (q.final_height ≡ (last_of s lib before rest).height))
  unfolding add_all work_of last_of parent_in_batch
  add_all_lem db before [] p l here same at high = (omega (arith, same), at, high)
  add_all_lem db before ((header, raw) ∷ rest) p l here same at high =
      let known : has_id p.ids header.parent_id ≡ true = rw (l.2, here) in
      let added = add_header_lem s lib db p header raw in
      let in_batch : parent_in_batch s lib p header ≡ true =
        rw (parent_in_batch, lt→ltb 2 header.height l.1, known) in
      let q =
        add_all_lem db header rest (add_header s lib db p header raw) l.3 added.0 added.1 added.2
          added.4 in
      (q.0 ∙ rw (added.3, in_batch) (omega arith), q.1, q.2)

  first_round :
      (db : s.Db) (first : Header) (raw : List ℕ) (rest : List (Header × List ℕ))
      → contains_header s lib db first.id ≡ false
      → (ltb 2 first.height && not (contains_header s lib db first.parent_id)) ≡ false
      → batch_loop s lib db ((first, raw) ∷ rest) (start_of s lib db first)
        ≡ batch_loop s lib db rest (add_header s lib db (start_of s lib db first) first raw)
  unfolding batch_loop start_of has_id
  first_round db first raw rest fresh parent = rw (fresh, parent)

  first_not_in_batch :
      (db : s.Db) (first : Header) → parent_in_batch s lib (start_of s lib db first) first ≡ false
  unfolding parent_in_batch start_of has_id
  first_not_in_batch db first = ground arith

  selected_batch :
      (h : History s) (p : Progress)
      → (let h' = (select_batch s lib h p).0 in
          (h'.best_cumulative_difficulty ≡ max h.best_cumulative_difficulty p.final_cumulative)
          × (h'.best_header_id ≡ (
              if ltb h.best_cumulative_difficulty p.final_cumulative
              then some p.final_id
              else h.best_header_id))
          × (h'.best_height ≡ (
              if ltb h.best_cumulative_difficulty p.final_cumulative
              then p.final_height
              else h.best_height))
          × ((d : ℕ) (hs : List (Header × List ℕ))
              → AreWritten s lib p.batch d hs
              → AreStored s lib h'.storage d hs))
  unfolding select_batch
  selected_batch h p = elim (Bool-cases (ltb h.best_cumulative_difficulty p.final_cumulative)) [
    | inl e ↦ rw e (
      ground (arith, e),
      refl,
      refl,
      λ d hs. AreStored-AreWritten s lib h.storage p.batch _ d hs (λ c other.
          put_best-SameColumn s lib c p.batch p.final_id p.final_height p.final_cumulative other),
    )
    | inr e ↦ rw e (
      ground (arith, e),
      refl,
      refl,
      λ d hs. AreStored-AreWritten s lib h.storage p.batch p.batch d hs (λ c other k old. refl),
    )
  ]

  -- Let the first header be new and have its parent stored or a height of at most 2, let each other one
  -- be new, have a height above 2 and the one before it as its parent, and let no two have one id or one
  -- height. Then for each header its raw bytes, its id in the index of heights and its difficulty are
  -- stored: its work added to the difficulty before it, which for the first one is what is stored for
  -- its parent, or 0 where nothing is, or at a height of at most 2. The best difficulty becomes the
  -- greater of the old one and of that of the last header, and if it grows, the last header is the best
  -- one.
  pub append_headers_batched_lem :
      (h : History s) (first : Header) (raw : List ℕ) (rest : List (Header × List ℕ))
      → contains_header s lib h.storage first.id ≡ false
      → (ltb 2 first.height && not (contains_header s lib h.storage first.parent_id)) ≡ false
      → IsLinked s lib h.storage first rest
      → AreDistinct ((first, raw) ∷ rest)
      → (let h' = (append_headers_batched s lib h ((first, raw) ∷ rest)).0 in
          let parent =
            if leb first.height 2
            then 0
            else or_zero s lib (get_cumulative_difficulty s lib h.storage first.parent_id) in
          let total = parent + work_of s lib ((first, raw) ∷ rest) in
          let better = ltb h.best_cumulative_difficulty total in
          let last = last_of s lib first rest in
          AreStored s lib h'.storage parent ((first, raw) ∷ rest)
          × (h'.best_cumulative_difficulty ≡ max h.best_cumulative_difficulty total)
          × (h'.best_header_id ≡ (if better then some last.id else h.best_header_id))
          × (h'.best_height ≡ (if better then last.height else h.best_height)))
  unfolding append_headers_batched work_of parent_cumulative
  append_headers_batched_lem h first raw rest fresh parent linked distinct =
      let start = start_of s lib h.storage first in
      let p = add_header s lib h.storage start first raw in
      let added = add_header_lem s lib h.storage start first raw in
      let q = add_all_lem h.storage first rest p linked added.0 added.1 added.2 added.4 in
      let own : p.cumulative
          ≡ parent_cumulative s lib h.storage first + nbits_to_difficulty first.n_bits =
        added.3 ∙ rw (first_not_in_batch h.storage first) in
      let total : (add_all s lib h.storage p rest).final_cumulative
          ≡ parent_cumulative s lib h.storage first + work_of s lib ((first, raw) ∷ rest) =
        q.0 ∙ rw own (omega arith) in
      let done = selected_batch h (add_all s lib h.storage p rest) in
      let written =
        add_all-AreWritten s lib h.storage start first raw rest
          (parent_cumulative s lib h.storage first) linked distinct own in
      rw
        (
          append_headers_batched,
          first_round h.storage first raw rest fresh parent,
          batch_loop-add_all h.storage first rest p linked added.0,
        )
        (rw (sym total, sym q.1, sym q.2)
          (done.3 _ ((first, raw) ∷ rest) written, done.0, done.1, done.2))
