-- ===== src/Sync/Histories.antt =====
-- Sequences of calls of the synchroniser (crates/ergo-sync/src/sync.rs).
use ergo_rust_node.Prelude.{
  ℕ, ◌≤◌, ◌≡◌, refl, sym, ap, ◌∙◌, inl, inr, true, false, ◌&&◌, Bool-cases, Option-cases, List, [],
  ◌∷◌, leb, ◌==◌, length, max, arith,
}
use ergo_rust_node.Assoc.{Map, Every, get, erase, values}
use ergo_rust_node.Sync.{
  SyncState, idle, awaiting_snapshots_info, awaiting_manifest, downloading_chunks,
  applying_snapshot, syncing_headers, syncing_blocks, synchronized, SyncConfig, Synchronizer, new,
  is_synchronized, is_synced, greatest, best_peer_height, height_or_zero, behind, check_sync_status,
  set_height, set_peer_height, remove_peer, start_header_sync, queue_headers, queue_blocks,
  get_download_batch, block_received, ids_of, requeue, handle_failure, set_utxo_snapshot_applied,
  register_snapshot_peer, unregister_snapshot_peer, start_snapshot_info_request,
  process_snapshots_info, start_manifest_request, clear_manifest_request, start_chunk_download,
  mark_chunk_downloading, counted, mark_chunk_downloaded, mark_chunk_failed,
  start_snapshot_application, complete_snapshot_application,
}

-- The calls that change the synchroniser, with their arguments.
pub data Call : Type 0 where
  height_call : ℕ → Call
  peer_height_call : ℕ → ℕ → Call
  remove_peer_call : ℕ → Call
  header_sync_call : ℕ → ℕ → Call
  queue_headers_call : List ℕ → Call
  queue_blocks_call : List ℕ → Call
  download_batch_call : ℕ → Call
  block_received_call : ℕ → Call
  failure_call : ℕ → Call
  snapshot_applied_call : Call
  register_call : ℕ → Call
  unregister_call : ℕ → Call
  info_request_call : ℕ → ℕ → Call
  info_call : ℕ → List (ℕ × ℕ) → Call
  manifest_request_call : ℕ → ℕ → ℕ → ℕ → Call
  clear_request_call : Call
  chunk_download_call : ℕ → ℕ → ℕ → Call
  chunk_downloading_call : ℕ → ℕ → ℕ → Call
  chunk_downloaded_call : ℕ → Call
  chunk_failed_call : ℕ → Call
  application_call : ℕ → Call
  complete_call : ℕ → Call

unfoldable pub after : Synchronizer → Call → Synchronizer
after y (height_call height) = set_height y height
after y (peer_height_call peer height) = set_peer_height y peer height
after y (remove_peer_call peer) = remove_peer y peer
after y (header_sync_call from to) = start_header_sync y from to
after y (queue_headers_call ids) = queue_headers y ids
after y (queue_blocks_call ids) = queue_blocks y ids
after y (download_batch_call count) = (get_download_batch y count).0
after y (block_received_call id) = block_received y id
after y (failure_call peer) = handle_failure y peer
after y snapshot_applied_call = set_utxo_snapshot_applied y
after y (register_call peer) = register_snapshot_peer y peer
after y (unregister_call peer) = unregister_snapshot_peer y peer
after y (info_request_call peers now) = start_snapshot_info_request y peers now
after y (info_call peer manifests) = (process_snapshots_info y peer manifests).0
after y (manifest_request_call id height peer now) = start_manifest_request y id height peer now
after y clear_request_call = clear_manifest_request y
after y (chunk_download_call id height total) = start_chunk_download y id height total
after y (chunk_downloading_call id peer now) = mark_chunk_downloading y id peer now
after y (chunk_downloaded_call id) = (mark_chunk_downloaded y id).0
after y (chunk_failed_call id) = mark_chunk_failed y id
after y (application_call height) = start_snapshot_application y height
after y (complete_call height) = complete_snapshot_application y height

unfoldable pub run : Synchronizer → List Call → Synchronizer
run y [] = y
run y (call ∷ calls) = run (after y call) calls

-- Nothing is pending, and a synchroniser that says synchronized is not behind any peer.
pub record IsSound (y : Synchronizer) : Type 0 where
  pub nothing_pending : y.pending ≡ []
  pub not_behind :
      is_synchronized y.state ≡ true → height_or_zero (best_peer_height y) ≤ y.our_height

behind_unsynchronized :
    (our best : ℕ) (state : SyncState) → is_synchronized (behind our best state) ≡ false
unfolding behind
behind_unsynchronized our best idle = refl
behind_unsynchronized our best synchronized = refl
behind_unsynchronized our best (applying_snapshot h) = refl
behind_unsynchronized our best (awaiting_snapshots_info n t) = refl
behind_unsynchronized our best (awaiting_manifest i h p) = refl
behind_unsynchronized our best (downloading_chunks i h t d) = refl
behind_unsynchronized our best (syncing_headers f t) = refl
behind_unsynchronized our best (syncing_blocks n) = refl

check_sync_status-IsSound : (y : Synchronizer) → y.pending ≡ [] → IsSound (check_sync_status y)
unfolding check_sync_status best_peer_height
check_sync_status-IsSound y p =
    elim (Bool-cases (leb (height_or_zero (best_peer_height y)) y.our_height)) [
      | inl q ↦ record { nothing_pending = p; not_behind = λ h. ground arith }
      | inr q ↦ record {
        nothing_pending = p;
        not_behind = rw q (λ h. absurd (
            ground (
              arith,
              behind_unsynchronized y.our_height (height_or_zero (best_peer_height y)) y.state,
            )));
      }
    ]

greatest_cons :
    (h : ℕ) (hs : List ℕ)
    → height_or_zero (greatest (h ∷ hs)) ≡ max h (height_or_zero (greatest hs))
unfolding greatest
greatest_cons h hs = elim (Option-cases (greatest hs)) [
  | inl q ↦ rw q (omega arith)
  | inr (m, q) ↦ rw q
]

greatest-erase :
    (k : ℕ) (m : Map ℕ)
    → height_or_zero (greatest (values (erase k m))) ≤ height_or_zero (greatest (values m))
unfolding greatest erase
greatest-erase k [] = omega arith
greatest-erase k ((j, h) ∷ m) =
    let rest = greatest-erase k m in
    let all = greatest_cons h (values m) in
    let left = greatest_cons h (values (erase k m)) in
    elim (Bool-cases (j == k)) [
      | inl q ↦ rw (q, all) (omega (arith, rest))
      | inr q ↦ rw (q, all, left) (omega (arith, rest))
    ]

-- What a peer says is at most the greatest height.
greatest-Every : (m : Map ℕ) → Every (λ k h. h ≤ height_or_zero (greatest (values m))) m
unfolding greatest get
greatest-Every [] k v = λ h. absurd (ground arith)
greatest-Every ((j, w) ∷ m) k v =
    let all = greatest_cons w (values m) in
    elim (Bool-cases (j == k)) [
      | inl q ↦ rw (q, all) (λ h. ground arith)
      | inr q ↦ rw (q, all) (λ h. let rest = greatest-Every m k v h in omega (arith, rest))
    ]

counted-synchronized :
    (n : ℕ) (state : SyncState) → is_synchronized (counted n state).0 ≡ is_synchronized state
unfolding counted
counted-synchronized n idle = refl
counted-synchronized n synchronized = refl
counted-synchronized n (applying_snapshot h) = refl
counted-synchronized n (awaiting_snapshots_info m t) = refl
counted-synchronized n (awaiting_manifest i h p) = refl
counted-synchronized n (downloading_chunks i h t d) = refl
counted-synchronized n (syncing_headers f t) = refl
counted-synchronized n (syncing_blocks m) = refl

remove_peer-IsSound : (y : Synchronizer) (peer : ℕ) → IsSound y → IsSound (remove_peer y peer)
unfolding remove_peer best_peer_height
remove_peer-IsSound y peer v = record {
  nothing_pending = v.nothing_pending;
  not_behind = λ h.
      (let most = v.not_behind h in
        let less = greatest-erase peer y.peer_heights in omega (arith, most, less));
}

-- A call that leaves the heights and the pending ids, and does not end synchronized unless it was.
IsSound-kept :
    (y y' : Synchronizer)
    → y'.pending ≡ y.pending
    → y'.peer_heights ≡ y.peer_heights
    → y'.our_height ≡ y.our_height
    → (is_synchronized y'.state ≡ true → is_synchronized y.state ≡ true)
    → IsSound y
    → IsSound y'
unfolding best_peer_height
IsSound-kept y y' p hs o state v = record {
  nothing_pending = p ∙ v.nothing_pending;
  not_behind = λ h. rw (best_peer_height, hs, o) (v.not_behind (state h));
}

block_received-IsSound : (y : Synchronizer) (id : ℕ) → IsSound y → IsSound (block_received y id)
unfolding block_received erase
block_received-IsSound y id v =
    let none_left : erase id y.pending ≡ [] = rw (v.nothing_pending) refl in
    elim (Bool-cases ((length (erase id y.pending) == 0) && (length y.block_queue == 0))) [
      | inl q ↦ rw (block_received, q) (check_sync_status-IsSound _ none_left)
      | inr q ↦
          rw (block_received, q)
            (record { nothing_pending = none_left; not_behind = λ h. absurd (ground arith) })
    ]

process_snapshots_info-IsSound :
    (y : Synchronizer) (peer : ℕ) (manifests : List (ℕ × ℕ))
    → IsSound y
    → IsSound (process_snapshots_info y peer manifests).0
unfolding process_snapshots_info
process_snapshots_info-IsSound y peer [] v = v
process_snapshots_info-IsSound y peer (manifest ∷ manifests) v =
    IsSound-kept y _ refl refl refl (λ h. h) v

-- Without pending ids the failure of a peer changes nothing.
handle_failure-nothing_pending :
    (y : Synchronizer) (peer : ℕ) → y.pending ≡ [] → handle_failure y peer ≡ y
unfolding handle_failure ids_of requeue
handle_failure-nothing_pending y peer p = ap (λ m. requeue (ids_of peer m) y) p

after-IsSound : (y : Synchronizer) (call : Call) → IsSound y → IsSound (after y call)
unfolding after set_height set_peer_height start_header_sync queue_headers queue_blocks
    get_download_batch set_utxo_snapshot_applied register_snapshot_peer unregister_snapshot_peer
    start_snapshot_info_request start_manifest_request clear_manifest_request start_chunk_download
    mark_chunk_downloading mark_chunk_downloaded mark_chunk_failed start_snapshot_application
    complete_snapshot_application
after-IsSound y (height_call height) v = check_sync_status-IsSound _ v.nothing_pending
after-IsSound y (peer_height_call peer height) v = check_sync_status-IsSound _ v.nothing_pending
after-IsSound y (remove_peer_call peer) v = remove_peer-IsSound y peer v
after-IsSound y (header_sync_call from to) v =
    IsSound-kept y _ refl refl refl (λ h. absurd (ground arith)) v
after-IsSound y (queue_headers_call ids) v = IsSound-kept y _ refl refl refl (λ h. h) v
after-IsSound y (queue_blocks_call ids) v =
    IsSound-kept y _ refl refl refl (λ h. absurd (ground arith)) v
after-IsSound y (download_batch_call count) v = IsSound-kept y _ refl refl refl (λ h. h) v
after-IsSound y (block_received_call id) v = block_received-IsSound y id v
after-IsSound y (failure_call peer) v =
    rw (handle_failure-nothing_pending y peer v.nothing_pending) v
after-IsSound y snapshot_applied_call v = IsSound-kept y _ refl refl refl (λ h. h) v
after-IsSound y (register_call peer) v = IsSound-kept y _ refl refl refl (λ h. h) v
after-IsSound y (unregister_call peer) v = IsSound-kept y _ refl refl refl (λ h. h) v
after-IsSound y (info_request_call peers now) v =
    IsSound-kept y _ refl refl refl (λ h. absurd (ground arith)) v
after-IsSound y (info_call peer manifests) v = process_snapshots_info-IsSound y peer manifests v
after-IsSound y (manifest_request_call id height peer now) v =
    IsSound-kept y _ refl refl refl (λ h. absurd (ground arith)) v
after-IsSound y clear_request_call v = IsSound-kept y _ refl refl refl (λ h. h) v
after-IsSound y (chunk_download_call id height total) v =
    IsSound-kept y _ refl refl refl (λ h. absurd (ground arith)) v
after-IsSound y (chunk_downloading_call id peer now) v = IsSound-kept y _ refl refl refl (λ h. h) v
after-IsSound y (chunk_downloaded_call id) v =
    IsSound-kept y _ refl refl refl (λ h. sym (counted-synchronized _ y.state) ∙ h) v
after-IsSound y (chunk_failed_call id) v = IsSound-kept y _ refl refl refl (λ h. h) v
after-IsSound y (application_call height) v =
    IsSound-kept y _ refl refl refl (λ h. absurd (ground arith)) v
after-IsSound y (complete_call height) v = check_sync_status-IsSound _ v.nothing_pending

run-IsSound : (y : Synchronizer) (calls : List Call) → IsSound y → IsSound (run y calls)
unfolding run
run-IsSound y [] v = v
run-IsSound y (call ∷ calls) v = run-IsSound (after y call) calls (after-IsSound y call v)

new-IsSound : (config : SyncConfig) → IsSound (new config)
unfolding new
new-IsSound config = record { nothing_pending = refl; not_behind = λ h. absurd (ground arith) }

-- After any sequence of calls of a new synchroniser, when it says that it is synchronized, the height of
-- no known peer is above its own.
pub run-is_synced :
    (config : SyncConfig) (calls : List Call)
    → is_synced (run (new config) calls) ≡ true
    → Every
        (λ peer h. h ≤ (run (new config) calls).our_height)
        (run (new config) calls).peer_heights
unfolding is_synced best_peer_height
run-is_synced config calls synced k v h =
    let y = run (new config) calls in
    let sound = (run-IsSound (new config) calls (new-IsSound config)).not_behind synced in
    let most = greatest-Every y.peer_heights k v h in omega (arith, sound, most)

-- After any sequence of calls of a new synchroniser, no request is pending, and so the failure of a peer
-- changes nothing: what was handed out for download and failed is not queued again.
pub handle_failure-run :
    (config : SyncConfig) (calls : List Call) (peer : ℕ)
    → ((run (new config) calls).pending ≡ [])
      × (handle_failure (run (new config) calls) peer ≡ run (new config) calls)
handle_failure-run config calls peer =
    let p = (run-IsSound (new config) calls (new-IsSound config)).nothing_pending in
    (p, handle_failure-nothing_pending _ peer p)
