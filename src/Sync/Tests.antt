-- ===== src/Sync/Tests.antt =====
-- The theorems at short histories (crates/ergo-sync/src/sync.rs).
use ergo_rust_node.Prelude.{
  ℕ, ◌≤◌, ◌≡◌, refl, true, false, Option, none, some, List, [], ◌∷◌, length, leb, set_insert,
  set_remove, arith,
}
use ergo_rust_node.Assoc.{Every, get, insert, erase, contains_key}
use ergo_rust_node.Sync.{
  syncing_headers, syncing_blocks, downloading_chunks, synchronized, Synchronizer, default_config,
  new, is_synced, greatest, best_peer_height, behind, check_sync_status, set_height,
  set_peer_height, remove_peer, start_header_sync, queue_headers, queue_blocks, get_download_batch,
  block_received, ids_of, requeue, handle_failure, set_utxo_snapshot_applied,
  should_use_snapshot_sync, register_snapshot_peer, without_peer, unregister_snapshot_peer,
  start_snapshot_info_request, add_manifests, best_manifest, check_manifest_availability,
  process_snapshots_info, start_manifest_request, check_manifest_timeout, clear_manifest_request,
  get_manifest_peer, start_chunk_download, is_missing, get_chunks_to_request,
  mark_chunk_downloading, counted, mark_chunk_downloaded, mark_chunk_failed, timed_out,
  get_timed_out_chunks, needs_more_chunk_downloads, get_random_chunk_peer,
  start_snapshot_application, complete_snapshot_application,
}
use ergo_rust_node.Sync.Chunks
use ergo_rust_node.Sync.Chunks.{mark_all}
use ergo_rust_node.Sync.Histories
use ergo_rust_node.Sync.Histories.{
  Call, height_call, peer_height_call, queue_blocks_call, download_batch_call, block_received_call,
  after, run,
}

-- A peer is at height 3, two blocks are handed out, and one is received.
abbrev calls : List Call
calls =
    peer_height_call 7 3
    ∷ queue_blocks_call (11 ∷ 12 ∷ [])
    ∷ download_batch_call 2
    ∷ height_call 3
    ∷ block_received_call 11
    ∷ []

abbrev done : Synchronizer
done = run (new default_config) calls

abbrev first_of : List ℕ → Option ℕ
first_of [] = none
first_of (p ∷ ps) = some p

-- Two peers have the manifest 5, of height 100, and one has the manifest 6.
abbrev informed : Synchronizer
informed =
    (process_snapshots_info
      (process_snapshots_info (new default_config) 1 ((100, 5) ∷ (200, 6) ∷ [])).0 2
      ((100, 5) ∷ [])).0

abbrev chunks : Synchronizer
chunks = start_chunk_download (new default_config) 5 100 3

program :
    (done.state ≡ synchronized)
    × ((block_received (queue_blocks done (13 ∷ [])) 12).state ≡ syncing_blocks 1)
    × ((set_peer_height done 8 9).state ≡ syncing_headers 3 9)
    × ((handle_failure (record done { pending = (12, 7) ∷ [] }) 7).block_queue ≡ 12 ∷ [])
    × (check_manifest_availability informed ≡ some (5, 100))
    × (check_manifest_availability (unregister_snapshot_peer informed 2) ≡ none)
    × (get_manifest_peer first_of informed 5 ≡ some 1)
    × (check_manifest_timeout (start_manifest_request informed 5 100 2 10) 60 80 ≡ some 2)
    × (check_manifest_timeout
          (clear_manifest_request (start_manifest_request informed 5 100 2 10))
          60
          80
        ≡ none)
    × (get_chunks_to_request (mark_chunk_downloading chunks 1 7 0) (1 ∷ 2 ∷ 3 ∷ []) 1 ≡ 2 ∷ [])
    × (get_timed_out_chunks (mark_chunk_downloading chunks 1 7 0) 5 9 ≡ (1, 7) ∷ [])
    × (get_chunks_to_request (mark_chunk_failed (mark_chunk_downloading chunks 1 7 0) 1) (1 ∷ []) 4
        ≡ 1 ∷ [])
    × ((mark_chunk_downloaded chunks 1).0.state ≡ downloading_chunks 5 100 3 1)
    × (needs_more_chunk_downloads chunks ≡ true)
    × (get_random_chunk_peer first_of (register_snapshot_peer chunks 4) ≡ some 4)
    × ((complete_snapshot_application (start_snapshot_application chunks 100) 100).state
        ≡ synchronized)
    × (should_use_snapshot_sync chunks ≡ false)
    × ((remove_peer
          (start_snapshot_info_request (start_header_sync (queue_headers done (1 ∷ [])) 1 2) 3 4)
          7).peer_heights
        ≡ [])
unfolding default_config new is_synced greatest best_peer_height behind check_sync_status set_height
    set_peer_height remove_peer start_header_sync queue_headers queue_blocks get_download_batch
    block_received ids_of requeue handle_failure set_utxo_snapshot_applied should_use_snapshot_sync
    register_snapshot_peer without_peer unregister_snapshot_peer start_snapshot_info_request
    add_manifests best_manifest check_manifest_availability process_snapshots_info
    start_manifest_request check_manifest_timeout clear_manifest_request get_manifest_peer
    start_chunk_download is_missing get_chunks_to_request mark_chunk_downloading counted
    mark_chunk_downloaded mark_chunk_failed timed_out get_timed_out_chunks
    needs_more_chunk_downloads get_random_chunk_peer start_snapshot_application
    complete_snapshot_application mark_all after run get insert erase contains_key set_insert
    set_remove
program = (
  refl, refl, refl, refl, refl, refl, refl, refl, refl, refl, refl, refl, refl, refl, refl, refl,
  refl, refl,
)

done_synced : is_synced done ≡ true
unfolding default_config new is_synced greatest best_peer_height behind check_sync_status set_height
    set_peer_height remove_peer start_header_sync queue_headers queue_blocks get_download_batch
    block_received ids_of requeue handle_failure set_utxo_snapshot_applied should_use_snapshot_sync
    register_snapshot_peer without_peer unregister_snapshot_peer start_snapshot_info_request
    add_manifests best_manifest check_manifest_availability process_snapshots_info
    start_manifest_request check_manifest_timeout clear_manifest_request get_manifest_peer
    start_chunk_download is_missing get_chunks_to_request mark_chunk_downloading counted
    mark_chunk_downloaded mark_chunk_failed timed_out get_timed_out_chunks
    needs_more_chunk_downloads get_random_chunk_peer start_snapshot_application
    complete_snapshot_application mark_all after run get insert erase contains_key set_insert
    set_remove
done_synced = refl

run-is_synced_example : Every (λ peer h. h ≤ done.our_height) done.peer_heights
run-is_synced_example = Histories.run-is_synced default_config calls done_synced

handle_failure-run_example : (done.pending ≡ []) × (handle_failure done 7 ≡ done)
handle_failure-run_example = Histories.handle_failure-run default_config calls 7

abbrev arrived : List ℕ
arrived = 2 ∷ 1 ∷ 3 ∷ []

mark_all-start_chunk_download_example :
    (mark_all (start_chunk_download done 5 100 3) false arrived).1 ≡ leb 3 (length arrived)
mark_all-start_chunk_download_example =
    Chunks.mark_all-start_chunk_download done 5 100 3 arrived (omega arith)
      (refl, (refl, (refl, tt)))
