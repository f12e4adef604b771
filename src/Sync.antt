-- ===== src/Sync.antt =====
-- The synchronisation state machine, `Synchronizer` of crates/ergo-sync/src/sync.rs. A method returns
-- the new record, the clock (in milliseconds) is an argument, and so is the random choice of a peer.
pub mod Chunks
pub mod Histories
mod Tests
use ergo_rust_node.Prelude.{
  ℕ, ◌+◌, ◌-◌, ◌*◌, Bool, true, false, not, ◌&&◌, ◌||◌, Option, none, some, List, [], ◌∷◌, ◌++◌,
  ltb, leb, ◌==◌, if◌then◌else◌, length, take, drop, filter, map, max, contains, set_insert,
  set_remove,
}
use ergo_rust_node.Assoc.{Map, get, insert, erase, contains_key, values}

abbrev pub min_snapshot_peers : ℕ
min_snapshot_peers = 2

abbrev pub chunks_in_parallel_min : ℕ
chunks_in_parallel_min = 16

pub data SyncState : Type 0 where
  idle : SyncState
  awaiting_snapshots_info : ℕ → ℕ → SyncState
  awaiting_manifest : ℕ → ℕ → ℕ → SyncState
  downloading_chunks : ℕ → ℕ → ℕ → ℕ → SyncState
  applying_snapshot : ℕ → SyncState
  syncing_headers : ℕ → ℕ → SyncState
  syncing_blocks : ℕ → SyncState
  synchronized : SyncState

pub record SyncConfig : Type 0 where
  pub headers_batch : ℕ
  pub parallel_downloads : ℕ
  pub sync_timeout_secs : ℕ
  pub utxo_bootstrap : Bool
  pub snapshot_peers_min : ℕ

-- `SyncConfig::default`
unfoldable pub default_config : SyncConfig
default_config = record {
  headers_batch = 100;
  parallel_downloads = 16;
  sync_timeout_secs = 60;
  utxo_bootstrap = false;
  snapshot_peers_min = min_snapshot_peers;
}

pub record Synchronizer : Type 0 where
  pub config : SyncConfig
  pub state : SyncState
  pub peer_heights : Map ℕ
  pub header_queue : List ℕ
  pub block_queue : List ℕ
  pub pending : Map ℕ
  pub our_height : ℕ
  pub utxo_snapshot_applied : Bool
  pub available_manifests : Map (ℕ × List ℕ)
  pub snapshot_peers : List ℕ
  pub chunk_requests : Map (ℕ × ℕ)
  pub downloaded_chunks : List ℕ
  pub manifest_request_time : Option ℕ

unfoldable pub new : SyncConfig → Synchronizer
new config = record {
  config = config;
  state = idle;
  peer_heights = [];
  header_queue = [];
  block_queue = [];
  pending = [];
  our_height = 0;
  utxo_snapshot_applied = false;
  available_manifests = [];
  snapshot_peers = [];
  chunk_requests = [];
  downloaded_chunks = [];
  manifest_request_time = none;
}

abbrev pub is_synchronized : SyncState → Bool
is_synchronized synchronized = true
is_synchronized idle = false
is_synchronized (awaiting_snapshots_info n t) = false
is_synchronized (awaiting_manifest i h p) = false
is_synchronized (downloading_chunks i h t d) = false
is_synchronized (applying_snapshot h) = false
is_synchronized (syncing_headers f t) = false
is_synchronized (syncing_blocks n) = false

unfoldable pub is_synced : Synchronizer → Bool
is_synced y = is_synchronized y.state

-- The greatest of some heights.
unfoldable pub greatest : List ℕ → Option ℕ
greatest [] = none
greatest (h ∷ hs) = elim (greatest hs) [ none ↦ some h | some m ↦ some (max h m) ]

unfoldable pub best_peer_height : Synchronizer → Option ℕ
best_peer_height y = greatest (values y.peer_heights)

abbrev pub height_or_zero : Option ℕ → ℕ
height_or_zero none = 0
height_or_zero (some n) = n

-- What a node that is behind makes of a state: only from three states does header sync start.
unfoldable pub behind : ℕ → ℕ → SyncState → SyncState
behind our best idle = syncing_headers our best
behind our best synchronized = syncing_headers our best
behind our best (applying_snapshot h) = syncing_headers our best
behind our best (awaiting_snapshots_info n t) = awaiting_snapshots_info n t
behind our best (awaiting_manifest i h p) = awaiting_manifest i h p
behind our best (downloading_chunks i h t d) = downloading_chunks i h t d
behind our best (syncing_headers f t) = syncing_headers f t
behind our best (syncing_blocks n) = syncing_blocks n

unfoldable pub check_sync_status : Synchronizer → Synchronizer
check_sync_status y =
    let best = height_or_zero (best_peer_height y) in
    record y {
      state = if leb best y.our_height then synchronized else behind y.our_height best y.state;
    }

unfoldable pub set_height : Synchronizer → ℕ → Synchronizer
set_height y height = check_sync_status (record y { our_height = height })

unfoldable pub set_peer_height : Synchronizer → ℕ → ℕ → Synchronizer
set_peer_height y peer height =
    check_sync_status (record y { peer_heights = insert peer height y.peer_heights })

unfoldable pub remove_peer : Synchronizer → ℕ → Synchronizer
remove_peer y peer = record y { peer_heights = erase peer y.peer_heights }

unfoldable pub start_header_sync : Synchronizer → ℕ → ℕ → Synchronizer
start_header_sync y from to = record y { state = syncing_headers from to }

unfoldable pub queue_headers : Synchronizer → List ℕ → Synchronizer
queue_headers y ids = record y { header_queue = y.header_queue ++ ids }

unfoldable pub queue_blocks : Synchronizer → List ℕ → Synchronizer
queue_blocks y ids = record y {
  block_queue = y.block_queue ++ ids;
  state = syncing_blocks (length (y.block_queue ++ ids));
}

unfoldable pub get_download_batch : Synchronizer → ℕ → Synchronizer × List ℕ
get_download_batch y count =
    (record y { block_queue = drop count y.block_queue }, take count y.block_queue)

unfoldable pub block_received : Synchronizer → ℕ → Synchronizer
block_received y id =
    let pending = erase id y.pending in
    let received = record y { pending = pending } in
    if (length pending == 0) && (length y.block_queue == 0)
    then check_sync_status received
    else record received { state = syncing_blocks (length pending + length y.block_queue) }

-- The pending ids of a peer.
unfoldable pub ids_of : ℕ → Map ℕ → List ℕ
ids_of peer [] = []
ids_of peer ((id, p) ∷ m) = let rest = ids_of peer m in if p == peer then id ∷ rest else rest

unfoldable pub requeue : List ℕ → Synchronizer → Synchronizer
requeue [] y = y
requeue (id ∷ ids) y =
    requeue ids
      (record y { pending = erase id y.pending; block_queue = y.block_queue ++ (id ∷ []) })

unfoldable pub handle_failure : Synchronizer → ℕ → Synchronizer
handle_failure y peer = requeue (ids_of peer y.pending) y

unfoldable pub set_utxo_snapshot_applied : Synchronizer → Synchronizer
set_utxo_snapshot_applied y = record y { utxo_snapshot_applied = true }

unfoldable pub should_use_snapshot_sync : Synchronizer → Bool
should_use_snapshot_sync y =
    y.config.utxo_bootstrap && not y.utxo_snapshot_applied && (y.our_height == 0)

unfoldable pub register_snapshot_peer : Synchronizer → ℕ → Synchronizer
register_snapshot_peer y peer = record y { snapshot_peers = set_insert peer y.snapshot_peers }

-- `retain`: the peer is taken out of each manifest, and a manifest without peers goes.
unfoldable pub without_peer : ℕ → Map (ℕ × List ℕ) → Map (ℕ × List ℕ)
without_peer peer [] = []
without_peer peer ((id, (height, peers)) ∷ m) =
    let rest = without_peer peer m in
    let left = filter (λ p. not (p == peer)) peers in
    if length left == 0 then rest else (id, (height, left)) ∷ rest

unfoldable pub unregister_snapshot_peer : Synchronizer → ℕ → Synchronizer
unregister_snapshot_peer y peer = record y {
  snapshot_peers = set_remove peer y.snapshot_peers;
  available_manifests = without_peer peer y.available_manifests;
}

unfoldable pub start_snapshot_info_request : Synchronizer → ℕ → ℕ → Synchronizer
start_snapshot_info_request y peer_count now = record y {
  state = awaiting_snapshots_info peer_count now;
}

-- `entry(..).and_modify(..).or_insert(..)`: the height of a known manifest stays.
abbrev pub with_manifest_peer : ℕ → ℕ → Option (ℕ × List ℕ) → ℕ × List ℕ
with_manifest_peer peer height none = (height, peer ∷ [])
with_manifest_peer peer height (some (known, peers)) =
    (known, if contains peers peer then peers else peers ++ (peer ∷ []))

unfoldable pub add_manifests : ℕ → List (ℕ × ℕ) → Map (ℕ × List ℕ) → Map (ℕ × List ℕ)
add_manifests peer [] available = available
add_manifests peer ((height, id) ∷ manifests) available =
    add_manifests peer manifests
      (insert id (with_manifest_peer peer height (get id available)) available)

-- `max_by_key`, which takes the last of equals, over the manifests with enough peers.
unfoldable pub best_manifest : ℕ → Map (ℕ × List ℕ) → Option (ℕ × ℕ) → Option (ℕ × ℕ)
best_manifest least [] best = best
best_manifest least ((id, (height, peers)) ∷ m) best = best_manifest least m (elim best [
  | none ↦ if leb least (length peers) then some (id, height) else none
  | some (top_id, top) ↦
      if leb least (length peers) && leb top height then some (id, height) else some (top_id, top)
])

unfoldable pub check_manifest_availability : Synchronizer → Option (ℕ × ℕ)
check_manifest_availability y = best_manifest y.config.snapshot_peers_min y.available_manifests none

unfoldable pub process_snapshots_info :
    Synchronizer → ℕ → List (ℕ × ℕ) → Synchronizer × Option (ℕ × ℕ)
process_snapshots_info y peer [] = (y, none)
process_snapshots_info y peer (manifest ∷ manifests) =
    let y' = record y {
      available_manifests = add_manifests peer (manifest ∷ manifests) y.available_manifests;
    } in
    (y', check_manifest_availability y')

unfoldable pub start_manifest_request : Synchronizer → ℕ → ℕ → ℕ → ℕ → Synchronizer
start_manifest_request y manifest_id height peer now = record y {
  state = awaiting_manifest manifest_id height peer;
  manifest_request_time = some now;
}

abbrev pub awaited_peer : SyncState → Option ℕ
awaited_peer (awaiting_manifest i h p) = some p
awaited_peer idle = none
awaited_peer (awaiting_snapshots_info n t) = none
awaited_peer (downloading_chunks i h t d) = none
awaited_peer (applying_snapshot h) = none
awaited_peer (syncing_headers f t) = none
awaited_peer (syncing_blocks n) = none
awaited_peer synchronized = none

unfoldable pub check_manifest_timeout : Synchronizer → ℕ → ℕ → Option ℕ
check_manifest_timeout y timeout now = elim y.manifest_request_time [
  | none ↦ none
  | some start ↦ if ltb timeout (now - start) then awaited_peer y.state else none
]

unfoldable pub clear_manifest_request : Synchronizer → Synchronizer
clear_manifest_request y = record y { manifest_request_time = none }

unfoldable pub get_manifest_peer : (List ℕ → Option ℕ) → Synchronizer → ℕ → Option ℕ
get_manifest_peer choose y manifest_id = elim (get manifest_id y.available_manifests) [
  | none ↦ none
  | some (height, peers) ↦ choose peers
]

unfoldable pub start_chunk_download : Synchronizer → ℕ → ℕ → ℕ → Synchronizer
start_chunk_download y manifest_id height total_chunks = record y {
  state = downloading_chunks manifest_id height total_chunks 0;
  downloaded_chunks = [];
  chunk_requests = [];
}

-- Neither downloaded nor being downloaded.
unfoldable pub is_missing : Synchronizer → ℕ → Bool
is_missing y id = not (contains y.downloaded_chunks id) && not (contains_key y.chunk_requests id)

unfoldable pub get_chunks_to_request : Synchronizer → List ℕ → ℕ → List ℕ
get_chunks_to_request y expected_chunks count = take count (filter (is_missing y) expected_chunks)

unfoldable pub mark_chunk_downloading : Synchronizer → ℕ → ℕ → ℕ → Synchronizer
mark_chunk_downloading y chunk_id peer now = record y {
  chunk_requests = insert chunk_id (peer, now) y.chunk_requests;
}

-- The count in the state of a chunk download, and whether it is complete.
unfoldable pub counted : ℕ → SyncState → SyncState × Bool
counted n (downloading_chunks i h t d) = (downloading_chunks i h t n, leb t n)
counted n idle = (idle, false)
counted n (awaiting_snapshots_info m t) = (awaiting_snapshots_info m t, false)
counted n (awaiting_manifest i h p) = (awaiting_manifest i h p, false)
counted n (applying_snapshot h) = (applying_snapshot h, false)
counted n (syncing_headers f t) = (syncing_headers f t, false)
counted n (syncing_blocks m) = (syncing_blocks m, false)
counted n synchronized = (synchronized, false)

unfoldable pub mark_chunk_downloaded : Synchronizer → ℕ → Synchronizer × Bool
mark_chunk_downloaded y chunk_id =
    let downloaded = set_insert chunk_id y.downloaded_chunks in
    let r = counted (length downloaded) y.state in
    (
      record y {
        chunk_requests = erase chunk_id y.chunk_requests;
        downloaded_chunks = downloaded;
        state = r.0;
      },
      r.1,
    )

unfoldable pub mark_chunk_failed : Synchronizer → ℕ → Synchronizer
mark_chunk_failed y chunk_id = record y { chunk_requests = erase chunk_id y.chunk_requests }

unfoldable pub timed_out : ℕ → ℕ → Map (ℕ × ℕ) → List (ℕ × ℕ)
timed_out timeout now [] = []
timed_out timeout now ((id, (peer, start)) ∷ m) =
    let rest = timed_out timeout now m in
    if ltb timeout (now - start) then (id, peer) ∷ rest else rest

unfoldable pub get_timed_out_chunks : Synchronizer → ℕ → ℕ → List (ℕ × ℕ)
get_timed_out_chunks y timeout now = timed_out timeout now y.chunk_requests

unfoldable pub needs_more_chunk_downloads : Synchronizer → Bool
needs_more_chunk_downloads y = ltb (length y.chunk_requests) chunks_in_parallel_min

unfoldable pub get_random_chunk_peer : (List ℕ → Option ℕ) → Synchronizer → Option ℕ
get_random_chunk_peer choose y = choose y.snapshot_peers

unfoldable pub start_snapshot_application : Synchronizer → ℕ → Synchronizer
start_snapshot_application y height = record y { state = applying_snapshot height }

unfoldable pub complete_snapshot_application : Synchronizer → ℕ → Synchronizer
complete_snapshot_application y height =
    let applied = set_utxo_snapshot_applied y in
    check_sync_status (record applied {
      our_height = height;
      available_manifests = [];
      chunk_requests = [];
      downloaded_chunks = [];
    })
