-- ===== src/Download.antt =====
-- The block download manager, crates/ergo-sync/src/download.rs. `Instant::now()` is an argument,
-- in milliseconds; block and peer ids are numbers. The LRU cache of the crate `lru` is a parameter.
pub mod Invariant
mod Tests
pub mod Retries
pub mod Capacity
pub mod Queueing
use ergo_rust_node.Prelude.{
  ℕ, ◌+◌, ◌-◌, ◌<◌, min, ◌≡◌, ◌⊎◌, Bool, true, false, not, ◌&&◌, List, [], ◌∷◌, map, foldl, Option,
  none, some, ltb, leb, ◌==◌, if◌then◌else◌, length, take, filter, contains, set_insert, u32_mod,
  ◌%◌, is_some,
}
use ergo_rust_node.Assoc.{Map, get, insert, erase, contains_key, values}

-- What the manager uses of `LruCache<Vec<u8>, ()>`, with the documented behaviour that it relies
-- on: a put makes the id present and brings in no other, a pop removes the id alone.
pub record Lru : Type 1 where
  pub Cache : Type 0
  pub empty : ℕ → Cache
  pub has : Cache → ℕ → Bool
  pub put : Cache → ℕ → Cache
  pub pop : Cache → ℕ → Cache
  pub len : Cache → ℕ
  pub has-empty : (n k : ℕ) → has (empty n) k ≡ false
  pub has-put_self : (c : Cache) (k : ℕ) → has (put c k) k ≡ true
  pub has-put_ne : (c : Cache) (k j : ℕ) → has (put c k) j ≡ true → (k ≡ j) ⊎ (has c j ≡ true)
  pub has-pop : (c : Cache) (k j : ℕ) → has (pop c k) j ≡ (if k == j then false else has c j)

abbrev pub completed_cache_size : ℕ
completed_cache_size = 50_000

pub record DownloadTask : Type 0 where
  pub id : ℕ
  pub type_id : ℕ
  pub peer : Option ℕ
  pub requested_at : Option ℕ
  pub retries : ℕ
  pub failed_peers : List ℕ

abbrev pub new_task : ℕ → ℕ → DownloadTask
new_task id type_id = record {
  id = id;
  type_id = type_id;
  peer = none;
  requested_at = none;
  retries = 0;
  failed_peers = [];
}

pub peer_failed : DownloadTask → ℕ → Bool
peer_failed t peer = contains t.failed_peers peer

is_timed_out : DownloadTask → ℕ → ℕ → Bool
is_timed_out t timeout now = elim t.requested_at [ none ↦ false | some at ↦ ltb timeout (now - at) ]

pub record DownloadConfig : Type 0 where
  pub max_parallel : ℕ
  pub timeout : ℕ
  pub max_retries : ℕ

pub record DownloadStats : Type 0 where
  pub pending : ℕ
  pub in_flight : ℕ
  pub completed : ℕ
  pub failed : ℕ

-- What `fail` makes of the task.
abbrev pub failed_task : DownloadTask → ℕ → DownloadTask
failed_task task peer = record task {
  retries = (task.retries + 1) % u32_mod;
  peer = none;
  requested_at = none;
  failed_peers = set_insert peer task.failed_peers;
}

timed_out : ℕ → ℕ → Map DownloadTask → List (ℕ × ℕ)
timed_out timeout now [] = []
timed_out timeout now ((id, task) ∷ m) =
    let rest = timed_out timeout now m in
    if is_timed_out task timeout now
    then elim task.peer [ none ↦ rest | some peer ↦ (id, peer) ∷ rest ]
    else rest

all_failed : DownloadTask → List ℕ → Bool
all_failed t [] = true
all_failed t (p ∷ ps) = peer_failed t p && all_failed t ps

module _ (L : Lru) where
  pub record BlockDownloader : Type 0 where
    pub config : DownloadConfig
    pub pending : Map DownloadTask
    pub in_flight : Map ℕ
    pub completed : L.Cache
    pub failed : List ℕ

  pub new : DownloadConfig → BlockDownloader
  new config = record {
    config = config;
    pending = [];
    in_flight = [];
    completed = L.empty completed_cache_size;
    failed = [];
  }

  -- One round of the loop of `queue_inner`.
  pub queue_one : Bool → BlockDownloader → DownloadTask → BlockDownloader
  queue_one force d task =
      if contains_key d.in_flight task.id
      then d
      else if contains_key d.pending task.id
      then d
      else if L.has d.completed task.id
      then if force
        then record d {
          completed = L.pop d.completed task.id;
          pending = insert task.id task d.pending;
        }
        else d
      else record d { pending = insert task.id task d.pending }

  pub queue_inner : BlockDownloader → List DownloadTask → Bool → BlockDownloader
  queue_inner d tasks force = foldl (queue_one force) d tasks

  pub queue : BlockDownloader → List DownloadTask → BlockDownloader
  queue d tasks = queue_inner d tasks false

  pub queue_force : BlockDownloader → List DownloadTask → BlockDownloader
  queue_force d tasks = queue_inner d tasks true

  -- `max_parallel.saturating_sub(in_flight.len())`, cut to the count asked for
  abbrev pub room : BlockDownloader → ℕ → ℕ
  room d count = min count (d.config.max_parallel - length d.in_flight)

  pub get_ready_tasks : BlockDownloader → ℕ → List DownloadTask
  get_ready_tasks d count =
      take (room d count) (filter (λ t. not (is_some t.peer)) (values d.pending))

  pub get_ready_tasks_for_peer : BlockDownloader → ℕ → ℕ → List DownloadTask
  unfolding peer_failed
  get_ready_tasks_for_peer d count peer =
      take (room d count)
        (filter (λ t. not (is_some t.peer) && not (peer_failed t peer)) (values d.pending))

  pub get_stuck_tasks : BlockDownloader → List ℕ → List ℕ
  get_stuck_tasks d [] = []
  get_stuck_tasks d (p ∷ ps) =
      map (λ t. t.id)
        (filter (λ t. not (is_some t.peer) && all_failed t (p ∷ ps)) (values d.pending))

  pub clear_failed_peers : BlockDownloader → ℕ → BlockDownloader
  clear_failed_peers d id = elim (get id d.pending) [
    | none ↦ d
    | some task ↦ record d { pending = insert id (record task { failed_peers = [] }) d.pending }
  ]

  pub dispatch : BlockDownloader → ℕ → ℕ → ℕ → BlockDownloader
  dispatch d id peer now =
      let d' : BlockDownloader = elim (get id d.pending) [
        | none ↦ d
        | some task ↦ record d {
          pending = insert id (record task { peer = some peer; requested_at = some now }) d.pending;
        }
      ] in
      record d' { in_flight = insert id peer d'.in_flight }

  pub complete : BlockDownloader → ℕ → BlockDownloader
  complete d id = record d {
    pending = erase id d.pending;
    in_flight = erase id d.in_flight;
    completed = L.put d.completed id;
  }

  pub fail : BlockDownloader → ℕ → ℕ → BlockDownloader
  fail d id peer =
      let in_flight = erase id d.in_flight in
      elim (get id d.pending) [
        | none ↦ record d { in_flight = in_flight }
        | some task ↦
            let task' = failed_task task peer in
            if leb d.config.max_retries task'.retries
            then record d {
              in_flight = in_flight;
              pending = erase id d.pending;
              failed = set_insert id d.failed;
            }
            else record d { in_flight = in_flight; pending = insert id task' d.pending }
      ]

  pub check_timeouts : BlockDownloader → ℕ → List (ℕ × ℕ)
  check_timeouts d now = timed_out d.config.timeout now d.pending

  pub get_in_flight_for_peer : BlockDownloader → ℕ → List ℕ
  get_in_flight_for_peer d peer = map (λ e. e.0) (filter (λ e. e.1 == peer) d.in_flight)

  pub stats : BlockDownloader → DownloadStats
  stats d = record {
    pending = length d.pending;
    in_flight = length d.in_flight;
    completed = L.len d.completed;
    failed = length d.failed;
  }

  pub is_complete : BlockDownloader → Bool
  is_complete d = length d.pending == 0 && length d.in_flight == 0

  pub uncomplete : BlockDownloader → ℕ → BlockDownloader
  uncomplete d id = record d { completed = L.pop d.completed id }
