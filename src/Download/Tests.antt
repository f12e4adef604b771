-- ===== src/Download/Tests.antt =====
-- A bounded cache that meets the assumptions, and the theorems at a small manager (download.rs).
use ergo_rust_node.Prelude.{
  ℕ, zero, suc, ◌-◌, ◌≡◌, refl, ◌⊎◌, true, false, List, [], ◌∷◌, none, some, arith, ==_iff, ==_refl,
  length, take, contains, set_remove, contains-set_remove, set_insert,
}
use ergo_rust_node.Assoc.{get, insert, erase, contains_key}
use ergo_rust_node.Download.{
  Lru, DownloadTask, DownloadConfig, BlockDownloader, new, new_task, queue_one, queue_inner,
  dispatch, complete, fail, failed_task, peer_failed, get_ready_tasks_for_peer,
  get_in_flight_for_peer, get_stuck_tasks, check_timeouts, timed_out, is_timed_out, all_failed,
}
use ergo_rust_node.Download.Invariant
use ergo_rust_node.Download.Invariant.{Call, IsValid, Reach, after}
use ergo_rust_node.Download.Retries
use ergo_rust_node.Download.Retries.{fail_rounds}

contains-take : (n k : ℕ) (xs : List ℕ) → contains (take n xs) k ≡ true → contains xs k ≡ true
contains-take zero k xs h = absurd (ground arith)
contains-take (suc n) k [] h = h
contains-take (suc n) k (x ∷ xs) h = ground (arith, contains-take n k xs)

-- The ids, most recent first; the number is the capacity less one.
abbrev put_front : ℕ × List ℕ → ℕ → ℕ × List ℕ
put_front c k = (c.0, k ∷ take c.0 (set_remove k c.1))

put_front_self : (c : ℕ × List ℕ) (k : ℕ) → contains (put_front c k).1 k ≡ true
put_front_self c k = ground (arith, ==_refl k)

put_front_ne :
    (c : ℕ × List ℕ) (k j : ℕ)
    → contains (put_front c k).1 j ≡ true
    → (k ≡ j) ⊎ (contains c.1 j ≡ true)
put_front_ne c k j h =
    ground (arith, ==_iff k j, contains-take c.0 j (set_remove k c.1), contains-set_remove k j c.1)

abbrev bounded_lru : Lru
bounded_lru = record {
  Cache = ℕ × List ℕ;
  empty = λ n. (n - 1, []);
  has = λ c k. contains c.1 k;
  put = put_front;
  pop = λ c k. (c.0, set_remove k c.1);
  len = λ c. length c.1;
  has-empty = λ n k. refl;
  has-put_self = put_front_self;
  has-put_ne = put_front_ne;
  has-pop = λ c k j. contains-set_remove k j c.1;
}

abbrev config : DownloadConfig
config = record { max_parallel = 2; timeout = 10_000; max_retries = 2 }

abbrev start : BlockDownloader bounded_lru
start = record {
  config = config;
  pending = [];
  in_flight = [];
  completed = (49_999, []);
  failed = [];
}

abbrev task : ℕ → DownloadTask
task id = new_task id 101

-- Two pending tasks, one in flight from peer 9.
abbrev busy_task : DownloadTask
busy_task = record {
  id = 1;
  type_id = 101;
  peer = some 9;
  requested_at = some 50;
  retries = 1;
  failed_peers = [];
}

abbrev busy : BlockDownloader bounded_lru
busy = record start { pending = (1, busy_task) ∷ (2, task 2) ∷ []; in_flight = (1, 9) ∷ [] }

program : Unit {0}
unfolding new queue_one queue_inner dispatch complete fail get insert erase contains_key set_insert
    set_remove peer_failed get_ready_tasks_for_peer get_in_flight_for_peer get_stuck_tasks
    check_timeouts timed_out is_timed_out all_failed
program = tt

start-IsValid : IsValid bounded_lru start
unfolding program
start-IsValid = Invariant.new-IsValid bounded_lru config (omega arith) (omega arith)

busy-IsValid : IsValid bounded_lru busy
unfolding program
busy-IsValid = record {
  retries_allowed = omega arith;
  pending_unique = (refl, (refl, tt));
  in_flight_unique = (refl, tt);
  keyed = λ k t e. ground arith;
  retrying = λ k t e. ground arith;
  tracked = λ k. ground arith;
}

-- The task of peer 9 fails, is queued again and completes elsewhere.
abbrev history : BlockDownloader bounded_lru → BlockDownloader bounded_lru
history d =
    let queued = after bounded_lru d (Call.queues false (task 3 ∷ [])) in
    after bounded_lru (after bounded_lru queued (Call.fails 1 9)) (Call.completes 2)

Reach-IsValid_example : IsValid bounded_lru (history busy)
Reach-IsValid_example = Invariant.Reach-IsValid bounded_lru busy-IsValid (
    Reach.next (Call.completes 2)
      (Reach.next (Call.fails 1 9)
        (Reach.next (Call.queues false (task 3 ∷ [])) Reach.here ((refl, refl), tt)) tt)
      tt)

fail_lem_example :
    let d' = fail bounded_lru busy 1 9 in
    (get 1 d'.in_flight ≡ none)
    × (get 1 d'.pending ≡ none)
    × (contains d'.failed 1 ≡ true)
    × ((failed_task busy_task 9).retries ≡ 2)
    × ((failed_task busy_task 9).peer ≡ none)
    × (contains (failed_task busy_task 9).failed_peers 9 ≡ true)
unfolding program
fail_lem_example = Retries.fail_lem bounded_lru busy 1 9 busy_task busy-IsValid refl

fail_rounds_give_up_example :
    (get 2 (fail_rounds bounded_lru 2 70 busy (7 ∷ 8 ∷ [])).pending ≡ none)
    × (contains (fail_rounds bounded_lru 2 70 busy (7 ∷ 8 ∷ [])).failed 2 ≡ true)
unfolding program
fail_rounds_give_up_example =
    Retries.fail_rounds_give_up bounded_lru 2 70 (7 ∷ 8 ∷ []) busy (task 2) busy-IsValid refl
      (omega arith)

-- The reports of the manager on the small state.
reports :
    (check_timeouts bounded_lru busy 10_051 ≡ (1, 9) ∷ [])
    × (get_stuck_tasks bounded_lru busy (7 ∷ []) ≡ [])
    × (get_in_flight_for_peer bounded_lru busy 9 ≡ 1 ∷ [])
unfolding program
reports = (refl, refl, refl)
