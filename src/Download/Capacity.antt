-- ===== src/Download/Capacity.antt =====
-- The bound on parallel downloads, and the requests of one peer (download.rs).
use ergo_rust_node.Prelude.{
  ℕ, zero, suc, ◌+◌, ◌≤◌, ◌≡◌, refl, Bool, true, false, not, ◌&&◌, List, [], ◌∷◌, map, Option, none,
  some, arith, is_some, ◌==◌, if◌then◌else◌, ap, ◌∙◌, length, take, filter, length-take, contains,
  All,
}
use ergo_rust_node.Assoc.{Map, get, insert, erase, values, length-insert-le, get-erase, Unique}
use ergo_rust_node.Download.{
  Lru, DownloadTask, BlockDownloader, dispatch, fail, room, get_ready_tasks_for_peer,
  get_in_flight_for_peer, peer_failed,
}

All-filter {ℓ} : {A : Type ℓ} (p : A → Bool) (xs : List A) → All (λ x. p x ≡ true) (filter p xs)
All-filter p [] = tt
All-filter p (x ∷ xs) = ground (arith, All-filter p xs)

All-take {ℓ κ} : {A : Type ℓ} (P : A → Type κ) (n : ℕ) (xs : List A) → All P xs → All P (take n xs)
All-take P zero xs h = tt
All-take P (suc n) [] h = tt
All-take P (suc n) (x ∷ xs) h = (h.0, All-take P n xs h.1)

All-map {ℓ κ} :
    {A : Type ℓ} {P Q : A → Type κ} (f : (x : A) → P x → Q x) (xs : List A) → All P xs → All Q xs
All-map f [] h = tt
All-map f (x ∷ xs) h = (f x h.0, All-map f xs h.1)

-- The request, unless it is the peer's.
abbrev pub unless_peer : ℕ → Option ℕ → Option ℕ
unless_peer peer none = none
unless_peer peer (some p) = if p == peer then none else some p

contains-requests_absent :
    (peer k : ℕ) (m : Map ℕ)
    → get k m ≡ none
    → contains (map (λ e. e.0) (filter (λ e. e.1 == peer) m)) k ≡ false
unfolding get
contains-requests_absent peer k [] h = refl
contains-requests_absent peer k ((j, p) ∷ m) h = ground (arith, contains-requests_absent peer k m)

contains-requests :
    (peer k : ℕ) (m : Map ℕ)
    → Unique m
    → (if contains (map (λ e. e.0) (filter (λ e. e.1 == peer) m)) k then none else get k m)
      ≡ unless_peer peer (get k m)
unfolding get
contains-requests peer k [] u = refl
contains-requests peer k ((j, p) ∷ m) u =
    ground (arith, contains-requests peer k m u.1, contains-requests_absent peer k m)

module _ (L : Lru) where
  -- Dispatch of each of the tasks to one peer.
  pub dispatch_all : ℕ → ℕ → BlockDownloader L → List DownloadTask → BlockDownloader L
  dispatch_all peer now d [] = d
  dispatch_all peer now d (t ∷ ts) = dispatch_all peer now (dispatch L d t.id peer now) ts

  dispatch-in_flight :
      (d : BlockDownloader L) (id peer now : ℕ)
      → (dispatch L d id peer now).in_flight ≡ insert id peer d.in_flight
  unfolding dispatch
  dispatch-in_flight d id peer now = ground arith

  dispatch_all-length :
      (peer now : ℕ) (ts : List DownloadTask) (d : BlockDownloader L)
      → length (dispatch_all peer now d ts).in_flight ≤ length d.in_flight + length ts
  unfolding dispatch_all
  dispatch_all-length peer now [] d = omega arith
  dispatch_all-length peer now (t ∷ ts) d = omega (
    arith,
    dispatch_all-length peer now ts (dispatch L d t.id peer now),
    ap length (dispatch-in_flight d t.id peer now),
    length-insert-le t.id peer d.in_flight,
  )

  -- A manager within its limit stays within it when all the tasks that `get_ready_tasks_for_peer`
  -- returns are dispatched to the peer; those are at most as many as asked for, and each is
  -- unassigned and has not failed with the peer.
  pub dispatch_all-get_ready_tasks_for_peer :
      (d : BlockDownloader L) (count peer now : ℕ)
      → length d.in_flight ≤ d.config.max_parallel
      → let ready = get_ready_tasks_for_peer L d count peer in
        (length (dispatch_all peer now d ready).in_flight ≤ d.config.max_parallel)
        × (length ready ≤ count)
        × All (λ t. (t.peer ≡ none) × (peer_failed t peer ≡ false)) ready
  unfolding get_ready_tasks_for_peer
  dispatch_all-get_ready_tasks_for_peer d count peer now h =
      let fits = λ (t : DownloadTask). not (is_some t.peer) && not (peer_failed t peer) in
      let free = filter fits (values d.pending) in
      let few = length-take (room L d count) free in
      (
        omega (arith, few, dispatch_all-length peer now (take (room L d count) free) d),
        omega (arith, few),
        All-take _ (room L d count) free (
            All-map (λ t e. (ground arith, ground arith)) free
              (All-filter fits (values d.pending))),
      )

  fail-in_flight :
      (d : BlockDownloader L) (id peer : ℕ) → (fail L d id peer).in_flight ≡ erase id d.in_flight
  unfolding fail
  fail-in_flight d id peer = ground arith

  -- The reaction to a lost peer: each of the ids fails.
  pub fail_all : ℕ → BlockDownloader L → List ℕ → BlockDownloader L
  fail_all peer d [] = d
  fail_all peer d (id ∷ ids) = fail_all peer (fail L d id peer) ids

  fail_all-in_flight :
      (peer : ℕ) (ids : List ℕ) (d : BlockDownloader L) (k : ℕ)
      → get k (fail_all peer d ids).in_flight ≡ (if contains ids k then none else get k d.in_flight)
  unfolding fail_all
  fail_all-in_flight peer [] d k = refl
  fail_all-in_flight peer (id ∷ ids) d k = ground (
    arith,
    fail_all-in_flight peer ids (fail L d id peer) k,
    ap (get k) (fail-in_flight d id peer),
    get-erase id k d.in_flight,
  )

  -- When a peer disconnects and the ids that `get_in_flight_for_peer` returns fail, the requests to
  -- that peer are gone and all others are in flight as before.
  pub fail_all-get_in_flight_for_peer :
      (d : BlockDownloader L) (peer k : ℕ)
      → Unique d.in_flight
      → get k (fail_all peer d (get_in_flight_for_peer L d peer)).in_flight
        ≡ unless_peer peer (get k d.in_flight)
  unfolding get_in_flight_for_peer
  fail_all-get_in_flight_for_peer d peer k u =
      fail_all-in_flight peer (get_in_flight_for_peer L d peer) d k
      ∙ contains-requests peer k d.in_flight u
