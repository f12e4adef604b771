-- ===== src/Download/Invariant.antt =====
-- The invariant of the download manager, kept by every call (download.rs).
use ergo_rust_node.Prelude.{
  ℕ, ◌<◌, ◌≡◌, refl, ◌∙◌, ap, inl, inr, Bool, List, [], ◌∷◌, Option, none, some, arith, All,
  u32_mod, Option-cases, Bool-cases, ◌==◌, ==_iff, if◌then◌else◌, leb,
}
use ergo_rust_node.Assoc.{
  Map, get, insert, erase, contains_key, Unique, get-insert, get-erase, erase_absent, insert-Unique,
  erase-Unique,
}
use ergo_rust_node.Download.{
  Lru, DownloadTask, DownloadConfig, BlockDownloader, new, queue_one, queue_inner,
  clear_failed_peers, dispatch, complete, fail, failed_task, uncomplete,
}

-- A task as `DownloadTask::new` makes it: unassigned and never tried.
abbrev pub IsFresh : DownloadTask → Type 0
IsFresh t = (t.peer ≡ none) × (t.retries ≡ 0)

abbrev pub assigned_peer : Option DownloadTask → Option ℕ
assigned_peer none = none
assigned_peer (some t) = t.peer

module _ (L : Lru) where
  -- No id stands twice, tasks stand under their own id with retries left, and the requests in
  -- flight are exactly the assigned pending tasks, each with its peer.
  pub record IsValid (d : BlockDownloader L) : Type 0 where
    pub retries_allowed : (0 < d.config.max_retries) × (d.config.max_retries < u32_mod)
    pub pending_unique : Unique d.pending
    pub in_flight_unique : Unique d.in_flight
    pub keyed : (k : ℕ) (t : DownloadTask) → get k d.pending ≡ some t → t.id ≡ k
    pub retrying :
        (k : ℕ) (t : DownloadTask) → get k d.pending ≡ some t → t.retries < d.config.max_retries
    pub tracked : (k : ℕ) → get k d.in_flight ≡ assigned_peer (get k d.pending)

  pub new-IsValid :
      (c : DownloadConfig) → 0 < c.max_retries → c.max_retries < u32_mod → IsValid (new L c)
  unfolding new get
  new-IsValid c h k = record {
    retries_allowed = (h, k);
    pending_unique = tt;
    in_flight_unique = tt;
    keyed = λ k t e. cc;
    retrying = λ k t e. cc;
    tracked = λ k. refl;
  }

  -- A task written under its id, beside requests in flight that agree with it.
  store-IsValid :
      (d : BlockDownloader L) (t : DownloadTask) (flights : Map ℕ)
      → IsValid d
      → t.retries < d.config.max_retries
      → Unique flights
      → ((k : ℕ) → get k flights ≡ (if t.id == k then t.peer else get k d.in_flight))
      → IsValid (record d { pending = insert t.id t d.pending; in_flight = flights })
  store-IsValid d t flights v r u agree = record {
    retries_allowed = v.retries_allowed;
    pending_unique = insert-Unique t.id t d.pending v.pending_unique;
    in_flight_unique = u;
    keyed = λ k s e. ground (arith, get-insert t.id k t d.pending, v.keyed k s);
    retrying = λ k s e. ground (arith, get-insert t.id k t d.pending, v.retrying k s);
    tracked = λ k. ground (arith, get-insert t.id k t d.pending, agree k, v.tracked k);
  }

  -- A task taken out, with its request.
  drop-IsValid :
      (d : BlockDownloader L) (id : ℕ)
      → IsValid d
      → IsValid (record d { pending = erase id d.pending; in_flight = erase id d.in_flight })
  drop-IsValid d id v = record {
    retries_allowed = v.retries_allowed;
    pending_unique = erase-Unique id d.pending v.pending_unique;
    in_flight_unique = erase-Unique id d.in_flight v.in_flight_unique;
    keyed = λ k t e. ground (arith, get-erase id k d.pending, v.keyed k t);
    retrying = λ k t e. ground (arith, get-erase id k d.pending, v.retrying k t);
    tracked =
        λ k. ground (arith, get-erase id k d.pending, get-erase id k d.in_flight, v.tracked k);
  }

  -- The completed and failed ids are free.
  keep-IsValid :
      (d : BlockDownloader L) (c : L.Cache) (f : List ℕ)
      → IsValid d
      → IsValid (record d { completed = c; failed = f })
  keep-IsValid d c f v = record {
    retries_allowed = v.retries_allowed;
    pending_unique = v.pending_unique;
    in_flight_unique = v.in_flight_unique;
    keyed = v.keyed;
    retrying = v.retrying;
    tracked = v.tracked;
  }

  complete-IsValid : (d : BlockDownloader L) (id : ℕ) → IsValid d → IsValid (complete L d id)
  unfolding complete
  complete-IsValid d id v = keep-IsValid _ (L.put d.completed id) d.failed (drop-IsValid d id v)

  queue_new :
      (d : BlockDownloader L) (t : DownloadTask) (c : L.Cache)
      → IsFresh t
      → get t.id d.in_flight ≡ none
      → IsValid d
      → IsValid (record d { completed = c; pending = insert t.id t d.pending })
  queue_new d t c f e v = keep-IsValid _ c d.failed (
      store-IsValid d t d.in_flight v (ground arith) v.in_flight_unique
        (λ k. ground (arith, ==_iff t.id k)))

  queue_one-IsValid :
      (force : Bool) (d : BlockDownloader L) (t : DownloadTask)
      → IsFresh t
      → IsValid d
      → IsValid (queue_one L force d t)
  unfolding queue_one contains_key
  queue_one-IsValid force d t f v =
      ground (arith, queue_new d t (L.pop d.completed t.id), queue_new d t d.completed)

  queue_inner-IsValid :
      (force : Bool) (ts : List DownloadTask) (d : BlockDownloader L)
      → All IsFresh ts
      → IsValid d
      → IsValid (queue_inner L d ts force)
  unfolding queue_inner
  queue_inner-IsValid force [] d f v = v
  queue_inner-IsValid force (t ∷ ts) d f v =
      queue_inner-IsValid force ts (queue_one L force d t) f.1 (queue_one-IsValid force d t f.0 v)

  clear_failed_peers-IsValid :
      (d : BlockDownloader L) (id : ℕ) → IsValid d → IsValid (clear_failed_peers L d id)
  unfolding clear_failed_peers
  clear_failed_peers-IsValid d id v = elim (Option-cases (get id d.pending)) [
    | inl e ↦ rw (e, clear_failed_peers) v
    | inr (t, e) ↦
        let t' : DownloadTask = record t { failed_peers = [] } in
        let named : t.id ≡ id = v.keyed id t e in
        rw (e, clear_failed_peers, ← named)
          (store-IsValid d t' d.in_flight v (v.retrying id t e) v.in_flight_unique
            (λ k. ground (arith, v.tracked k, ==_iff t.id k)))
  ]

  pub dispatch-IsValid :
      (d : BlockDownloader L) (id peer now : ℕ) (t : DownloadTask)
      → get id d.pending ≡ some t
      → IsValid d
      → IsValid (dispatch L d id peer now)
  unfolding dispatch
  dispatch-IsValid d id peer now t e v =
      let t' : DownloadTask = record t { peer = some peer; requested_at = some now } in
      let named : t.id ≡ id = v.keyed id t e in
      rw (e, dispatch, ← named)
        (store-IsValid d t' (insert t.id peer d.in_flight) v (v.retrying id t e)
          (insert-Unique t.id peer d.in_flight v.in_flight_unique)
          (λ k. get-insert t.id k peer d.in_flight))

  pub fail-IsValid : (d : BlockDownloader L) (id peer : ℕ) → IsValid d → IsValid (fail L d id peer)
  unfolding fail
  fail-IsValid d id peer v = elim (Option-cases (get id d.pending)) [
    | inl e ↦ rw (e, fail, erase_absent id d.in_flight (v.tracked id ∙ ap assigned_peer e)) v
    | inr (t, e) ↦ elim (Bool-cases (leb d.config.max_retries (failed_task t peer).retries)) [
      | inl over ↦ rw (e, over, fail) (keep-IsValid _ d.completed _ (drop-IsValid d id v))
      | inr more ↦
          let t' : DownloadTask = failed_task t peer in
          let named : t.id ≡ id = v.keyed id t e in
          rw (e, more, fail, ← named)
            (store-IsValid d t' (erase t.id d.in_flight) v (ground arith)
              (erase-Unique t.id d.in_flight v.in_flight_unique)
              (λ k. get-erase t.id k d.in_flight))
    ]
  ]

-- A call of the manager, with the time at which it is made.
pub data Call : Type 0 where
  queues : Bool → List DownloadTask → Call
  clears : ℕ → Call
  dispatches : ℕ → ℕ → ℕ → Call
  completes : ℕ → Call
  fails : ℕ → ℕ → Call
  uncompletes : ℕ → Call

module _ (L : Lru) where
  -- The state after a call.
  pub after : BlockDownloader L → Call → BlockDownloader L
  after d (queues force ts) = queue_inner L d ts force
  after d (clears id) = clear_failed_peers L d id
  after d (dispatches id peer now) = dispatch L d id peer now
  after d (completes id) = complete L d id
  after d (fails id peer) = fail L d id peer
  after d (uncompletes id) = uncomplete L d id

  -- Tasks are queued as they are made, and an id is dispatched while it is pending.
  abbrev pub IsAllowed : BlockDownloader L → Call → Type 0
  IsAllowed d (queues force ts) = All IsFresh ts
  IsAllowed d (dispatches id peer now) = (t : DownloadTask) × (get id d.pending ≡ some t)
  IsAllowed d _ = Unit

  -- The states that allowed calls lead to.
  pub data Reach (d : BlockDownloader L) : BlockDownloader L → Type 0 where
    here : Reach d d
    next : {e : BlockDownloader L} (c : Call) → Reach d e → IsAllowed e c → Reach d (after e c)

  after-IsValid :
      (d : BlockDownloader L) (c : Call) → IsAllowed d c → IsValid L d → IsValid L (after d c)
  unfolding after uncomplete
  after-IsValid d (queues force ts) a v = queue_inner-IsValid L force ts d a v
  after-IsValid d (clears id) a v = clear_failed_peers-IsValid L d id v
  after-IsValid d (dispatches id peer now) a v = dispatch-IsValid L d id peer now a.0 a.1 v
  after-IsValid d (completes id) a v = complete-IsValid L d id v
  after-IsValid d (fails id peer) a v = fail-IsValid L d id peer v
  after-IsValid d (uncompletes id) a v = keep-IsValid L d (L.pop d.completed id) d.failed v

  -- From a valid manager every sequence of allowed calls leads to a valid one: ids are distinct,
  -- each pending task stands under its id with retries left, and the requests in flight are exactly
  -- the assigned pending tasks, each with its peer.
  pub Reach-IsValid : {d e : BlockDownloader L} → IsValid L d → Reach d e → IsValid L e
  Reach-IsValid v here = v
  Reach-IsValid v (next {e} c r a) = after-IsValid e c a (Reach-IsValid v r)
