-- ===== src/Download/Queueing.antt =====
-- What `queue` and `queue_force` add (download.rs).
use ergo_rust_node.Prelude.{
  ℕ, ◌≡◌, refl, inl, inr, Bool, true, false, not, ◌&&◌, ◌||◌, List, [], ◌∷◌, Option, none, some,
  arith, Bool-cases, ◌==◌, ==_iff, if◌then◌else◌, ◌∙◌,
}
use ergo_rust_node.Assoc.{get, contains_key, get-insert}
use ergo_rust_node.Download.{Lru, DownloadTask, BlockDownloader, queue_one, queue_inner}

-- The first of the tasks with the given id.
abbrev pub first_task : ℕ → List DownloadTask → Option DownloadTask
first_task k [] = none
first_task k (t ∷ ts) = if t.id == k then some t else first_task k ts

abbrev pub or_else {ℓ} : {A : Type ℓ} → Option A → Option A → Option A
or_else none b = b
or_else (some a) b = some a

module _ (L : Lru) where
  -- Whether a queued task with the id is passed over.
  abbrev pub passed_over : Bool → BlockDownloader L → ℕ → Bool
  passed_over force d k = contains_key d.in_flight k || L.has d.completed k && not force

  queue_one-pending :
      (force : Bool) (d : BlockDownloader L) (t : DownloadTask) (k : ℕ)
      → get k (queue_one L force d t).pending
        ≡ or_else (get k d.pending) (if passed_over force d k then none else first_task k (t ∷ []))
  unfolding queue_one contains_key
  queue_one-pending force d t k = elim (Bool-cases (t.id == k)) [
    | inl e ↦ ground (arith, (==_iff t.id k).0 e, get-insert t.id k t d.pending)
    | inr e ↦ ground (arith, get-insert t.id k t d.pending)
  ]

  queue_one-passed_over :
      (force : Bool) (d : BlockDownloader L) (t : DownloadTask) (k : ℕ)
      → passed_over force (queue_one L force d t) k ≡ passed_over force d k
  unfolding queue_one contains_key
  queue_one-passed_over true d t k = ground arith
  queue_one-passed_over false d t k = ground arith

  -- Queueing leaves every pending task as it is, and an id that is not pending becomes pending with
  -- the first of the tasks under it, exactly when it is not in flight and, unless forced, not among
  -- the completed ids.
  pub queue_inner-pending :
      (force : Bool) (ts : List DownloadTask) (d : BlockDownloader L) (k : ℕ)
      → get k (queue_inner L d ts force).pending
        ≡ or_else (get k d.pending) (if passed_over force d k then none else first_task k ts)
  unfolding queue_inner
  queue_inner-pending force [] d k = ground arith
  queue_inner-pending force (t ∷ ts) d k = ground (
    arith,
    queue_inner-pending force ts (queue_one L force d t) k,
    queue_one-pending force d t k,
    queue_one-passed_over force d t k,
  )

  queue_one-others :
      (force : Bool) (d : BlockDownloader L) (t : DownloadTask)
      → ((queue_one L force d t).in_flight ≡ d.in_flight)
        × ((queue_one L force d t).failed ≡ d.failed)
        × ((k : ℕ) → L.has (queue_one L force d t).completed k ≡ true → L.has d.completed k ≡ true)
  unfolding queue_one contains_key
  queue_one-others force d t =
      (ground arith, ground arith, λ k h. ground (arith, L.has-pop d.completed t.id k))

  -- Queueing changes neither the requests in flight nor the failed ids, and marks no id completed.
  pub queue_inner-others :
      (force : Bool) (ts : List DownloadTask) (d : BlockDownloader L)
      → ((queue_inner L d ts force).in_flight ≡ d.in_flight)
        × ((queue_inner L d ts force).failed ≡ d.failed)
        × ((k : ℕ)
            → L.has (queue_inner L d ts force).completed k ≡ true
            → L.has d.completed k ≡ true)
  unfolding queue_inner
  queue_inner-others force [] d = (refl, refl, λ k h. h)
  queue_inner-others force (t ∷ ts) d =
      let rest = queue_inner-others force ts (queue_one L force d t) in
      let one = queue_one-others force d t in
      (rest.0 ∙ one.0, rest.1 ∙ one.1, λ k h. one.2 k (rest.2 k h))
