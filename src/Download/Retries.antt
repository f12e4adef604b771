-- ===== src/Download/Retries.antt =====
-- A task is not retried for ever (download.rs).
use ergo_rust_node.Prelude.{
  ℕ, ◌+◌, ◌≤◌, ◌≡◌, refl, inl, inr, true, ◌||◌, List, [], ◌∷◌, none, some, arith, Bool-cases,
  ==_refl, if◌then◌else◌, ap, length, contains, leb, contains-set_insert,
}
use ergo_rust_node.Assoc.{get, get-insert, get-erase}
use ergo_rust_node.Download.{Lru, DownloadTask, BlockDownloader, dispatch, fail, failed_task}
use ergo_rust_node.Download.Invariant.{IsValid, dispatch-IsValid, fail-IsValid}

module _ (L : Lru) where
  -- The task is dispatched to each of the peers in turn, and fails with each.
  pub fail_rounds : ℕ → ℕ → BlockDownloader L → List ℕ → BlockDownloader L
  fail_rounds id now d [] = d
  fail_rounds id now d (p ∷ ps) = fail_rounds id now (fail L (dispatch L d id p now) id p) ps

  -- One failure of a pending task: its request is gone; if that was its last retry the task is
  -- removed and its id marked failed, and otherwise it waits again, unassigned, with one more retry
  -- counted (without overflow) and the peer noted, and the failed ids are as before.
  pub fail_lem :
      (d : BlockDownloader L) (id peer : ℕ) (t : DownloadTask)
      → IsValid L d
      → get id d.pending ≡ some t
      → let d' = fail L d id peer in
        let last = leb d.config.max_retries (t.retries + 1) in
        let t' = failed_task t peer in
        (get id d'.in_flight ≡ none)
        × (get id d'.pending ≡ (if last then none else some t'))
        × (contains d'.failed id ≡ (last || contains d.failed id))
        × (t'.retries ≡ t.retries + 1)
        × (t'.peer ≡ none)
        × (contains t'.failed_peers peer ≡ true)
  unfolding fail
  fail_lem d id peer t v e =
      let few = v.retrying id t e in
      (
        ground (arith, get-erase id id d.in_flight),
        ground (
          arith,
          get-erase id id d.pending,
          get-insert id id (failed_task t peer) d.pending,
          ==_refl id,
        ),
        ground (arith, contains-set_insert id id d.failed, ==_refl id),
        ground arith,
        refl,
        ground (arith, contains-set_insert peer peer t.failed_peers, ==_refl peer),
      )

  -- What a round does to the state of the id: it is given up, or has one more retry.
  abbrev IsGivenUp : ℕ → BlockDownloader L → Type 0
  IsGivenUp id d = (get id d.pending ≡ none) × (contains d.failed id ≡ true)

  round-IsGivenUp :
      (d : BlockDownloader L) (id p now : ℕ)
      → IsGivenUp id d
      → IsGivenUp id (fail L (dispatch L d id p now) id p)
  unfolding fail dispatch
  round-IsGivenUp d id p now g = ground arith

  rounds-IsGivenUp :
      (id now : ℕ) (ps : List ℕ) (d : BlockDownloader L)
      → IsGivenUp id d
      → IsGivenUp id (fail_rounds id now d ps)
  unfolding fail_rounds
  rounds-IsGivenUp id now [] d g = g
  rounds-IsGivenUp id now (p ∷ ps) d g = rounds-IsGivenUp id now ps _ (round-IsGivenUp d id p now g)

  dispatch-pending :
      (d : BlockDownloader L) (id p now : ℕ) (t : DownloadTask)
      → get id d.pending ≡ some t
      → get id (dispatch L d id p now).pending
        ≡ some (record t { peer = some p; requested_at = some now })
  unfolding dispatch
  dispatch-pending d id p now t e = ground (
    arith,
    get-insert id id (record t { peer = some p; requested_at = some now }) d.pending,
    ==_refl id,
  )

  dispatch-config :
      (d : BlockDownloader L) (id p now : ℕ) → (dispatch L d id p now).config ≡ d.config
  unfolding dispatch
  dispatch-config d id p now = ground arith

  fail-config : (d : BlockDownloader L) (id p : ℕ) → (fail L d id p).config ≡ d.config
  unfolding fail
  fail-config d id p = ground arith

  -- A pending task that is dispatched to at least as many peers in turn as it has retries left, and
  -- fails with each, is given up: it is no longer pending and its id is marked failed.
  pub fail_rounds_give_up :
      (id now : ℕ) (ps : List ℕ) (d : BlockDownloader L) (t : DownloadTask)
      → IsValid L d
      → get id d.pending ≡ some t
      → d.config.max_retries ≤ t.retries + length ps
      → (get id (fail_rounds id now d ps).pending ≡ none)
        × (contains (fail_rounds id now d ps).failed id ≡ true)
  unfolding fail_rounds
  fail_rounds_give_up id now [] d t v e enough = absurd (omega (arith, v.retrying id t e))
  fail_rounds_give_up id now (p ∷ ps) d t v e enough =
      let d₁ = dispatch L d id p now in
      let t₁ : DownloadTask = record t { peer = some p; requested_at = some now } in
      let v₁ = dispatch-IsValid L d id p now t e v in
      let r = fail_lem d₁ id p t₁ v₁ (dispatch-pending d id p now t e) in
      let same : d₁.config.max_retries ≡ d.config.max_retries =
        ap (λ c. c.max_retries) (dispatch-config d id p now) in
      elim (Bool-cases (leb d₁.config.max_retries (t.retries + 1))) [
        | inl last ↦ rounds-IsGivenUp id now ps (fail L d₁ id p) (ground arith)
        | inr more ↦
            fail_rounds_give_up id now ps (fail L d₁ id p) (failed_task t₁ p)
              (fail-IsValid L d₁ id p v₁) (ground arith)
              (omega (arith, r.3, same, ap (λ c. c.max_retries) (fail-config d₁ id p)))
      ]
