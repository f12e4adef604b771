-- ===== src/Peers/Declining.antt =====
-- What the table of declined modifiers answers (decline.rs).
use ergo_rust_node.Prelude.{
  ℕ, ◌+◌, ◌-◌, ◌≤◌, ◌≡◌, refl, ap, ◌∙◌, true, List, none, some, ltb, leb, ◌==◌, if◌then◌else◌,
  length, arith, Bool-cases, Option-cases, inl, inr, All,
}
use ergo_rust_node.Assoc.{
  retain-All, Unique, get, insert, get-insert, get-retain, length-insert_new,
}
use ergo_rust_node.Peers.Decline.{
  DeclineEntry, DeclineTable, is_live, cleanup, decline, is_declined,
}

-- A cleanup changes no answer at its time or later.
cleanup_answers :
    (t : DeclineTable) (id now later : ℕ)
    → Unique t.entries
    → now ≤ later
    → is_declined (cleanup t now) id later ≡ is_declined t id later
unfolding is_declined cleanup
cleanup_answers t id now later u h = elim (Option-cases (get id t.entries)) [
  | inl e ↦ ground (arith, get-retain (is_live t.ttl now) id t.entries u)
  | inr (x, e) ↦ ground (arith, get-retain (is_live t.ttl now) id t.entries u)
]

-- The table into which `decline` inserts.
roomy : DeclineTable → ℕ → DeclineTable
roomy t now = if leb t.max_size (length t.entries) then cleanup t now else t

decline-roomy :
    (t : DeclineTable) (id : ℕ) (reason : List ℕ) (now : ℕ)
    → ((decline t id reason now).entries
        ≡ insert id (record { added_at = now; reason = reason }) (roomy t now).entries)
      × ((decline t id reason now).ttl ≡ (roomy t now).ttl)
unfolding decline roomy
decline-roomy t id reason now = (refl, refl)

roomy_answers :
    (t : DeclineTable) (id now later : ℕ)
    → Unique t.entries
    → now ≤ later
    → (is_declined (roomy t now) id later ≡ is_declined t id later) × ((roomy t now).ttl ≡ t.ttl)
unfolding roomy cleanup
roomy_answers t id now later u h = elim (Bool-cases (leb t.max_size (length t.entries))) [
  | inl e ↦ rw (e) (cleanup_answers t id now later u h, refl)
  | inr e ↦ rw (e) (refl, refl)
]

-- If no modifier is in the table twice: after a modifier is declined, it is declined with the new reason
-- until its time to live is over, and every other modifier is declined at later times as before,
-- whether or not the table was cleaned up.
pub is_declined-decline :
    (t : DeclineTable) (id j : ℕ) (reason : List ℕ) (now later : ℕ)
    → Unique t.entries
    → now ≤ later
    → is_declined (decline t id reason now) j later ≡ (
        if id == j
        then (if ltb (later - now) t.ttl then some reason else none)
        else is_declined t j later)
unfolding is_declined
is_declined-decline t id j reason now later u h =
    let entry : DeclineEntry = record { added_at = now; reason = reason } in
    let (entries, ttl) = decline-roomy t id reason now in
    let (answers, same) = roomy_answers t j now later u h in
    let found = ap (get j) entries ∙ get-insert id j entry (roomy t now).entries in
    ground (arith, found, ttl, same, answers)

-- A table whose entries are all alive grows by one when a modifier that it does not hold is declined,
-- whatever its maximum size.
pub decline_overfull :
    (t : DeclineTable) (id : ℕ) (reason : List ℕ) (now : ℕ)
    → get id t.entries ≡ none
    → All (λ e. is_live t.ttl now e.1 ≡ true) t.entries
    → length (decline t id reason now).entries ≡ length t.entries + 1
unfolding roomy cleanup
decline_overfull t id reason now n a =
    let entry : DeclineEntry = record { added_at = now; reason = reason } in
    let all = retain-All (is_live t.ttl now) t.entries a in
    let same : (roomy t now).entries ≡ t.entries = ground (arith, all) in
    ap length ((decline-roomy t id reason now).0 ∙ ap (insert id entry) same)
    ∙ length-insert_new id entry t.entries n
