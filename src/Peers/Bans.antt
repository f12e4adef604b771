-- ===== src/Peers/Bans.antt =====
-- How penalties add up and decay (scoring.rs, penalties.rs).
use ergo_rust_node.Prelude.{
  ℕ, ◌+◌, ◌-◌, ◌*◌, ◌/◌, ◌≤◌, ◌<◌, ◌≡◌, refl, ap, ◌∙◌, min, max, true, List, [], ◌∷◌, leb, u32_mod,
  u64_mod, saturating_add_u32, saturating_mul_u32, add_u64, mul_u64, arith,
}
use ergo_rust_node.Peers.Penalties.{
  PenaltyReason, penalty_of, is_critical, ban_threshold, max_penalty,
}
use ergo_rust_node.Peers.Scoring.{
  PeerScore, current_penalty, should_ban, apply_penalty_amount, apply_penalty, apply_reward,
  record_response_time,
}

-- A decay of 10 points for each full minute since the last penalty, down to nothing, while the
-- minutes fit into a `u32`.
current_penalty_lem :
    (s : PeerScore) (now : ℕ)
    → s.penalty < u32_mod
    → (now - s.last_penalty_time) / 60_000 < u32_mod
    → current_penalty s now ≡ s.penalty - 10 * ((now - s.last_penalty_time) / 60_000)
unfolding current_penalty saturating_mul_u32
current_penalty_lem s now h k = ground arith

-- At the instant of the last penalty nothing has decayed yet.
current_penalty_now :
    (s : PeerScore) (now : ℕ) → s.last_penalty_time ≡ now → current_penalty s now ≡ s.penalty
unfolding current_penalty saturating_mul_u32
current_penalty_now s now e =
    let minutes : (now - s.last_penalty_time) / 1000 / 60 ≡ 0 = omega (arith, e) in
    rw (minutes) (ground arith)

saturated : (a b : ℕ) → min (saturating_add_u32 a b) max_penalty ≡ min (a + b) max_penalty
unfolding saturating_add_u32
saturated a b = ground arith

-- The penalty after one more is the decayed one and the new one, at most 1000, and the peer is to be
-- banned exactly if that makes 500 or more.
pub apply_penalty_amount_lem :
    (s : PeerScore) (amount now : ℕ)
    → ((apply_penalty_amount s amount now).0.penalty
        ≡ min (current_penalty s now + amount) max_penalty)
      × ((apply_penalty_amount s amount now).1 ≡ leb ban_threshold (current_penalty s now + amount))
unfolding apply_penalty_amount should_ban
apply_penalty_amount_lem s amount now =
    let total = saturated (current_penalty s now) amount in
    let s' : PeerScore = record s {
      penalty = min (saturating_add_u32 (current_penalty s now) amount) max_penalty;
      last_penalty_time = now;
    } in
    let same = current_penalty_now s' now refl in (total, ground (arith, same, total))

critical_points : (r : PenaltyReason) → is_critical r ≡ true → ban_threshold ≤ penalty_of r
unfolding is_critical penalty_of
critical_points r h = ground arith

-- A critical misbehaviour bans at once, whatever the score.
pub critical_bans :
    (s : PeerScore) (reason : PenaltyReason) (now : ℕ)
    → is_critical reason ≡ true
    → (apply_penalty s reason now).1 ≡ true
unfolding apply_penalty
critical_bans s reason now h =
    let much = critical_points reason h in
    (apply_penalty_amount_lem s (penalty_of reason) now).1 ∙ ground (arith, much)

apply_penalty_amount-time :
    (s : PeerScore) (amount now : ℕ) → (apply_penalty_amount s amount now).0.last_penalty_time ≡ now
unfolding apply_penalty_amount
apply_penalty_amount-time s amount now = refl

bounded : (a : ℕ) → min a max_penalty < u32_mod
bounded a = ground arith

-- After a penalty, a peer is to be banned at a time exactly if the points after it, the decayed ones
-- and the new ones but at most 1000, less 10 for each full minute since, are 500 or more, while the
-- minutes fit into a `u32`.
pub should_ban-later :
    (s : PeerScore) (amount now later : ℕ)
    → (later - now) / 60_000 < u32_mod
    → should_ban (apply_penalty_amount s amount now).0 later
      ≡ leb ban_threshold
          (min (current_penalty s now + amount) max_penalty - 10 * ((later - now) / 60_000))
unfolding should_ban
should_ban-later s amount now later h =
    let s' = (apply_penalty_amount s amount now).0 in
    let points = (apply_penalty_amount_lem s amount now).0 in
    let time = apply_penalty_amount-time s amount now in
    let small : s'.penalty < u32_mod =
      omega (arith, points, bounded (current_penalty s now + amount)) in
    let minutes : (later - s'.last_penalty_time) / 60_000 ≡ (later - now) / 60_000 =
      ap (λ t. (later - t) / 60_000) time in
    let left = current_penalty_lem s' later small (omega (arith, minutes, h)) in
    ground (arith, left, minutes, points)

-- A series of penalties at one instant.
abbrev pub penalties : PeerScore → List ℕ → ℕ → PeerScore
penalties s [] now = s
penalties s (a ∷ amounts) now = penalties (apply_penalty_amount s a now).0 amounts now

abbrev pub sum_of : List ℕ → ℕ
sum_of [] = 0
sum_of (a ∷ amounts) = a + sum_of amounts

penalties_more :
    (s : PeerScore) (amounts : List ℕ) (now : ℕ)
    → s.last_penalty_time ≡ now
    → s.penalty ≤ max_penalty
    → (penalties s amounts now).penalty ≡ min (s.penalty + sum_of amounts) max_penalty
penalties_more s [] now e h = omega (arith, h)
penalties_more s (a ∷ amounts) now e h =
    let one = (apply_penalty_amount_lem s a now).0 in
    let s' = (apply_penalty_amount s a now).0 in
    let rest =
      penalties_more s' amounts now (apply_penalty_amount-time s a now) (omega (arith, one)) in
    omega (arith, rest, one, current_penalty_now s now e)

-- Penalties at one instant, at least one, add up on the decayed score, at most to 1000.
pub penalties_add_up :
    (s : PeerScore) (a : ℕ) (amounts : List ℕ) (now : ℕ)
    → (penalties s (a ∷ amounts) now).penalty
      ≡ min (current_penalty s now + sum_of (a ∷ amounts)) max_penalty
penalties_add_up s a amounts now =
    let one = (apply_penalty_amount_lem s a now).0 in
    let s' = (apply_penalty_amount s a now).0 in
    let rest =
      penalties_more s' amounts now (apply_penalty_amount-time s a now) (omega (arith, one)) in
    omega (arith, rest, one)

-- The moving average of the response times lies between the old one and the new time.
pub record_response_time-between :
    (s : PeerScore) (duration now : ℕ)
    → 0 < s.response_count
    → s.avg_response_time_ms * 7 + duration < u64_mod
    → (min s.avg_response_time_ms duration
        ≤ (record_response_time s duration now).avg_response_time_ms)
      × ((record_response_time s duration now).avg_response_time_ms
          ≤ max s.avg_response_time_ms duration)
unfolding record_response_time apply_reward add_u64 mul_u64
record_response_time-between s duration now h k = (ground (arith), ground (arith))
