-- ===== src/Peers/Scoring.antt =====
-- The score of a peer, crates/ergo-network/src/scoring.rs. An instant is a number of milliseconds, and
-- an operation takes the one at which it runs; the floating-point rates are left out.
use ergo_rust_node.Prelude.{
  ℕ, ◌+◌, ◌-◌, ◌/◌, ◌%◌, ◌^◌, min, Bool, ltb, leb, ◌==◌, if◌then◌else◌, u32_mod, u64_mod,
  saturating_add_u32, saturating_mul_u32, add_u64, mul_u64,
}
use ergo_rust_node.Peers.Penalties.{
  PenaltyReason, penalty_of, ban_threshold, decay_per_minute, max_penalty, successful_delivery,
  fast_response, max_score,
}

pub record PeerScore : Type 0 where
  pub penalty : ℕ
  pub last_penalty_time : ℕ
  pub avg_response_time_ms : ℕ
  pub response_count : ℕ
  pub delivered_count : ℕ
  pub failed_count : ℕ
  pub invalid_message_count : ℕ
  pub reward_score : ℕ
  pub last_success : ℕ

unfoldable pub new : ℕ → PeerScore
new now = record {
  penalty = 0;
  last_penalty_time = now;
  avg_response_time_ms = 0;
  response_count = 0;
  delivered_count = 0;
  failed_count = 0;
  invalid_message_count = 0;
  reward_score = 0;
  last_success = now;
}

-- `elapsed` is nothing for an instant that lies ahead, and `saturating_sub` stops at 0.
unfoldable pub current_penalty : PeerScore → ℕ → ℕ
current_penalty s now =
    let minutes_elapsed = (now - s.last_penalty_time) / 1000 / 60 in
    s.penalty - saturating_mul_u32 (minutes_elapsed % u32_mod) decay_per_minute

unfoldable pub should_ban : PeerScore → ℕ → Bool
should_ban s now = leb ban_threshold (current_penalty s now)

unfoldable pub apply_penalty_amount : PeerScore → ℕ → ℕ → PeerScore × Bool
apply_penalty_amount s amount now =
    let s' : PeerScore = record s {
      penalty = min (saturating_add_u32 (current_penalty s now) amount) max_penalty;
      last_penalty_time = now;
    } in
    (s', should_ban s' now)

unfoldable pub apply_penalty : PeerScore → PenaltyReason → ℕ → PeerScore × Bool
apply_penalty s reason now = apply_penalty_amount s (penalty_of reason) now

-- The score is an `i32`, as its bit pattern; `min` compares signed.
abbrev pub lift_i32 : ℕ → ℕ
lift_i32 a = (a + 2 ^ 31) % u32_mod

unfoldable pub apply_reward : PeerScore → ℕ → ℕ → PeerScore
apply_reward s amount now =
    let sum = (s.reward_score + amount) % u32_mod in
    record s {
      reward_score = if leb (lift_i32 sum) (lift_i32 max_score) then sum else max_score;
      last_success = now;
    }

unfoldable pub record_delivery : PeerScore → ℕ → PeerScore
record_delivery s now =
    apply_reward (record s { delivered_count = add_u64 s.delivered_count 1 }) successful_delivery
      now

unfoldable pub record_failure : PeerScore → PeerScore
record_failure s = record s { failed_count = add_u64 s.failed_count 1 }

unfoldable pub record_response_time : PeerScore → ℕ → ℕ → PeerScore
record_response_time s duration_ms now =
    let new_time = duration_ms % u64_mod in
    let s' : PeerScore = record s {
      avg_response_time_ms =
          if s.response_count == 0
          then new_time
          else add_u64 (mul_u64 s.avg_response_time_ms 7) new_time / 8;
      response_count = add_u64 s.response_count 1;
    } in
    if ltb new_time 500 then apply_reward s' fast_response now else s'

unfoldable pub record_invalid_message : PeerScore → PeerScore
record_invalid_message s = record s {
  invalid_message_count = (s.invalid_message_count + 1) % u32_mod;
}

unfoldable pub reset : PeerScore → ℕ → PeerScore
unfolding new
reset s now = new now
