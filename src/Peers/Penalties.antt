-- ===== src/Peers/Penalties.antt =====
-- Penalties, crates/ergo-network/src/penalties.rs.
use ergo_rust_node.Prelude.{ℕ, Bool, true, false}

abbrev pub slow_response_points : ℕ
slow_response_points = 2

abbrev pub missing_response_points : ℕ
missing_response_points = 10

abbrev pub duplicate_message_points : ℕ
duplicate_message_points = 5

abbrev pub invalid_checksum_points : ℕ
invalid_checksum_points = 5

abbrev pub invalid_message_format_points : ℕ
invalid_message_format_points = 20

abbrev pub unexpected_message_points : ℕ
unexpected_message_points = 30

abbrev pub invalid_modifier_points : ℕ
invalid_modifier_points = 50

abbrev pub declined_modifier_points : ℕ
declined_modifier_points = 40

abbrev pub invalid_transaction_points : ℕ
invalid_transaction_points = 80

abbrev pub invalid_block_points : ℕ
invalid_block_points = 100

abbrev pub spam_detected_points : ℕ
spam_detected_points = 150

abbrev pub size_limit_exceeded_points : ℕ
size_limit_exceeded_points = 100

abbrev pub protocol_violation_points : ℕ
protocol_violation_points = 500

abbrev pub malicious_behavior_points : ℕ
malicious_behavior_points = 1000

abbrev pub ban_threshold : ℕ
ban_threshold = 500

abbrev pub decay_per_minute : ℕ
decay_per_minute = 10

abbrev pub max_penalty : ℕ
max_penalty = 1000

abbrev pub successful_delivery : ℕ
successful_delivery = 1

abbrev pub fast_response : ℕ
fast_response = 1

abbrev pub max_score : ℕ
max_score = 100

pub data PenaltyReason : Type 0 where
  slow_response : PenaltyReason
  missing_response : PenaltyReason
  duplicate_message : PenaltyReason
  invalid_checksum : PenaltyReason
  invalid_message_format : PenaltyReason
  unexpected_message : PenaltyReason
  invalid_modifier : PenaltyReason
  declined_modifier : PenaltyReason
  invalid_transaction : PenaltyReason
  invalid_block : PenaltyReason
  spam_detected : PenaltyReason
  size_limit_exceeded : PenaltyReason
  protocol_violation : PenaltyReason
  malicious_behavior : PenaltyReason

unfoldable pub penalty_of : PenaltyReason → ℕ
penalty_of slow_response = slow_response_points
penalty_of missing_response = missing_response_points
penalty_of duplicate_message = duplicate_message_points
penalty_of invalid_checksum = invalid_checksum_points
penalty_of invalid_message_format = invalid_message_format_points
penalty_of unexpected_message = unexpected_message_points
penalty_of invalid_modifier = invalid_modifier_points
penalty_of declined_modifier = declined_modifier_points
penalty_of invalid_transaction = invalid_transaction_points
penalty_of invalid_block = invalid_block_points
penalty_of spam_detected = spam_detected_points
penalty_of size_limit_exceeded = size_limit_exceeded_points
penalty_of protocol_violation = protocol_violation_points
penalty_of malicious_behavior = malicious_behavior_points

unfoldable pub is_critical : PenaltyReason → Bool
is_critical protocol_violation = true
is_critical malicious_behavior = true
is_critical other = false
