-- ===== src/Peers/Tests.antt =====
-- The theorems at two peers and at a small table (crates/ergo-network/src/).
use ergo_rust_node.Prelude.{
  ◌<◌, ◌≡◌, refl, true, false, List, [], ◌∷◌, none, some, arith, u32_mod, saturating_add_u32,
  saturating_mul_u32, set_remove,
}
use ergo_rust_node.Assoc.{Unique, get, insert, erase}
use ergo_rust_node.Peers.Penalties.{malicious_behavior, penalty_of}
use ergo_rust_node.Peers.Scoring.{
  PeerScore, current_penalty, should_ban, apply_penalty_amount, apply_penalty, apply_reward,
  record_response_time, record_delivery, record_failure, record_invalid_message,
}
use ergo_rust_node.Peers.Scoring
use ergo_rust_node.Peers.Manager.{
  PeerState, connected, disconnected, PeerInfo, PeerManager, PeerManagerConfig, new_peer, set_state,
  moved, add_peer, penalize_amount, penalize, ban, is_banned, unban, forgive, cleanup_expired_bans,
  get_peers_to_connect, connected_count, outbound_count, is_outbound, can_accept,
  can_connect_outbound, get_connected, get_best_peer, higher, get_peers_with_height, set_height,
}
use ergo_rust_node.Peers.Manager
use ergo_rust_node.Peers.States.{IsConsistent}
use ergo_rust_node.Peers.Histories
use ergo_rust_node.Peers.Histories.{Call, run, adds, sets_state, sets_height, penalizes}
use ergo_rust_node.Peers.Banning
use ergo_rust_node.Peers.Banning.{Fresh}
use ergo_rust_node.Peers.Decline.{DeclineTable}

abbrev config : PeerManagerConfig
config = record {
  max_connections = 30;
  max_outbound = 10;
  ban_duration = 3_600_000;
  min_sync_peers = 5;
}

abbrev empty : PeerManager
empty = record { config = config; peers = []; connected_ids = []; bans = [] }

empty-IsConsistent : IsConsistent empty
unfolding IsConsistent get
empty-IsConsistent id = refl

-- Two peers, one of them connected and then banned.
abbrev calls : List Call
calls =
    adds 7 true 0
    ∷ adds 8 true 0
    ∷ sets_state 7 connected 10
    ∷ sets_height 7 55 11
    ∷ penalizes 7 600 20
    ∷ []

run-IsConsistent_example : IsConsistent (run empty calls)
run-IsConsistent_example = Histories.run-IsConsistent empty calls empty-IsConsistent

abbrev peer : PeerInfo
peer = new_peer 7 true 0

abbrev one : PeerManager
one = record empty { peers = (7, peer) ∷ []; connected_ids = 7 ∷ [] }

program :
    (connected_count one ≡ 1)
    × (outbound_count one ≡ 1)
    × (can_accept one ≡ true)
    × (can_connect_outbound one ≡ true)
    × (get_best_peer one ≡ some peer)
    × (get_peers_with_height one 5 ≡ [])
    × ((penalize one 7 malicious_behavior 20).1 ≡ true)
    × ((is_banned (unban (penalize one 7 malicious_behavior 20).0 7 30) 7 40).1 ≡ false)
    × ((get_peers_to_connect one 5 10).1 ≡ 7 ∷ [])
unfolding get Manager.new Scoring.new new_peer connected_count outbound_count is_outbound can_accept
    can_connect_outbound get_connected get_best_peer higher get_peers_with_height penalize
    penalize_amount ban penalty_of apply_penalty_amount current_penalty should_ban
    saturating_add_u32 saturating_mul_u32 insert erase set_remove is_banned unban forgive
    Scoring.reset get_peers_to_connect Manager.pick
program = (refl, refl, refl, refl, refl, refl, refl, refl, refl)

abbrev score : PeerScore
score = Scoring.new 0

small : (score.penalty < u32_mod) × (0 ≡ score.response_count)
unfolding Scoring.new
small = (omega arith, refl)

abbrev two_bans : PeerManager
two_bans = record one { bans = (7, 50) ∷ (8, 90) ∷ [] }

unique : Unique two_bans.bans
unfolding get
unique = (refl, (refl, tt))

-- A table for one modifier, with one.
abbrev table : DeclineTable
table = record {
  entries = (1, record { added_at = 100; reason = [] }) ∷ [];
  ttl = 600;
  max_size = 1;
}

alone : Unique table.entries
unfolding get
alone = (refl, tt)

absent : get 2 table.entries ≡ none
unfolding get
absent = refl
