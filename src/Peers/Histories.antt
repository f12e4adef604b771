-- ===== src/Peers/Histories.antt =====
-- Every sequence of calls keeps the peer manager consistent (peer.rs).
use ergo_rust_node.Prelude.{ℕ, Bool, List, [], ◌∷◌}
use ergo_rust_node.Peers.Manager.{
  PeerState, PeerManager, new_peer, add_peer, set_state, set_height, penalize_amount, is_banned,
  unban, cleanup_expired_bans, get_peers_to_connect, reward, peer_delivery, peer_failure,
  peer_response_time,
}
use ergo_rust_node.Peers.States.{
  IsConsistent, rebanned, add_peer-IsConsistent, set_state-IsConsistent, set_height-IsConsistent,
  with_score-IsConsistent, penalize-IsConsistent, is_banned-IsConsistent, unban-IsConsistent,
  pick-IsConsistent,
}

-- The calls that change a manager; a peer is added as a new one.
pub data Call : Type 0 where
  adds : ℕ → Bool → ℕ → Call
  sets_state : ℕ → PeerState → ℕ → Call
  sets_height : ℕ → ℕ → ℕ → Call
  penalizes : ℕ → ℕ → ℕ → Call
  rewards : ℕ → ℕ → ℕ → Call
  delivers : ℕ → ℕ → Call
  fails : ℕ → Call
  responds : ℕ → ℕ → ℕ → Call
  asks_banned : ℕ → ℕ → Call
  unbans : ℕ → ℕ → Call
  cleans : ℕ → Call
  picks : ℕ → ℕ → Call

abbrev pub after : PeerManager → Call → PeerManager
after m (adds addr outbound now) = add_peer m (new_peer addr outbound now)
after m (sets_state id s now) = set_state m id s now
after m (sets_height id height now) = set_height m id height now
after m (penalizes id amount now) = (penalize_amount m id amount now).0
after m (rewards id amount now) = reward m id amount now
after m (delivers id now) = peer_delivery m id now
after m (fails id) = peer_failure m id
after m (responds id duration now) = peer_response_time m id duration now
after m (asks_banned addr now) = (is_banned m addr now).0
after m (unbans addr now) = unban m addr now
after m (cleans now) = cleanup_expired_bans m now
after m (picks count now) = (get_peers_to_connect m count now).0

after-IsConsistent : (m : PeerManager) (c : Call) → IsConsistent m → IsConsistent (after m c)
unfolding reward peer_delivery peer_failure peer_response_time cleanup_expired_bans
    get_peers_to_connect
after-IsConsistent m (adds addr outbound now) v = add_peer-IsConsistent m addr now outbound v
after-IsConsistent m (sets_state id s now) v = set_state-IsConsistent m id s now v
after-IsConsistent m (sets_height id height now) v = set_height-IsConsistent m id height now v
after-IsConsistent m (penalizes id amount now) v = penalize-IsConsistent m id amount now v
after-IsConsistent m (rewards id amount now) v = with_score-IsConsistent m id _ v
after-IsConsistent m (delivers id now) v = with_score-IsConsistent m id _ v
after-IsConsistent m (fails id) v = with_score-IsConsistent m id _ v
after-IsConsistent m (responds id duration now) v = with_score-IsConsistent m id _ v
after-IsConsistent m (asks_banned addr now) v = is_banned-IsConsistent m addr now v
after-IsConsistent m (unbans addr now) v = unban-IsConsistent m addr now v
after-IsConsistent m (cleans now) v = rebanned m _ v
after-IsConsistent m (picks count now) v = pick-IsConsistent count m.peers m now v

abbrev pub run : PeerManager → List Call → PeerManager
run m [] = m
run m (c ∷ calls) = run (after m c) calls

-- Every sequence of calls keeps the states and the set of the connected in agreement: a connected peer
-- is in the set, and a banned or unknown one is not.
pub run-IsConsistent :
    (m : PeerManager) (calls : List Call) → IsConsistent m → IsConsistent (run m calls)
run-IsConsistent m [] v = v
run-IsConsistent m (c ∷ calls) v = run-IsConsistent (after m c) calls (after-IsConsistent m c v)
