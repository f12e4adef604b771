-- ===== src/Peers/Manager.antt =====
-- The manager of the peers, crates/ergo-network/src/peer.rs. An address is a number, and so is the id
-- that is made from it; instants are milliseconds. The version and the agent of a peer are left out.
use ergo_rust_node.Prelude.{
  ℕ, zero, suc, ◌+◌, Bool, true, false, not, List, [], ◌∷◌, Option, none, some, ltb, leb, ◌==◌,
  if◌then◌else◌, length, filter, set_insert, set_remove,
}
use ergo_rust_node.Assoc.{Map, get, insert, erase, retain}
use ergo_rust_node.Peers.Penalties.{PenaltyReason, penalty_of}
use ergo_rust_node.Peers.Scoring.{
  PeerScore, apply_penalty_amount, apply_reward, record_delivery, record_failure,
  record_response_time,
}
use ergo_rust_node.Peers.Scoring

pub data PeerState : Type 0 where
  disconnected : PeerState
  connecting : PeerState
  handshaking : PeerState
  connected : PeerState
  banned : PeerState

pub record PeerInfo : Type 0 where
  pub id : ℕ
  pub addr : ℕ
  pub state : PeerState
  pub height : ℕ
  pub score : PeerScore
  pub last_seen : ℕ
  pub outbound : Bool

unfoldable pub new_peer : ℕ → Bool → ℕ → PeerInfo
new_peer addr outbound now = record {
  id = addr;
  addr = addr;
  state = disconnected;
  height = 0;
  score = Scoring.new now;
  last_seen = now;
  outbound = outbound;
}

pub record PeerManagerConfig : Type 0 where
  pub max_connections : ℕ
  pub max_outbound : ℕ
  pub ban_duration : ℕ
  pub min_sync_peers : ℕ

pub record PeerManager : Type 0 where
  pub config : PeerManagerConfig
  pub peers : Map PeerInfo
  pub connected_ids : List ℕ
  pub bans : Map ℕ

unfoldable pub new : PeerManagerConfig → PeerManager
new config = record { config = config; peers = []; connected_ids = []; bans = [] }

unfoldable pub add_peer : PeerManager → PeerInfo → PeerManager
add_peer m info = record m { peers = insert info.id info m.peers }

-- The set of the connected, after a peer goes into a state.
unfoldable pub moved : PeerState → ℕ → List ℕ → List ℕ
moved connected id ids = set_insert id ids
moved disconnected id ids = set_remove id ids
moved banned id ids = set_remove id ids
moved other id ids = ids

unfoldable pub set_state : PeerManager → ℕ → PeerState → ℕ → PeerManager
set_state m id state now = elim (get id m.peers) [
  | none ↦ m
  | some peer ↦ record m {
    peers = insert id (record peer { state = state; last_seen = now }) m.peers;
    connected_ids = moved state id m.connected_ids;
  }
]

unfoldable pub set_height : PeerManager → ℕ → ℕ → ℕ → PeerManager
set_height m id height now = elim (get id m.peers) [
  | none ↦ m
  | some peer ↦ record m {
    peers = insert id (record peer { height = height; last_seen = now }) m.peers;
  }
]

-- A ban: the peer is marked and disconnected, and its address is banned from now on.
unfoldable pub ban : PeerManager → ℕ → PeerInfo → ℕ → PeerManager
ban m id peer now = record m {
  peers = insert id (record peer { state = banned }) m.peers;
  connected_ids = set_remove id m.connected_ids;
  bans = insert peer.addr (now + m.config.ban_duration) m.bans;
}

unfoldable pub penalize_amount : PeerManager → ℕ → ℕ → ℕ → PeerManager × Bool
penalize_amount m id amount now = elim (get id m.peers) [
  | none ↦ (m, false)
  | some peer ↦
      let (score, should_ban) = apply_penalty_amount peer.score amount now in
      let peer' : PeerInfo = record peer { score = score } in
      if should_ban
      then (ban m id peer' now, true)
      else (record m { peers = insert id peer' m.peers }, false)
]

unfoldable pub penalize : PeerManager → ℕ → PenaltyReason → ℕ → PeerManager × Bool
penalize m id reason now = penalize_amount m id (penalty_of reason) now

-- An operation on the score of a known peer.
unfoldable pub with_score : PeerManager → ℕ → (PeerScore → PeerScore) → PeerManager
with_score m id f = elim (get id m.peers) [
  | none ↦ m
  | some peer ↦ record m { peers = insert id (record peer { score = f peer.score }) m.peers }
]

unfoldable pub reward : PeerManager → ℕ → ℕ → ℕ → PeerManager
reward m id amount now = with_score m id (λ s. apply_reward s amount now)

unfoldable pub peer_delivery : PeerManager → ℕ → ℕ → PeerManager
peer_delivery m id now = with_score m id (λ s. record_delivery s now)

unfoldable pub peer_failure : PeerManager → ℕ → PeerManager
peer_failure m id = with_score m id record_failure

unfoldable pub peer_response_time : PeerManager → ℕ → ℕ → ℕ → PeerManager
peer_response_time m id duration now = with_score m id (λ s. record_response_time s duration now)

-- An expired ban is lifted when it is asked for.
unfoldable pub is_banned : PeerManager → ℕ → ℕ → PeerManager × Bool
is_banned m addr now = elim (get addr m.bans) [
  | none ↦ (m, false)
  | some unban_time ↦
      if ltb now unban_time then (m, true) else (record m { bans = erase addr m.bans }, false)
]

abbrev pub unbanned_state : PeerState → PeerState
unbanned_state banned = disconnected
unbanned_state other = other

-- The loop over the peers, up to the first at the address.
unfoldable pub forgive : Map PeerInfo → ℕ → ℕ → Map PeerInfo
forgive [] addr now = []
forgive ((id, peer) ∷ peers) addr now =
    let rest = forgive peers addr now in
    if peer.addr == addr
    then (
      id,
      record peer { score = Scoring.reset peer.score now; state = unbanned_state peer.state },
    )
      ∷ peers
    else (id, peer) ∷ rest

unfoldable pub unban : PeerManager → ℕ → ℕ → PeerManager
unban m addr now = record m { bans = erase addr m.bans; peers = forgive m.peers addr now }

unfoldable pub cleanup_expired_bans : PeerManager → ℕ → PeerManager
cleanup_expired_bans m now = record m { bans = retain (λ unban_time. ltb now unban_time) m.bans }

unfoldable pub connected_count : PeerManager → ℕ
connected_count m = length m.connected_ids

unfoldable pub is_outbound : PeerManager → ℕ → Bool
is_outbound m id = elim (get id m.peers) [ none ↦ false | some p ↦ p.outbound ]

unfoldable pub outbound_count : PeerManager → ℕ
outbound_count m = length (filter (is_outbound m) m.connected_ids)

unfoldable pub can_accept : PeerManager → Bool
can_accept m = ltb (connected_count m) m.config.max_connections

unfoldable pub can_connect_outbound : PeerManager → Bool
can_connect_outbound m = ltb (outbound_count m) m.config.max_outbound

abbrev pub is_disconnected : PeerState → Bool
is_disconnected disconnected = true
is_disconnected other = false

-- The lazy chain of filters: the bans of the peers looked at are lifted if they have expired, and
-- it stops when enough are found.
unfoldable pub pick : ℕ → Map PeerInfo → PeerManager → ℕ → PeerManager × List ℕ
pick zero peers m now = (m, [])
pick (suc count) [] m now = (m, [])
pick (suc count) ((id, peer) ∷ peers) m now =
    let skip = pick (suc count) peers m now in
    let looked = is_banned m peer.addr now in
    let past = pick (suc count) peers looked.0 now in
    let taken = pick count peers looked.0 now in
    if not (is_disconnected peer.state)
    then skip
    else if looked.1
    then past
    else (taken.0, peer.addr ∷ taken.1)

unfoldable pub get_peers_to_connect : PeerManager → ℕ → ℕ → PeerManager × List ℕ
get_peers_to_connect m count now = pick count m.peers m now

unfoldable pub get_connected : PeerManager → List ℕ → List PeerInfo
get_connected m [] = []
get_connected m (id ∷ ids) =
    let rest = get_connected m ids in elim (get id m.peers) [ none ↦ rest | some p ↦ p ∷ rest ]

unfoldable pub get_peers_with_height : PeerManager → ℕ → List PeerInfo
get_peers_with_height m min_height =
    filter (λ p. ltb min_height p.height) (get_connected m m.connected_ids)

-- `max_by_key` keeps the last of the highest.
unfoldable pub higher : PeerInfo → List PeerInfo → PeerInfo
higher best [] = best
higher best (p ∷ ps) = higher (if leb best.height p.height then p else best) ps

unfoldable pub get_best_peer : PeerManager → Option PeerInfo
get_best_peer m = elim (get_connected m m.connected_ids) [ [] ↦ none | p ∷ ps ↦ some (higher p ps) ]
