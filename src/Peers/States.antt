-- ===== src/Peers/States.antt =====
-- The states of the peers agree with the set of the connected (peer.rs).
use ergo_rust_node.Prelude.{
  ℕ, zero, suc, ◌≡◌, refl, ap, inl, inr, Bool, true, false, not, List, [], ◌∷◌, Option, none, some,
  ltb, ◌==◌, ==_iff, contains, set_remove, contains-set_insert, contains-set_remove, arith,
  Bool-cases, Option-cases,
}
use ergo_rust_node.Assoc.{Map, get, insert, erase, get-insert}
use ergo_rust_node.Peers.Scoring.{PeerScore, apply_penalty_amount}
use ergo_rust_node.Peers.Manager.{
  PeerState, disconnected, connected, banned, connecting, handshaking, PeerInfo, PeerManager,
  new_peer, add_peer, set_state, moved, set_height, ban, penalize_amount, with_score, is_banned,
  forgive, unbanned_state, unban, pick, is_disconnected,
}

-- The state of a known peer, and whether it goes with being among the connected: a connected peer is
-- among them, a banned or unknown one is not.
abbrev pub state_of : Option PeerInfo → Option PeerState
state_of none = none
state_of (some p) = some p.state

abbrev pub fits : Option PeerState → Bool → Bool
fits none c = not c
fits (some connected) c = c
fits (some banned) c = not c
fits (some other) c = true

unfoldable pub IsConsistent : PeerManager → Type 0
IsConsistent m = (id : ℕ) → fits (state_of (get id m.peers)) (contains m.connected_ids id) ≡ true

pub add_peer-IsConsistent :
    (m : PeerManager) (addr now : ℕ) (outbound : Bool)
    → IsConsistent m
    → IsConsistent (add_peer m (new_peer addr outbound now))
unfolding IsConsistent add_peer new_peer
add_peer-IsConsistent m addr now outbound v id =
    let info = new_peer addr outbound now in ground (arith, v id, get-insert addr id info m.peers)

moved-fits :
    (s : PeerState) (id : ℕ) (ids : List ℕ) → fits (some s) (contains (moved s id ids) id) ≡ true
unfolding moved
moved-fits connected id ids = ground (arith, contains-set_insert id id ids)
moved-fits disconnected id ids = refl
moved-fits banned id ids = ground (arith, contains-set_remove id id ids)
moved-fits connecting id ids = refl
moved-fits handshaking id ids = refl

moved_others :
    (s : PeerState) (id j : ℕ) (ids : List ℕ)
    → (id == j) ≡ false
    → contains (moved s id ids) j ≡ contains ids j
unfolding moved
moved_others connected id j ids h = ground (arith, contains-set_insert id j ids)
moved_others disconnected id j ids h = ground (arith, contains-set_remove id j ids)
moved_others banned id j ids h = ground (arith, contains-set_remove id j ids)
moved_others connecting id j ids h = refl
moved_others handshaking id j ids h = refl

-- A known peer gets new information with a state, and the set of the connected follows.
placed :
    (m : PeerManager) (id : ℕ) (info : PeerInfo) (ids : List ℕ)
    → IsConsistent m
    → fits (some info.state) (contains ids id) ≡ true
    → ((j : ℕ) → (id == j) ≡ false → contains ids j ≡ contains m.connected_ids j)
    → (j : ℕ) → fits (state_of (get j (insert id info m.peers))) (contains ids j) ≡ true
unfolding IsConsistent
placed m id info ids v f o j = elim (Bool-cases (id == j)) [
  | inl e ↦ ground (arith, get-insert id j info m.peers, ap (contains ids) ((==_iff id j).0 e))
  | inr e ↦ ground (arith, v j, o j e, get-insert id j info m.peers)
]

pub set_state-IsConsistent :
    (m : PeerManager) (id : ℕ) (s : PeerState) (now : ℕ)
    → IsConsistent m
    → IsConsistent (set_state m id s now)
unfolding set_state IsConsistent
set_state-IsConsistent m id s now v = elim (Option-cases (get id m.peers)) [
  | inl e ↦ rw (e, set_state) v
  | inr (p, e) ↦
      let info : PeerInfo = record p { state = s; last_seen = now } in
      let ids = moved s id m.connected_ids in
      rw (e, set_state)
        (placed m id info ids v (moved-fits s id m.connected_ids)
          (λ j o. moved_others s id j m.connected_ids o))
]

-- What keeps the state of a known peer changes nothing.
kept_state :
    (m : PeerManager) (id : ℕ) (p info : PeerInfo)
    → IsConsistent m
    → get id m.peers ≡ some p
    → info.state ≡ p.state
    → IsConsistent (record m { peers = insert id info m.peers })
unfolding IsConsistent
kept_state m id p info v e s =
    placed m id info m.connected_ids v (ground (arith, v id, ap (λ x. fits (some x)) s))
      (λ j o. refl)

pub set_height-IsConsistent :
    (m : PeerManager) (id height now : ℕ)
    → IsConsistent m
    → IsConsistent (set_height m id height now)
unfolding set_height
set_height-IsConsistent m id height now v = elim (Option-cases (get id m.peers)) [
  | inl e ↦ rw (e, set_height) v
  | inr (p, e) ↦
      rw (e, set_height)
        (kept_state m id p (record p { height = height; last_seen = now }) v e refl)
]

pub with_score-IsConsistent :
    (m : PeerManager) (id : ℕ) (f : PeerScore → PeerScore)
    → IsConsistent m
    → IsConsistent (with_score m id f)
unfolding with_score
with_score-IsConsistent m id f v = elim (Option-cases (get id m.peers)) [
  | inl e ↦ rw (e, with_score) v
  | inr (p, e) ↦ rw (e, with_score) (kept_state m id p (record p { score = f p.score }) v e refl)
]

ban-IsConsistent :
    (m : PeerManager) (id : ℕ) (p : PeerInfo) (now : ℕ)
    → IsConsistent m
    → IsConsistent (ban m id p now)
unfolding ban IsConsistent
ban-IsConsistent m id p now v =
    placed m id (record p { state = banned }) (set_remove id m.connected_ids) v
      (ground (arith, contains-set_remove id id m.connected_ids))
      (λ j o. ground (arith, contains-set_remove id j m.connected_ids))

pub penalize-IsConsistent :
    (m : PeerManager) (id amount now : ℕ)
    → IsConsistent m
    → IsConsistent (penalize_amount m id amount now).0
unfolding penalize_amount
penalize-IsConsistent m id amount now v = elim (Option-cases (get id m.peers)) [
  | inl e ↦ rw (e, penalize_amount) v
  | inr (p, e) ↦
      let scored = apply_penalty_amount p.score amount now in
      let p' : PeerInfo = record p { score = scored.0 } in
      elim (Bool-cases scored.1) [
        | inl b ↦ rw (e, b, penalize_amount) (ban-IsConsistent m id p' now v)
        | inr b ↦ rw (e, b, penalize_amount) (kept_state m id p p' v e refl)
      ]
]

-- Only the bans change.
pub rebanned :
    (m : PeerManager) (bans : Map ℕ) → IsConsistent m → IsConsistent (record m { bans = bans })
unfolding IsConsistent
rebanned m bans v = v

pub is_banned-IsConsistent :
    (m : PeerManager) (addr now : ℕ) → IsConsistent m → IsConsistent (is_banned m addr now).0
unfolding is_banned
is_banned-IsConsistent m addr now v = elim (Option-cases (get addr m.bans)) [
  | inl e ↦ rw (e, is_banned) v
  | inr (t, e) ↦ elim (Bool-cases (ltb now t)) [
    | inl b ↦ rw (e, b, is_banned) v
    | inr b ↦ rw (e, b, is_banned) (rebanned m (erase addr m.bans) v)
  ]
]

unbanned-fits :
    (s : PeerState) (c : Bool) → fits (some s) c ≡ true → fits (some (unbanned_state s)) c ≡ true
unbanned-fits s c h = ground arith

forgive-fits :
    (peers : Map PeerInfo) (addr now id : ℕ) (c : Bool)
    → fits (state_of (get id peers)) c ≡ true
    → fits (state_of (get id (forgive peers addr now))) c ≡ true
unfolding forgive get
forgive-fits [] addr now id c h = h
forgive-fits ((j, p) ∷ peers) addr now id c h =
    ground (arith, forgive-fits peers addr now id c, unbanned-fits p.state c)

pub unban-IsConsistent :
    (m : PeerManager) (addr now : ℕ) → IsConsistent m → IsConsistent (unban m addr now)
unfolding unban IsConsistent
unban-IsConsistent m addr now v id =
    forgive-fits m.peers addr now id (contains m.connected_ids id) (v id)

pub pick-IsConsistent :
    (count : ℕ) (peers : Map PeerInfo) (m : PeerManager) (now : ℕ)
    → IsConsistent m
    → IsConsistent (pick count peers m now).0
unfolding pick
pick-IsConsistent zero peers m now v = v
pick-IsConsistent (suc count) [] m now v = v
pick-IsConsistent (suc count) ((id, p) ∷ peers) m now v =
    let looked = (is_banned m p.addr now).0 in
    let asked = is_banned-IsConsistent m p.addr now v in
    elim (Bool-cases (is_disconnected p.state)) [
      | inr d ↦ rw (d, pick) (pick-IsConsistent (suc count) peers m now v)
      | inl d ↦ elim (Bool-cases (is_banned m p.addr now).1) [
        | inl b ↦ rw (d, b, pick) (pick-IsConsistent (suc count) peers looked now asked)
        | inr b ↦ rw (d, b, pick) (pick-IsConsistent count peers looked now asked)
      ]
    ]
