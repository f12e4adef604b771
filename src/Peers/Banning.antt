-- ===== src/Peers/Banning.antt =====
-- Who is banned, and until when (peer.rs).
use ergo_rust_node.Prelude.{
  ℕ, zero, suc, ◌≤◌, ◌≡◌, refl, ap, ◌∙◌, sym, inl, inr, Bool, true, false, ◌&&◌, ◌||◌, List, [],
  ◌∷◌, Option, none, some, ltb, ◌==◌, ==_iff, ==_refl, length, arith, Bool-cases, Option-cases, All,
}
use ergo_rust_node.Assoc.{Map, Unique, get, get-erase, get-retain}
use ergo_rust_node.Peers.Manager.{
  PeerInfo, PeerManager, is_banned, cleanup_expired_bans, pick, get_peers_to_connect,
  is_disconnected,
}

-- What the recorded bans say of an address at a time.
abbrev pub holds : Option ℕ → ℕ → Bool
holds none now = false
holds (some unban_time) now = ltb now unban_time

is_banned-holds :
    (m : PeerManager) (addr now : ℕ) → (is_banned m addr now).1 ≡ holds (get addr m.bans) now
unfolding is_banned
is_banned-holds m addr now = elim (Option-cases (get addr m.bans)) [
  | inl e ↦ rw (e, is_banned) refl
  | inr (t, e) ↦ elim (Bool-cases (ltb now t)) [
    | inl b ↦ rw (e, b, is_banned) refl
    | inr b ↦ rw (e, b, is_banned) refl
  ]
]

asked_holds :
    (m : PeerManager) (addr now other later : ℕ)
    → now ≤ later
    → holds (get other (is_banned m addr now).0.bans) later ≡ holds (get other m.bans) later
unfolding is_banned
asked_holds m addr now other later h = elim (Option-cases (get addr m.bans)) [
  | inl e ↦ rw (e, is_banned) refl
  | inr (t, e) ↦ elim (Bool-cases (ltb now t)) [
    | inl b ↦ rw (e, b, is_banned) refl
    | inr b ↦
        rw (e, b, is_banned)
          (elim (Bool-cases (addr == other)) [
            | inl q ↦
                let same = ap (λ a. get a m.bans) ((==_iff addr other).0 q) in
                ground (arith, get-erase addr other m.bans, e, same)
            | inr q ↦ ground (arith, get-erase addr other m.bans)
          ])
  ]
]

-- If no address has two bans: lifting expired bans, one by asking or all by the cleanup, changes no
-- answer at that time or later.
pub bans_lifted :
    (m : PeerManager) (addr now other later : ℕ)
    → Unique m.bans
    → now ≤ later
    → ((is_banned (is_banned m addr now).0 other later).1 ≡ (is_banned m other later).1)
      × ((is_banned (cleanup_expired_bans m now) other later).1 ≡ (is_banned m other later).1)
unfolding cleanup_expired_bans
bans_lifted m addr now other later u h =
    let cleaned = get-retain (λ t. ltb now t) other m.bans u in
    let asked = asked_holds m addr now other later h in
    (
      is_banned-holds (is_banned m addr now).0 other later
          ∙ asked
          ∙ sym (is_banned-holds m other later),
      elim (Option-cases (get other m.bans)) [
        | inl e ↦ ground (
          arith,
          is_banned-holds (cleanup_expired_bans m now) other later,
          is_banned-holds m other later,
          cleaned,
          e,
        )
        | inr (t, e) ↦ ground (
          arith,
          is_banned-holds (cleanup_expired_bans m now) other later,
          is_banned-holds m other later,
          cleaned,
          e,
        )
      ],
    )

-- Some disconnected peer is at the address.
abbrev pub offered : Map PeerInfo → ℕ → Bool
offered [] addr = false
offered ((id, p) ∷ peers) addr = (p.addr == addr && is_disconnected p.state) || offered peers addr

-- An address to connect to: of a disconnected peer, and not banned.
abbrev pub Fresh : Map PeerInfo → PeerManager → ℕ → ℕ → Type 0
Fresh peers m now addr = (offered peers addr ≡ true) × (holds (get addr m.bans) now ≡ false)

Fresh-more :
    (id : ℕ) (p : PeerInfo) (peers : Map PeerInfo) (m m' : PeerManager) (now : ℕ)
    → ((addr : ℕ) → holds (get addr m'.bans) now ≡ holds (get addr m.bans) now)
    → (addrs : List ℕ) → All (Fresh peers m' now) addrs
    → All (Fresh ((id, p) ∷ peers) m now) addrs
Fresh-more id p peers m m' now same [] a = tt
Fresh-more id p peers m m' now same (x ∷ xs) a =
    ((ground (arith, a.0.0), sym (same x) ∙ a.0.1), Fresh-more id p peers m m' now same xs a.1)

pick-Fresh :
    (count : ℕ) (peers : Map PeerInfo) (m : PeerManager) (now : ℕ)
    → (length (pick count peers m now).1 ≤ count)
      × All (Fresh peers m now) (pick count peers m now).1
unfolding pick
pick-Fresh zero peers m now = (omega arith, tt)
pick-Fresh (suc count) [] m now = (omega arith, tt)
pick-Fresh (suc count) ((id, p) ∷ peers) m now =
    let looked = (is_banned m p.addr now).0 in
    let same : (addr : ℕ) → holds (get addr looked.bans) now ≡ holds (get addr m.bans) now =
      λ addr. asked_holds m p.addr now addr now (omega arith) in
    elim (Bool-cases (is_disconnected p.state)) [
      | inr d ↦
          let (few, all) = pick-Fresh (suc count) peers m now in
          rw (d, pick)
            (few, Fresh-more id p peers m m now (λ a. refl) (pick (suc count) peers m now).1 all)
      | inl d ↦ elim (Bool-cases (is_banned m p.addr now).1) [
        | inl b ↦
            let (few, all) = pick-Fresh (suc count) peers looked now in
            rw (d, b, pick)
              (
                few,
                Fresh-more id p peers m looked now same (pick (suc count) peers looked now).1 all,
              )
        | inr b ↦
            let (few, all) = pick-Fresh count peers looked now in
            rw (d, b, pick)
              (
                omega (arith, few),
                (
                  (ground (arith, d, ==_refl p.addr), sym (is_banned-holds m p.addr now) ∙ b),
                  Fresh-more id p peers m looked now same (pick count peers looked now).1 all,
                ),
              )
      ]
    ]

-- `get_peers_to_connect` returns at most as many addresses as asked for, each of a disconnected peer
-- and not banned at that time.
pub get_peers_to_connect-Fresh :
    (m : PeerManager) (count now : ℕ)
    → (length (get_peers_to_connect m count now).1 ≤ count)
      × All (Fresh m.peers m now) (get_peers_to_connect m count now).1
unfolding get_peers_to_connect
get_peers_to_connect-Fresh m count now = pick-Fresh count m.peers m now
