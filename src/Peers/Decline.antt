-- ===== src/Peers/Decline.antt =====
-- The table of declined modifiers, crates/ergo-network/src/decline.rs. An instant is a number of
-- milliseconds, a reason the list of its bytes.
use ergo_rust_node.Prelude.{
  ℕ, ◌-◌, Bool, List, [], Option, none, some, ltb, leb, if◌then◌else◌, length, is_some,
}
use ergo_rust_node.Assoc.{Map, get, insert, erase, retain}

pub record DeclineEntry : Type 0 where
  pub added_at : ℕ
  pub reason : List ℕ

pub record DeclineTable : Type 0 where
  pub entries : Map DeclineEntry
  pub ttl : ℕ
  pub max_size : ℕ

unfoldable pub new : ℕ → ℕ → DeclineTable
new max_size ttl = record { entries = []; ttl = ttl; max_size = max_size }

abbrev pub is_live : ℕ → ℕ → DeclineEntry → Bool
is_live ttl now entry = ltb (now - entry.added_at) ttl

unfoldable pub cleanup : DeclineTable → ℕ → DeclineTable
cleanup t now = record t { entries = retain (is_live t.ttl now) t.entries }

unfoldable pub decline : DeclineTable → ℕ → List ℕ → ℕ → DeclineTable
unfolding cleanup
decline t id reason now =
    let roomy = if leb t.max_size (length t.entries) then cleanup t now else t in
    record roomy { entries = insert id (record { added_at = now; reason = reason }) roomy.entries }

unfoldable pub is_declined : DeclineTable → ℕ → ℕ → Option (List ℕ)
is_declined t id now = elim (get id t.entries) [
  | none ↦ none
  | some entry ↦ if ltb (now - entry.added_at) t.ttl then some entry.reason else none
]

unfoldable pub contains : DeclineTable → ℕ → ℕ → Bool
unfolding is_declined
contains t id now = is_some (is_declined t id now)

unfoldable pub remove : DeclineTable → ℕ → DeclineTable
remove t id = record t { entries = erase id t.entries }

unfoldable pub clear : DeclineTable → DeclineTable
clear t = record t { entries = [] }
