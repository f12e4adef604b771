-- ===== src/Mempool/Tests.antt =====
-- A platform with whole numbers as its floats, and the theorems at a small pool (pool.rs).
use ergo_rust_node.Prelude.{
  ℕ, ◌+◌, ◌*◌, ◌/◌, ◌≤◌, ◌<◌, ◌≡◌, refl, ◌||◌, true, false, List, [], ◌∷◌, map, Option, none, some,
  ltb, arith, if◌then◌else◌, length, contains, is_some, Result, ok, err, add_u64, sub_u64, mul_u64,
  set_insert, u64_mod,
}
use ergo_rust_node.Assoc.{get, insert, erase, contains_key, insert_all, erase_all}
use ergo_rust_node.Mempool.{
  Platform, PooledTransaction, MempoolConfig, Mempool, MempoolError, double_spend, new, add,
  add_check, link, unlink, remove, update_family, update_family_recursive, update_parents,
  update_parent, first_spent, parent_ids, maybe_evict, evict_while, evict_lowest_weight, lowest,
}
use ergo_rust_node.Mempool.Order
use ergo_rust_node.Mempool.Order.{WeightedTxId, entry}
use ergo_rust_node.Mempool.Queries.{
  get_by_weight, is_input_spent, get_spending_tx, get_creating_tx, get_by_output_id, get_all_ids,
  get_weight, remove_confirmed,
}
use ergo_rust_node.Mempool.Adding
use ergo_rust_node.Mempool.Adding.{IsValid, Outcome, new-IsValid}
use ergo_rust_node.Mempool.Confirmed
use ergo_rust_node.Mempool.Confirmed.{Reach, done, added, removed, spends_any, is_expired}

abbrev platform : Platform
platform = record {
  F64 = ℕ;
  from_u64 = λ n. n;
  to_u64 = λ n. n;
  div = λ a b. a / b;
  mul = λ a b. a * b;
  below = ltb;
  elapsed = λ n. 0;
  hash_order = λ ids. ids;
}

-- Two transactions at most.
abbrev config : MempoolConfig platform
config = record { max_size = 100; max_transactions = 2; tx_expiry_secs = 10; min_fee_per_byte = 1 }

abbrev tx : ℕ → ℕ → List ℕ → List ℕ → PooledTransaction
tx id fee inputs outputs = record {
  id = id;
  bytes = 0 ∷ 0 ∷ [];
  fee = fee;
  inputs = inputs;
  outputs = outputs;
  arrival_time = 1000;
  estimated_cost = none;
}

abbrev parent : PooledTransaction
parent = tx 1 10 (100 ∷ []) (200 ∷ [])

abbrev child : PooledTransaction
child = tx 2 20 (200 ∷ []) (300 ∷ [])

abbrev rich : PooledTransaction
rich = tx 3 90 (400 ∷ []) (500 ∷ [])

abbrev pool_of : List PooledTransaction → Option (Result MempoolError (Mempool platform))
pool_of [] = some (ok (new platform config))
pool_of (t ∷ ts) = elim (pool_of ts) [
  | none ↦ none
  | some (err e) ↦ some (err e)
  | some (ok p) ↦ add platform p t
]

abbrev or_new : Option (Result MempoolError (Mempool platform)) → Mempool platform
or_new none = new platform config
or_new (some (err e)) = new platform config
or_new (some (ok p)) = p

abbrev pair : Mempool platform
pair = or_new (pool_of (child ∷ parent ∷ []))

abbrev full : Mempool platform
full = or_new (pool_of (rich ∷ child ∷ parent ∷ []))

-- The child raises its parent above it; the third transaction evicts the one of the lowest weight.
program :
    (get_all_ids platform pair ≡ 1 ∷ 2 ∷ [])
    × (map (λ t. t.id) (get_by_weight platform pair 9) ≡ 1 ∷ 2 ∷ [])
    × (get_weight platform pair 1 ≡ some (5_120 + 10_240))
    × (is_input_spent platform pair 200 ≡ true)
    × (get_spending_tx platform pair 200 ≡ some 2)
    × (get_creating_tx platform pair 200 ≡ some 1)
    × (get_by_output_id platform pair 300 ≡ some child)
    × (map (λ t. t.id) (get_by_weight platform full 9) ≡ 3 ∷ 1 ∷ [])
    × (get_weight platform full 1 ≡ some 5_120)
unfolding new add add_check link unlink remove update_family update_family_recursive update_parents
    update_parent first_spent parent_ids Order.new Order.insert Order.remove Order.cmp
    Order.fee_per_factor maybe_evict evict_while evict_lowest_weight lowest get insert erase
    contains_key insert_all erase_all add_u64 sub_u64 set_insert get_by_weight is_input_spent
    get_spending_tx get_creating_tx get_by_output_id get_all_ids get_weight
program = (refl, refl, refl, refl, refl, refl, refl, refl, refl)

abbrev single : Mempool platform
single = or_new (pool_of (parent ∷ []))

history : Reach platform (new platform config) pair
unfolding new add add_check link unlink remove update_family update_family_recursive update_parents
    update_parent first_spent parent_ids Order.new Order.insert Order.remove Order.cmp
    Order.fee_per_factor maybe_evict evict_while evict_lowest_weight lowest get insert erase
    contains_key insert_all erase_all add_u64 sub_u64 set_insert
history = added parent refl (added child refl done)

empty-IsValid : IsValid platform (new platform config)
empty-IsValid = new-IsValid platform config (omega arith)

pair-IsValid : IsValid platform pair
pair-IsValid =
    Confirmed.Reach-IsValid_pool platform (new platform config) pair empty-IsValid history

holds : (get 2 pair.transactions ≡ some child) × (get 1 pair.transactions ≡ some parent)
unfolding new add add_check link unlink remove update_family update_family_recursive update_parents
    update_parent first_spent parent_ids Order.new Order.insert Order.remove Order.cmp
    Order.fee_per_factor maybe_evict evict_while evict_lowest_weight lowest get insert erase
    contains_key insert_all erase_all add_u64 sub_u64 set_insert
holds = (refl, refl)

add-IsValid_example :
    (r : Result MempoolError (Mempool platform)) × (add platform pair rich ≡ some r)
    × Outcome platform pair rich r
add-IsValid_example = Adding.add-IsValid platform pair rich pair-IsValid

no_double_spend_reached_example : ◌≡◌ {A = ℕ} 2 2
no_double_spend_reached_example =
    Confirmed.no_double_spend_reached platform config pair 2 2 200 child child (omega arith) history
      holds.0 holds.0 refl refl

abbrev thief : PooledTransaction
thief = tx 4 90 (700 ∷ 200 ∷ []) (600 ∷ [])

thief_fits : length thief.bytes ≤ pair.config.max_size / 10
unfolding new add add_check link unlink remove update_family update_family_recursive update_parents
    update_parent first_spent parent_ids Order.new Order.insert Order.remove Order.cmp
    Order.fee_per_factor maybe_evict evict_while evict_lowest_weight lowest get insert erase
    contains_key insert_all erase_all add_u64 sub_u64 set_insert
thief_fits = omega arith

thief_fee :
    platform.below
      (platform.div (platform.from_u64 thief.fee) (platform.from_u64 (length thief.bytes)))
      pair.config.min_fee_per_byte
    ≡ false
unfolding new add add_check link unlink remove update_family update_family_recursive update_parents
    update_parent first_spent parent_ids Order.new Order.insert Order.remove Order.cmp
    Order.fee_per_factor maybe_evict evict_while evict_lowest_weight lowest get insert erase
    contains_key insert_all erase_all add_u64 sub_u64 set_insert
thief_fee = refl

thief_free : get 4 pair.transactions ≡ none
unfolding new add add_check link unlink remove update_family update_family_recursive update_parents
    update_parent first_spent parent_ids Order.new Order.insert Order.remove Order.cmp
    Order.fee_per_factor maybe_evict evict_while evict_lowest_weight lowest get insert erase
    contains_key insert_all erase_all add_u64 sub_u64 set_insert
thief_free = refl

add-double_spend_example :
    (j : ℕ) × (add platform pair thief ≡ some (err (double_spend j)))
    × (contains thief.inputs j ≡ true)
    × (is_some (get j pair.input_to_tx) ≡ true)
add-double_spend_example =
    Adding.add-double_spend platform pair thief child 2 200 pair-IsValid holds.0 refl refl
      thief_free thief_fits thief_fee

small : pair.total_size < u64_mod
small = omega (arith, pair-IsValid.small, pair-IsValid.sane)

remove_confirmed_lem_example :
    IsValid platform (remove_confirmed platform pair (1 ∷ []) (200 ∷ [])).0
    × ((k : ℕ)
        → get k (remove_confirmed platform pair (1 ∷ []) (200 ∷ [])).0.transactions ≡ (
            if contains (1 ∷ []) k || spends_any (200 ∷ []) (get k pair.transactions)
            then none
            else get k pair.transactions))
remove_confirmed_lem_example =
    Confirmed.remove_confirmed_lem platform pair (1 ∷ []) (200 ∷ []) pair-IsValid

in_time : mul_u64 pair.config.tx_expiry_secs 1000 + 1000 < u64_mod + 999
unfolding new add add_check link unlink remove update_family update_family_recursive update_parents
    update_parent first_spent parent_ids Order.new Order.insert Order.remove Order.cmp
    Order.fee_per_factor maybe_evict evict_while evict_lowest_weight lowest get insert erase
    contains_key insert_all erase_all add_u64 sub_u64 set_insert mul_u64
in_time = omega arith

-- Without a minimal fee, a parent that pays nothing stands behind its child if its id is higher.
abbrev free_of_charge : MempoolConfig platform
free_of_charge = record config { min_fee_per_byte = 0 }

abbrev family : Mempool platform
family = or_new (elim (add platform (new platform free_of_charge) (tx 9 0 (100 ∷ []) (200 ∷ []))) [
  | none ↦ none
  | some (err e) ↦ some (err e)
  | some (ok p) ↦ add platform p child
])

child_first : map (λ t. t.id) (get_by_weight platform family 9) ≡ 2 ∷ 9 ∷ []
unfolding new add add_check link unlink remove update_family update_family_recursive update_parents
    update_parent first_spent parent_ids Order.new Order.insert Order.remove Order.cmp
    Order.fee_per_factor maybe_evict evict_while evict_lowest_weight lowest get insert erase
    contains_key insert_all erase_all add_u64 sub_u64 set_insert get_by_weight
child_first = refl
