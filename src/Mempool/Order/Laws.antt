-- ===== src/Mempool/Order/Laws.antt =====
-- The ordered set, read through the entries of the transactions.
use Prim.Native.Nat.{Ordering}
use Prim.Native.Nat.Ordering.{lt, eq, gt}
use ergo_rust_node.Prelude.{
  ℕ, ◌+◌, ◌≡◌, refl, ap, ◌∙◌, List, [], ◌∷◌, none, some, false, ◌==◌, ==_iff, if◌then◌else◌, arith,
  All, length, ◌⊎◌, inl, inr, Bool-cases,
}
use mathlib.Core.Path.{subst}
use ergo_rust_node.Mempool.Order.{WeightedTxId, cmp, insert, remove, entry}

abbrev Before : WeightedTxId → WeightedTxId → Type 0
Before x y = (cmp x y ≡ lt) × ((y.tx_id == x.tx_id) ≡ false)

-- Strictly increasing, and no transaction twice.
abbrev pub IsOrdered : List WeightedTxId → Type 0
IsOrdered [] = Unit
IsOrdered (x ∷ xs) = All (Before x) xs × IsOrdered xs

cmp-eq : (a b : WeightedTxId) → cmp a b ≡ eq → a.tx_id ≡ b.tx_id
unfolding cmp
cmp-eq a b h = ground arith

cmp_self : (a : WeightedTxId) → cmp a a ≡ eq
unfolding cmp
cmp_self a = ground arith

cmp_flip : (a b : WeightedTxId) → cmp a b ≡ gt → cmp b a ≡ lt
unfolding cmp
cmp_flip a b h = ground arith

cmp_flip' : (a b : WeightedTxId) → cmp a b ≡ lt → cmp b a ≡ gt
unfolding cmp
cmp_flip' a b h = ground arith

cmp_trans : (a b c : WeightedTxId) → cmp a b ≡ lt → cmp b c ≡ lt → cmp a c ≡ lt
unfolding cmp
cmp_trans a b c h k = ground arith

-- What comes before the head, with another id than all, comes before all.
Before-all :
    (a b : WeightedTxId) (xs : List WeightedTxId)
    → cmp a b ≡ lt
    → All (Before b) xs
    → All (λ y. (y.tx_id == a.tx_id) ≡ false) xs
    → All (Before a) xs
Before-all a b [] h k d = tt
Before-all a b (x ∷ xs) h k d = ((cmp_trans a b x h k.0.0, d.0), Before-all a b xs h k.1 d.1)

-- No entry, no member with the id.
absent : (k : ℕ) (xs : List WeightedTxId) → entry k xs ≡ none → All (λ y. (y.tx_id == k) ≡ false) xs
unfolding entry
absent k [] h = tt
absent k (x ∷ xs) h = ground (arith, absent k xs)

absent_entry :
    (k : ℕ) (xs : List WeightedTxId) → All (λ y. (y.tx_id == k) ≡ false) xs → entry k xs ≡ none
unfolding entry
absent_entry k [] h = refl
absent_entry k (x ∷ xs) h = ground (arith, absent_entry k xs)

All-insert {κ} :
    (P : WeightedTxId → Type κ) (w : WeightedTxId) (xs : List WeightedTxId)
    → P w
    → All P xs
    → All P (insert w xs)
unfolding insert
All-insert P w [] h k = (h, tt)
All-insert P w (x ∷ xs) h k = go (cmp w x) (All-insert P w xs h k.1)
  where
    go :
        (o : Ordering)
        → All P (insert w xs)
        → All P (elim o [ lt ↦ w ∷ x ∷ xs | eq ↦ x ∷ xs | gt ↦ x ∷ insert w xs ])
    go lt r = (h, k)
    go eq r = k
    go gt r = (k.0, r)

All-remove {κ} :
    (P : WeightedTxId → Type κ) (w : WeightedTxId) (xs : List WeightedTxId)
    → All P xs
    → All P (remove w xs)
unfolding remove
All-remove P w [] k = tt
All-remove P w (x ∷ xs) k = go (cmp w x) (All-remove P w xs k.1)
  where
    go :
        (o : Ordering)
        → All P (remove w xs)
        → All P (elim o [ lt ↦ x ∷ xs | eq ↦ xs | gt ↦ x ∷ remove w xs ])
    go lt r = k
    go eq r = k.1
    go gt r = (k.0, r)

other_id : (a b : ℕ) → (a == b) ≡ false → (b == a) ≡ false
other_id a b h = ground arith

entry_tail :
    (k : ℕ) (x : WeightedTxId) (xs : List WeightedTxId)
    → entry k (x ∷ xs) ≡ none
    → entry k xs ≡ none
unfolding entry
entry_tail k x xs h = ground arith

insert_nil : {w : WeightedTxId} → insert w [] ≡ w ∷ []
unfolding insert
insert_nil = refl

insert_step :
    (w x : WeightedTxId) (xs : List WeightedTxId)
    → entry w.tx_id (x ∷ xs) ≡ none
    → IsOrdered (x ∷ xs)
    → IsOrdered (insert w xs)
    → IsOrdered (insert w (x ∷ xs))
unfolding insert
insert_step w x xs h o ih = go (cmp w x) refl
  where
    new_id : All (λ y. (y.tx_id == w.tx_id) ≡ false) (x ∷ xs)
    new_id = absent w.tx_id (x ∷ xs) h

    go :
        (r : Ordering)
        → cmp w x ≡ r
        → IsOrdered (elim r [ lt ↦ w ∷ x ∷ xs | eq ↦ x ∷ xs | gt ↦ x ∷ insert w xs ])
    go lt e = (((e, new_id.0), Before-all w x xs e o.0 new_id.1), o)
    go eq e = o
    go gt e =
        (All-insert (Before x) w xs (cmp_flip w x e, other_id x.tx_id w.tx_id new_id.0) o.0, ih)

-- A new transaction gets its entry, and the others keep theirs.
pub entry-insert :
    (w : WeightedTxId) (k : ℕ) (xs : List WeightedTxId)
    → entry w.tx_id xs ≡ none
    → entry k (insert w xs) ≡ (if w.tx_id == k then some w else entry k xs)
unfolding insert entry
entry-insert w k [] h = refl
entry-insert w k (x ∷ xs) h = ground (arith, entry-insert w k xs, cmp-eq w x)

pub length-insert :
    (w : WeightedTxId) (xs : List WeightedTxId)
    → entry w.tx_id xs ≡ none
    → length (insert w xs) ≡ length xs + 1
unfolding insert entry
length-insert w [] h = omega arith
length-insert w (x ∷ xs) h = ground (arith, length-insert w xs, cmp-eq w x)

pub insert-IsOrdered :
    (w : WeightedTxId) (xs : List WeightedTxId)
    → entry w.tx_id xs ≡ none
    → IsOrdered xs
    → IsOrdered (insert w xs)
insert-IsOrdered w [] h o = rw insert_nil (tt, tt)
insert-IsOrdered w (x ∷ xs) h o =
    insert_step w x xs h o (insert-IsOrdered w xs (entry_tail w.tx_id x xs h) o.1)

pub remove-IsOrdered :
    (w : WeightedTxId) (xs : List WeightedTxId) → IsOrdered xs → IsOrdered (remove w xs)
unfolding remove
remove-IsOrdered w [] o = tt
remove-IsOrdered w (x ∷ xs) o = go (cmp w x) (remove-IsOrdered w xs o.1)
  where
    go :
        (r : Ordering)
        → IsOrdered (remove w xs)
        → IsOrdered (elim r [ lt ↦ x ∷ xs | eq ↦ xs | gt ↦ x ∷ remove w xs ])
    go lt ih = o
    go eq ih = o.1
    go gt ih = (All-remove (Before x) w xs o.0, ih)

entry-All {κ} :
    (P : WeightedTxId → Type κ) (k : ℕ) (w : WeightedTxId) (xs : List WeightedTxId)
    → entry k xs ≡ some w
    → All P xs
    → P w
unfolding entry
entry-All P k w [] h a = absurd (ground arith)
entry-All P k w (x ∷ xs) h a = elim (Bool-cases (x.tx_id == k)) [
  | inl e ↦ let same : x ≡ w = ground arith in subst P same a.0
  | inr e ↦ entry-All P k w xs (ground arith) a.1
]

ids :
    (x : WeightedTxId) (xs : List WeightedTxId)
    → All (Before x) xs
    → All (λ y. (y.tx_id == x.tx_id) ≡ false) xs
ids x [] a = tt
ids x (y ∷ ys) a = (a.0.1, ids x ys a.1)

-- The head is the entry looked for, or the entry comes behind it.
locate :
    (w x : WeightedTxId) (xs : List WeightedTxId)
    → IsOrdered (x ∷ xs)
    → entry w.tx_id (x ∷ xs) ≡ some w
    → ((x ≡ w) × (cmp w x ≡ eq) × (entry w.tx_id xs ≡ none))
      ⊎ (((x.tx_id == w.tx_id) ≡ false) × (cmp w x ≡ gt) × (entry w.tx_id xs ≡ some w))
unfolding entry
locate w x xs o h = elim (Bool-cases (x.tx_id == w.tx_id)) [
  | inl e ↦
      let same : x ≡ w = ground arith in
      let others = subst (λ v. All (λ y. (y.tx_id == v.tx_id) ≡ false) xs) same (ids x xs o.0) in
      inl (same, ap (cmp w) same ∙ cmp_self w, absent_entry w.tx_id xs others)
  | inr e ↦
      let behind : entry w.tx_id xs ≡ some w = ground arith in
      inr (e, cmp_flip' x w (entry-All (Before x) w.tx_id w xs behind o.0).0, behind)
]

-- The removal of an entry takes it out and leaves the others.
pub entry-remove :
    (w : WeightedTxId) (k : ℕ) (xs : List WeightedTxId)
    → IsOrdered xs
    → entry w.tx_id xs ≡ some w
    → entry k (remove w xs) ≡ (if w.tx_id == k then none else entry k xs)
unfolding remove entry
entry-remove w k [] o h = absurd (ground arith)
entry-remove w k (x ∷ xs) o h = elim (locate w x xs o h) [
  | inl (same, e, none_left) ↦ elim (Bool-cases (w.tx_id == k)) [
    | inl q ↦ ground (arith, e, none_left, ap (λ i. entry i xs) ((==_iff w.tx_id k).0 q))
    | inr q ↦ ground (arith, e, ap (λ v. v.tx_id) same)
  ]
  | inr (other, e, behind) ↦ ground (arith, e, other, entry-remove w k xs o.1 behind)
]

pub length-remove :
    (w : WeightedTxId) (xs : List WeightedTxId)
    → IsOrdered xs
    → entry w.tx_id xs ≡ some w
    → length (remove w xs) + 1 ≡ length xs
unfolding remove entry
length-remove w [] o h = absurd (ground arith)
length-remove w (x ∷ xs) o h = elim (locate w x xs o h) [
  | inl (same, e, none_left) ↦ rw (e, remove) (omega arith)
  | inr (other, e, behind) ↦ rw (e, remove) (omega (arith, length-remove w xs o.1 behind))
]
