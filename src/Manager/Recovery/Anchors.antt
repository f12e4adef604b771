-- ===== src/Manager/Recovery/Anchors.antt =====
-- What recovery takes for a consistent height (crates/ergo-state/src/manager.rs).
use ergo_rust_node.Prelude.{
  ℕ, zero, suc, ◌<◌, ◌≡◌, sym, ap, subst, ◌∙◌, ◌⊎◌, inl, inr, Bool, true, false, Option,
  Option-cases, none, some, List, [], ◌∷◌, ok, ◌>>=◌, >>=-eq-ok, ok_injective, arith,
}
use ergo_rust_node.Storage.{Storage}
use ergo_rust_node.Utxo.{ErgoLib, BoxEntry}
use ergo_rust_node.Utxo.Index.{get_box}
use ergo_rust_node.Utxo.Apply.Consistent.{some_injective}
use ergo_rust_node.History.{Header, ChainLib, get_by_height}
use ergo_rust_node.History.Blocks.{get_transactions}
use ergo_rust_node.Manager.{any_present, is_good}

-- Whether a Boolean decides a statement.
abbrev pub Decides : Bool → Type 0 → Type 0
Decides true P = P
Decides false P = ¬ P

Decides-map : {P Q : Type 0} (b : Bool) → (P → Q) → (Q → P) → Decides b P → Decides b Q
Decides-map true f g d = f d
Decides-map false f g d = λ q. d (g q)

Decides-or : {P : Type 0} (Q : Type 0) (b : Bool) → ¬ P → Decides b Q → Decides b (P ⊎ Q)
Decides-or Q true n d = inr d
Decides-or Q false n d = λ x. elim x [ inl p ↦ n p | inr q ↦ d q ]

pub none-some : {A : Type 0} (x : A) → none ≡ some x → ⊥
none-some x h = absurd (ground arith)

abbrev first_tx : {A : Type 0} → A → List A → A
first_tx x [] = x
first_tx x (y ∷ ys) = y

module _ (s : Storage) (chain : ChainLib) (lib : ErgoLib) where
  module _ (output_ids : chain.Tx → List (List ℕ)) where
    -- One of the ids has a box.
    unfoldable pub HasUnspent : s.Db → List (List ℕ) → Type 0
    HasUnspent db [] = ⊥
    HasUnspent db (id ∷ ids) =
        ((e : BoxEntry lib) × (get_box s lib db id ≡ ok (some e))) ⊎ HasUnspent db ids

    -- The index of heights has a header at the height, its transactions are stored, and an output of
    -- the first of them is unspent.
    pub record IsAnchored (db : s.Db) (height : ℕ) : Type 0 where
      pub header : Header
      pub coinbase : chain.Tx
      pub txs : List chain.Tx
      pub positive : 0 < height
      pub indexed : get_by_height s chain db height ≡ ok (some header)
      pub stored : get_transactions s chain db header.id ≡ ok (some (coinbase ∷ txs))
      pub unspent : HasUnspent db (output_ids coinbase)

    stored_under :
        (db : s.Db) (n : ℕ) (header : Header)
        → get_by_height s chain db (suc n) ≡ ok (some header)
        → (a : IsAnchored db (suc n))
        → get_transactions s chain db header.id ≡ ok (some (a.coinbase ∷ a.txs))
    stored_under db n header i a =
        subst (λ x. get_transactions s chain db x.id ≡ ok (some (a.coinbase ∷ a.txs)))
          (some_injective (ok_injective (sym a.indexed ∙ i))) a.stored

    any_present_lem :
        (db : s.Db) (ids : List (List ℕ)) (b : Bool)
        → any_present s chain lib output_ids db ids ≡ ok b
        → Decides b (HasUnspent db ids)
    unfolding any_present HasUnspent
    any_present_lem db [] b h = subst (λ x. Decides x ⊥) (ok_injective h) (λ x. x)
    any_present_lem db (id ∷ ids) b h =
        let p = >>=-eq-ok (get_box s lib db id) _ h in
        elim (Option-cases p.0) [
          | inl w ↦
              Decides-or (HasUnspent db ids) b
                (λ (e, q). none-some e (ok_injective (sym (p.1.0 ∙ ap ok w) ∙ q)))
                (any_present_lem db ids b (rw w at p.1.1))
          | inr (e, w) ↦
              subst (λ x. Decides x (HasUnspent db (id ∷ ids))) (ok_injective (rw w at p.1.1))
                (inl (e, p.1.0 ∙ ap ok w))
        ]

    -- What `is_good` makes of the header and the transactions that it finds.
    by_transactions :
        (db : s.Db) (n : ℕ) (header : Header) (o : Option (List chain.Tx)) (b : Bool)
        → get_by_height s chain db (suc n) ≡ ok (some header)
        → get_transactions s chain db header.id ≡ ok o
        → (elim o [
          | none ↦ ok false
          | some [] ↦ ok false
          | some (coinbase ∷ txs) ↦ any_present s chain lib output_ids db (output_ids coinbase)
        ])
          ≡ ok b
        → Decides b (IsAnchored db (suc n))
    by_transactions db n header none b i g h =
        subst (λ x. Decides x (IsAnchored db (suc n))) (ok_injective h)
          (λ a. none-some _ (ok_injective (sym g ∙ stored_under db n header i a)))
    by_transactions db n header (some []) b i g h =
        subst (λ x. Decides x (IsAnchored db (suc n))) (ok_injective h)
          (λ a.
            absurd (
              ground (arith, some_injective (ok_injective (sym g ∙ stored_under db n header i a)))))
    by_transactions db n header (some (coinbase ∷ txs)) b i g h =
        Decides-map b
          (λ u. record {
            header = header;
            coinbase = coinbase;
            txs = txs;
            positive = omega arith;
            indexed = i;
            stored = g;
            unspent = u;
          })
          (λ a.
            subst (λ t. HasUnspent db (output_ids t))
              (ap (first_tx coinbase)
                (some_injective (ok_injective (sym (stored_under db n header i a) ∙ g))))
              a.unspent)
          (any_present_lem db (output_ids coinbase) b h)

    by_header :
        (db : s.Db) (n : ℕ) (o : Option Header) (b : Bool)
        → get_by_height s chain db (suc n) ≡ ok o
        → (elim o [
          | none ↦ ok false
          | some header ↦ do
            stored ← get_transactions s chain db header.id
            elim stored [
              | none ↦ ok false
              | some [] ↦ ok false
              | some (coinbase ∷ txs) ↦ any_present s chain lib output_ids db (output_ids coinbase)
            ]
        ])
          ≡ ok b
        → Decides b (IsAnchored db (suc n))
    by_header db n none b i h =
        subst (λ x. Decides x (IsAnchored db (suc n))) (ok_injective h)
          (λ a. none-some _ (ok_injective (sym i ∙ a.indexed)))
    by_header db n (some header) b i h =
        let p = >>=-eq-ok (get_transactions s chain db header.id) _ h in
        by_transactions db n header p.0 b i p.1.0 p.1.1

    -- `is_good` decides whether a height is anchored, when it returns.
    pub is_good_lem :
        (db : s.Db) (height : ℕ) (b : Bool)
        → is_good s chain lib output_ids db height ≡ ok b
        → Decides b (IsAnchored db height)
    unfolding is_good
    is_good_lem db zero b h =
        subst (λ x. Decides x (IsAnchored db 0)) (ok_injective h)
          (λ a. absurd (omega (arith, a.positive)))
    is_good_lem db (suc n) b h =
        let p = >>=-eq-ok (get_by_height s chain db (suc n)) _ h in by_header db n p.0 b p.1.0 p.1.1
