-- ===== src/History/Chain/Fork.antt =====
-- The height at which a new chain meets the index of heights (crates/ergo-state/src/history.rs).
use ergo_rust_node.Prelude.{
  ℕ, zero, suc, ◌-◌, ◌≤◌, ◌<◌, ◌≡◌, refl, ap, ◌∙◌, sym, subst, inl, inr, true, false, Bool-cases,
  Option, none, some, Option-cases, Result, ok, ◌>>=◌, >>=-eq-ok, ok_injective, List, arith,
}
use ergo_rust_node.Storage.{Storage}
use ergo_rust_node.State.{StateError}
use ergo_rust_node.Utxo.Apply.Consistent.{some_injective}
use ergo_rust_node.History.{Header, ChainLib, get_header, get_by_height}
use ergo_rust_node.History.Chain.{is_header, fork_loop, find_fork_height}

no_less : (n : ℕ) → suc n - 0 ≡ suc n
no_less n = omega arith

module _ (s : Storage) (lib : ChainLib) where
  -- The id that so many steps back from an id lead to.
  unfoldable pub ancestor : s.Db → ℕ → List ℕ → Result StateError (Option (List ℕ))
  ancestor db zero id = ok (some id)
  ancestor db (suc steps) id = do
    found ← get_header s lib db id
    elim found [ none ↦ ok none | some header ↦ ancestor db steps header.parent_id ]

  -- From a height `n` down, where the new chain has `id`, height `r` is the first at which the index of
  -- heights has the header of the new chain.
  pub record IsMeeting (db : s.Db) (n r : ℕ) (id : List ℕ) : Type 0 where
    pub entry : Option Header
    pub meeting_id : List ℕ
    pub below : r ≤ n
    pub indexed : get_by_height s lib db r ≡ ok entry
    pub is_indexed : is_header entry meeting_id ≡ true
    pub is_ancestor : ancestor db (n - r) id ≡ ok (some meeting_id)
    pub first :
        (j : ℕ) (o : Option Header) (a : List ℕ)
        → j < n - r
        → ancestor db j id ≡ ok (some a)
        → get_by_height s lib db (n - j) ≡ ok o
        → is_header o a ≡ false

  -- The same for one more height, where the index has another header.
  first_above :
      (db : s.Db) (n r : ℕ) (id : List ℕ) (o : Option Header) (header : Header)
      → get_by_height s lib db (suc n) ≡ ok o
      → is_header o id ≡ false
      → get_header s lib db id ≡ ok (some header)
      → IsMeeting db n r header.parent_id
      → (j : ℕ) (w : Option Header) (a : List ℕ) → j < suc n - r
      → ancestor db j id ≡ ok (some a)
      → get_by_height s lib db (suc n - j) ≡ ok w
      → is_header w a ≡ false
  unfolding ancestor
  first_above db n r id o header indexed other found m zero w a lt back here =
      let same : o ≡ w =
        ok_injective
          (sym indexed ∙ subst (λ x. get_by_height s lib db x ≡ ok w) (no_less n) here) in
      subst (λ x. is_header x a ≡ false) same
        (subst (λ x. is_header o x ≡ false) (some_injective (ok_injective back)) other)
  first_above db n r id o header indexed other found m (suc j) w a lt back here =
      m.first j w a (omega (arith, m.below)) (rw found at back)
        (subst (λ x. get_by_height s lib db x ≡ ok w) (one_less n j) here)
    where
      one_less : (n j : ℕ) → suc n - suc j ≡ n - j
      one_less n j = omega arith

  fork_loop-IsMeeting :
      (db : s.Db) (n : ℕ) (id : List ℕ) {r : ℕ}
      → fork_loop s lib db n id ≡ ok r
      → 1 < r
      → IsMeeting db n r id
  unfolding fork_loop ancestor
  fork_loop-IsMeeting db zero id h big = absurd (omega (arith, ok_injective h))
  fork_loop-IsMeeting db (suc n) id {r} h big =
      let p = >>=-eq-ok (get_by_height s lib db (suc n)) _ h in
      elim (Bool-cases (is_header p.0 id)) [
        | inl e ↦
            subst (λ x. IsMeeting db (suc n) x id) (ok_injective (rw e at p.1.1))
              (record {
                entry = p.0;
                meeting_id = id;
                below = omega arith;
                indexed = p.1.0;
                is_indexed = e;
                is_ancestor = rw (no_steps n) refl;
                first = λ j o a lt. absurd (omega (arith, lt));
              })
        | inr e ↦
            let q = >>=-eq-ok (get_header s lib db id) _ (rw e at p.1.1) in
            elim (Option-cases q.0) [
              | inl w ↦ absurd (omega (arith, ok_injective (rw w at q.1.1)))
              | inr (header, w) ↦
                  let m = fork_loop-IsMeeting db n header.parent_id (rw w at q.1.1) big in
                  record {
                    entry = m.entry;
                    meeting_id = m.meeting_id;
                    below = omega (arith, m.below);
                    indexed = m.indexed;
                    is_indexed = m.is_indexed;
                    is_ancestor = rw (one_more n r m.below, ancestor, q.1.0, w) m.is_ancestor;
                    first = first_above db n r id p.0 header p.1.0 e (q.1.0 ∙ ap ok w) m;
                  }
            ]
      ]
    where
      no_steps : (n : ℕ) → suc n - suc n ≡ 0
      no_steps n = omega arith

      one_more : (n r : ℕ) → r ≤ n → suc n - r ≡ suc (n - r)
      one_more n r h = omega arith

  -- A fork height above 1 that `find_fork_height` returns is below the header's height. The header that
  -- the index of heights has there is the ancestor of the new one, and at no height between the two does
  -- the index have the ancestor.
  pub find_fork_height-IsMeeting :
      (db : s.Db) (id : List ℕ) (header : Header) {r : ℕ}
      → get_header s lib db id ≡ ok (some header)
      → find_fork_height s lib db id ≡ ok r
      → 1 < r
      → IsMeeting db (header.height - 1) r header.parent_id
  unfolding find_fork_height
  find_fork_height-IsMeeting db id header found h big =
      fork_loop-IsMeeting db (header.height - 1) header.parent_id
        (rw (find_fork_height, found) at h) big
