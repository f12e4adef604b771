-- ===== src/History/Chain/Best.antt =====
-- The best header is the one with the most cumulative difficulty (crates/ergo-state/src/history.rs).
use ergo_rust_node.Prelude.{
  ℕ, ◌+◌, ◌≤◌, ◌≡◌, refl, sym, ap, ◌∙◌, ◌⊎◌, inl, inr, Bool, true, false, not, ◌&&◌, Bool-cases,
  Option, none, some, List, [], ◌∷◌, ltb, leb, ◌==◌, if◌then◌else◌, max, ok, >>=-eq-ok,
  ok_injective, ok_or, Result-cases, arith,
}
use ergo_rust_node.Storage.{
  Storage, WriteBatch, ColumnFamily, headers, header_chain, cumulative_difficulty, metadata, name,
  overlay, new, contains,
}
use ergo_rust_node.Storage.Bytes.{same_bytes, same_bytes_refl, same_bytes_eq, be_u32}
use ergo_rust_node.Storage.Overlay.{overlay-put, overlay-put_elsewhere}
use ergo_rust_node.History.{
  Header, ChainLib, put_with_bytes_batched, put_batched, put_header, contains_header,
}
use ergo_rust_node.History.Difficulty.{nbits_to_difficulty}
use ergo_rust_node.History.Chain.{
  or_zero, History, get_cumulative_difficulty, parent_cumulative, store_cumulative_difficulty,
  put_best, select_header, append_header_internal,
}

module _ (s : Storage) (lib : ChainLib) where
  abbrev pub AtMost : ℕ → Option ℕ → Type 0
  AtMost best none = Unit
  AtMost best (some n) = n ≤ best

  -- A best header is stored with the best difficulty; with none the best difficulty is 0.
  abbrev pub Attained : s.Db → ℕ → Option (List ℕ) → Type 0
  Attained db best none = best ≡ 0
  Attained db best (some id) =
      (contains_header s lib db id ≡ true) × (get_cumulative_difficulty s lib db id ≡ some best)

  -- No stored difficulty is above that of the best header.
  pub record IsBest (h : History s) : Type 0 where
    pub bounded :
        (id : List ℕ)
        → AtMost h.best_cumulative_difficulty (get_cumulative_difficulty s lib h.storage id)
    pub attained : Attained h.storage h.best_cumulative_difficulty h.best_header_id

  -- Storing a header writes the header's own two columns, and there its id.
  pub put_header_lem :
      (db : s.Db) (header : Header) (raw : Option (List ℕ)) {db' : s.Db}
      → put_header s lib db header raw ≡ ok db'
      → (bytes : List ℕ) × (db' ≡ s.write_batch db (put_with_bytes_batched new header bytes))
  unfolding put_header put_batched
  put_header_lem db header none h =
      let p = >>=-eq-ok (put_batched lib new header) _ h in
      let q = >>=-eq-ok (ok_or (lib.scorex_serialize_bytes header) _) _ p.1.0 in
      (q.0, sym (ok_injective p.1.1) ∙ ap (λ b. s.write_batch db b) (sym (ok_injective q.1.1)))
  put_header_lem db header (some bytes) h = (bytes, sym (ok_injective h))

  pub put_header-elsewhere :
      (db : s.Db) (header : Header) (raw : Option (List ℕ)) {db' : s.Db} (c : ColumnFamily)
      (k : List ℕ)
      → put_header s lib db header raw ≡ ok db'
      → (name headers == name c) ≡ false
      → (name header_chain == name c) ≡ false
      → s.get db' c k ≡ s.get db c k
  unfolding put_with_bytes_batched new
  put_header-elsewhere db header raw c k h a b =
      let p = put_header_lem db header raw h in
      rw (
        p.1,
        s.get-write_batch,
        overlay-put_elsewhere _ header_chain c (be_u32 header.height) k _ header.id b,
        overlay-put_elsewhere _ headers c header.id k _ p.0 a,
      )

  pub put_header-contains :
      (db : s.Db) (header : Header) (raw : Option (List ℕ)) {db' : s.Db} (k : List ℕ)
      → put_header s lib db header raw ≡ ok db'
      → contains_header s lib db' k
        ≡ (if same_bytes header.id k then true else contains_header s lib db k)
  unfolding put_with_bytes_batched new contains_header contains
  put_header-contains db header raw k h =
      let p = put_header_lem db header raw h in
      elim (Bool-cases (same_bytes header.id k)) [
        | inl e ↦ rw (
          p.1,
          s.get-write_batch,
          overlay-put_elsewhere _ header_chain headers (be_u32 header.height) k _ header.id refl,
          overlay-put _ headers headers header.id k _ p.0,
          e,
        )
        | inr e ↦ rw (
          p.1,
          s.get-write_batch,
          overlay-put_elsewhere _ header_chain headers (be_u32 header.height) k _ header.id refl,
          overlay-put _ headers headers header.id k _ p.0,
          e,
        )
      ]

  -- The batch of `store_cumulative_difficulty` and that with the new best header, seen from the
  -- column of difficulties and from any other but the metadata.
  store-overlay :
      (id k : List ℕ) (d : ℕ) (old : Option (List ℕ))
      → overlay (store_cumulative_difficulty s lib new id d).operations cumulative_difficulty k old
        ≡ (if same_bytes id k then some (lib.to_bytes_be d) else old)
  unfolding store_cumulative_difficulty new
  store-overlay id k d old = overlay-put _ cumulative_difficulty cumulative_difficulty id k old _

  pub put_best-elsewhere :
      (batch : WriteBatch) (id k : List ℕ) (height d : ℕ) (c : ColumnFamily) (old : Option (List ℕ))
      → (name metadata == name c) ≡ false
      → overlay (put_best s lib batch id height d).operations c k old
        ≡ overlay batch.operations c k old
  unfolding put_best
  put_best-elsewhere batch id k height d c old e = rw (
    overlay-put_elsewhere _ metadata c _ k old (lib.to_bytes_be d) e,
    overlay-put_elsewhere _ metadata c _ k old (be_u32 height) e,
    overlay-put_elsewhere batch metadata c _ k old id e,
  )

  pub write-cumulative :
      (db : s.Db) (batch : WriteBatch) (id k : List ℕ) (d : ℕ)
      → ((old : Option (List ℕ))
          → overlay batch.operations cumulative_difficulty k old
            ≡ (if same_bytes id k then some (lib.to_bytes_be d) else old))
      → get_cumulative_difficulty s lib (s.write_batch db batch) k
        ≡ (if same_bytes id k then some d else get_cumulative_difficulty s lib db k)
  unfolding get_cumulative_difficulty
  write-cumulative db batch id k d h = elim (Bool-cases (same_bytes id k)) [
    | inl e ↦ rw (
      get_cumulative_difficulty,
      s.get-write_batch,
      h (s.get db cumulative_difficulty k),
      e,
      lib.from-to,
    )
    | inr e ↦
        rw (get_cumulative_difficulty, s.get-write_batch, h (s.get db cumulative_difficulty k), e)
  ]

  -- What the history is after a header is selected: the best one if its difficulty is higher.
  selected :
      (h : History s) (header : Header) (d : ℕ)
      → (let h' = (select_header s lib h header d).0 in
          ((ltb h.best_cumulative_difficulty d ≡ true)
            × (h'.best_cumulative_difficulty ≡ d)
            × (h'.best_header_id ≡ some header.id)
            × (h'.storage
                ≡ s.write_batch h.storage (
                    put_best s lib
                      (store_cumulative_difficulty s lib new header.id d)
                      header.id
                      header.height
                      d)))
          ⊎ ((ltb h.best_cumulative_difficulty d ≡ false)
              × (h'.best_cumulative_difficulty ≡ h.best_cumulative_difficulty)
              × (h'.best_header_id ≡ h.best_header_id)
              × (h'.storage
                  ≡ s.write_batch h.storage (store_cumulative_difficulty s lib new header.id d))))
  unfolding select_header
  selected h header d = elim (Bool-cases (ltb h.best_cumulative_difficulty d)) [
    | inl e ↦ inl (e, rw e, rw e, rw e)
    | inr e ↦ inr (e, rw e, rw e, rw e)
  ]

  stored-contains :
      (db : s.Db) (id k : List ℕ) (d : ℕ)
      → contains_header s lib (s.write_batch db (store_cumulative_difficulty s lib new id d)) k
        ≡ contains_header s lib db k
  unfolding contains_header contains store_cumulative_difficulty new
  stored-contains db id k d =
      rw (s.get-write_batch, overlay-put_elsewhere _ cumulative_difficulty headers id k _ _ refl)

  best-contains :
      (db : s.Db) (id k : List ℕ) (height d : ℕ)
      → contains_header s lib
          (s.write_batch db
            (put_best s lib (store_cumulative_difficulty s lib new id d) id height d))
          k
        ≡ contains_header s lib db k
  unfolding contains_header contains store_cumulative_difficulty new
  best-contains db id k height d = rw (
    s.get-write_batch,
    put_best-elsewhere _ id k height d headers _ refl,
    overlay-put_elsewhere _ cumulative_difficulty headers id k _ _ refl,
  )

  -- The difficulty of a selected header is stored, and the other difficulties stay.
  pub select_header-cumulative :
      (h : History s) (header : Header) (d : ℕ) (k : List ℕ)
      → get_cumulative_difficulty s lib (select_header s lib h header d).0.storage k
        ≡ (if same_bytes header.id k then some d else get_cumulative_difficulty s lib h.storage k)
  select_header-cumulative h header d k = elim (selected h header d) [
    | inl p ↦ rw p.3 (
        write-cumulative h.storage _ header.id k d (λ old.
          put_best-elsewhere _ header.id k header.height d cumulative_difficulty old refl
          ∙ store-overlay header.id k d old))
    | inr p ↦ rw p.3 (write-cumulative h.storage _ header.id k d (store-overlay header.id k d))
  ]

  select_header-contains :
      (h : History s) (header : Header) (d : ℕ) (k : List ℕ)
      → contains_header s lib (select_header s lib h header d).0.storage k
        ≡ contains_header s lib h.storage k
  select_header-contains h header d k = elim (selected h header d) [
    | inl p ↦ rw p.3 (best-contains h.storage header.id k header.height d)
    | inr p ↦ rw p.3 (stored-contains h.storage header.id k d)
  ]

  -- The best header is another one than a header that is not stored yet.
  abbrev Differs : List ℕ → Option (List ℕ) → Type 0
  Differs id none = Unit
  Differs id (some best) = same_bytes id best ≡ false

  AtMost-if :
      (b : Bool) (best best' d : ℕ) (o : Option ℕ)
      → best ≤ best'
      → d ≤ best'
      → AtMost best o
      → AtMost best' (if b then some d else o)
  AtMost-if true best best' d o l m h = m
  AtMost-if false best best' d none l m h = tt
  AtMost-if false best best' d (some n) l m h = omega (arith, h)

  Attained-kept :
      (h : History s) (header : Header) (d : ℕ) (best : ℕ) (o : Option (List ℕ))
      → Attained h.storage best o
      → Differs header.id o
      → Attained (select_header s lib h header d).0.storage best o
  Attained-kept h header d best none a f = a
  Attained-kept h header d best (some id) a f = (
    select_header-contains h header d id ∙ a.0,
    rw (select_header-cumulative h header d id, f, a.1),
  )

  select_header-IsBest :
      (h : History s) (header : Header) (d : ℕ)
      → IsBest h
      → contains_header s lib h.storage header.id ≡ true
      → Differs header.id h.best_header_id
      → IsBest (select_header s lib h header d).0
  select_header-IsBest h header d v here f = elim (selected h header d) [
    | inl p ↦ record {
      bounded = λ k.
          rw (p.1, select_header-cumulative h header d k)
            (AtMost-if (same_bytes header.id k) h.best_cumulative_difficulty d d _
              (ground (arith, p.0)) (omega arith) (v.bounded k));
      attained =
          rw (p.1, p.2)
            (
              select_header-contains h header d header.id ∙ here,
              rw (select_header-cumulative h header d header.id, same_bytes_refl header.id),
            );
    }
    | inr p ↦ record {
      bounded = λ k.
          rw (p.1, select_header-cumulative h header d k)
            (AtMost-if (same_bytes header.id k) h.best_cumulative_difficulty
              h.best_cumulative_difficulty d _ (omega arith) (ground (arith, p.0)) (v.bounded k));
      attained =
          rw (p.1, p.2)
            (Attained-kept h header d h.best_cumulative_difficulty h.best_header_id v.attained f);
    }
  ]

  put_header-IsBest :
      (h : History s) (header : Header) (raw : Option (List ℕ)) {db : s.Db}
      → IsBest h
      → put_header s lib h.storage header raw ≡ ok db
      → IsBest (record h { storage = db })
  unfolding get_cumulative_difficulty
  put_header-IsBest h header raw {db} v e = record {
    bounded = λ k. rw (get_cumulative_difficulty, same k) (v.bounded k);
    attained = kept h.best_header_id v.attained;
  }
    where
      same :
          (k : List ℕ) → s.get db cumulative_difficulty k ≡ s.get h.storage cumulative_difficulty k
      same k = put_header-elsewhere h.storage header raw cumulative_difficulty k e refl refl

      kept :
          (o : Option (List ℕ))
          → Attained h.storage h.best_cumulative_difficulty o
          → Attained db h.best_cumulative_difficulty o
      kept none a = a
      kept (some id) a = (
        rw (put_header-contains h.storage header raw id e, a.0) (ground arith),
        rw (get_cumulative_difficulty, same id) a.1,
      )

  Differs-new :
      (h : History s) (id : List ℕ)
      → IsBest h
      → contains_header s lib h.storage id ≡ false
      → Differs id h.best_header_id
  Differs-new h id v fresh = by_id h.best_header_id v.attained
    where
      by_id :
          (o : Option (List ℕ)) → Attained h.storage h.best_cumulative_difficulty o → Differs id o
      by_id none a = tt
      by_id (some best) a = elim (Bool-cases (same_bytes id best)) [
        | inl e ↦ absurd (
            ground (
              arith,
              sym fresh ∙ (ap (contains_header s lib h.storage) (same_bytes_eq id best e) ∙ a.0),
            ))
        | inr e ↦ e
      ]

  -- `append_header_internal` keeps the best header the one with the most cumulative difficulty, on
  -- every branch, errors included.
  pub append_header_internal-IsBest :
      (h : History s) (header : Header) (raw : Option (List ℕ))
      → IsBest h
      → IsBest (append_header_internal s lib h header raw).0
  unfolding append_header_internal
  append_header_internal-IsBest h header raw v =
      elim (Bool-cases (contains_header s lib h.storage header.id)) [
        | inl e ↦ rw e v
        | inr e ↦
            elim (Bool-cases
              (ltb 2 header.height && not (contains_header s lib h.storage header.parent_id))) [
                | inl p ↦ rw (e, p) v
                | inr p ↦ elim (Result-cases (put_header s lib h.storage header raw)) [
                  | inr (x, q) ↦ rw (e, p, q) v
                  | inl (db, q) ↦
                      rw (e, p, q)
                        (select_header-IsBest (record h { storage = db }) header _
                          (put_header-IsBest h header raw v q)
                          (put_header-contains h.storage header raw header.id q
                            ∙ rw (same_bytes_refl header.id))
                          (Differs-new h header.id v e))
                ]
              ]
      ]

  -- Headers that are appended one after the other, each with its raw bytes or without.
  unfoldable pub append_all : History s → List (Header × Option (List ℕ)) → History s
  append_all h [] = h
  append_all h ((header, raw) ∷ rest) =
      append_all (append_header_internal s lib h header raw).0 rest

  -- After any headers are appended to a history whose best header has the most cumulative difficulty,
  -- it still has: no stored difficulty is above the best one, and a best header is stored with it.
  pub append_all-IsBest :
      (h : History s) (hs : List (Header × Option (List ℕ))) → IsBest h → IsBest (append_all h hs)
  unfolding append_all
  append_all-IsBest h [] v = v
  append_all-IsBest h ((header, raw) ∷ rest) v =
      append_all-IsBest (append_header_internal s lib h header raw).0 rest
        (append_header_internal-IsBest h header raw v)

  -- A header that is not stored, has its parent stored or a height of at most 2, and can be stored, gets
  -- as its difficulty its own plus what is stored for its parent, or plus 0 where nothing is, or at a
  -- height of at most 2; the best difficulty becomes the greater of that and the old one.
  pub append_header_internal-cumulative :
      (h : History s) (header : Header) (raw : Option (List ℕ)) {db : s.Db}
      → contains_header s lib h.storage header.id ≡ false
      → (ltb 2 header.height && not (contains_header s lib h.storage header.parent_id)) ≡ false
      → put_header s lib h.storage header raw ≡ ok db
      → (let h' = (append_header_internal s lib h header raw).0 in
          let parent =
            if leb header.height 2
            then 0
            else or_zero s lib (get_cumulative_difficulty s lib h.storage header.parent_id) in
          let d = parent + nbits_to_difficulty header.n_bits in
          (get_cumulative_difficulty s lib h'.storage header.id ≡ some d)
          × (h'.best_cumulative_difficulty ≡ max h.best_cumulative_difficulty d))
  unfolding append_header_internal parent_cumulative
  append_header_internal-cumulative h header raw {db} e p q =
      let d = parent_cumulative s lib h.storage header + nbits_to_difficulty header.n_bits in
      let h' : History s = record h { storage = db } in
      rw (e, p, q)
        (
          rw (select_header-cumulative h' header d header.id, same_bytes_refl header.id),
          elim (selected h' header d) [
            | inl r ↦ r.1 ∙ ground (arith, r.0)
            | inr r ↦ r.1 ∙ ground (arith, r.0)
          ],
        )
