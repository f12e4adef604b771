-- ===== src/Nipopow/Packing.antt =====
-- Unpacking the packed interlinks gives them back (interlinks.rs).
use ergo_rust_node.Prelude.{
  ℕ, zero, suc, ◌+◌, ◌%◌, ◌≤◌, ◌<◌, ◌≡◌, refl, ap, ◌∙◌, sym, min, true, false, List, [], ◌∷◌, ◌++◌,
  ltb, leb, ◌==◌, inl, inr, ==_iff, length, take, drop, filter, replicate, ok, All, arith,
  Bool-cases, append_nil, append_assoc, take_whole, length-drop, All-drop, nil_of_length,
}
use ergo_rust_node.Nipopow.Interlinks.{
  same_bytes, duplicates, Field, pack_loop, pack_interlinks, is_interlink, byte_at, insert_by_index,
  sort_by_index, unpack_loop, unpack_interlinks, interlinks_vector_prefix,
}

same_bytes-eq : (a b : List ℕ) → same_bytes a b ≡ true → a ≡ b
unfolding same_bytes
same_bytes-eq [] [] h = refl
same_bytes-eq [] (b ∷ bs) h = absurd (ground arith)
same_bytes-eq (a ∷ as_) [] h = absurd (ground arith)
same_bytes-eq (a ∷ as_) (b ∷ bs) h = ground (arith, same_bytes-eq as_ bs, ==_iff a b)

same_bytes_refl : (a : List ℕ) → same_bytes a a ≡ true
unfolding same_bytes
same_bytes_refl [] = refl
same_bytes_refl (a ∷ as_) = ground (arith, same_bytes_refl as_)

duplicates_head : (link : List ℕ) (links : List (List ℕ)) → 0 < duplicates link (link ∷ links)
unfolding duplicates
duplicates_head link links = ground (arith, same_bytes_refl link)

-- The duplicates, written out, and what follows them.
replicate-drop :
    (c : ℕ) (link : List ℕ) (links : List (List ℕ))
    → c ≤ duplicates link links
    → (replicate c link ++ drop c links) ≡ links
unfolding duplicates
replicate-drop zero link links h = refl
replicate-drop (suc c) link [] h = absurd (omega arith)
replicate-drop (suc c) link (id ∷ ids) h = elim (Bool-cases (same_bytes id link)) [
  | inl e ↦
      let rest = replicate-drop c link ids (ground arith) in
      let same = same_bytes-eq id link e in cc
  | inr e ↦ absurd (ground arith)
]

-- A block id has 32 bytes.
abbrev pub IsId : List ℕ → Type 0
IsId link = length link ≡ 32

unpack_step :
    (acc : List (List ℕ)) (key value : List ℕ) (fields : List Field)
    → (byte_at 0 value == 0) ≡ false
    → unpack_loop acc ((key, value) ∷ fields)
      ≡ unpack_loop (acc ++ replicate (byte_at 0 value) (take 32 (drop 1 value))) fields
unfolding unpack_loop
unpack_step acc key value fields h = rw (h) refl

-- With fuel for each link, the loops undo each other, whatever the indexes.
unpack_loop-pack_loop :
    (fuel idx : ℕ) (acc links : List (List ℕ))
    → length links ≤ fuel
    → All IsId links
    → unpack_loop acc (pack_loop fuel idx links) ≡ ok (acc ++ links)
unfolding pack_loop unpack_loop
unpack_loop-pack_loop zero idx acc [] h a = ap ok (sym (append_nil acc))
unpack_loop-pack_loop zero idx acc (link ∷ links) h a = absurd (omega arith)
unpack_loop-pack_loop (suc fuel) idx acc [] h a = ap ok (sym (append_nil acc))
unpack_loop-pack_loop (suc fuel) idx acc (link ∷ links) h a =
    let count = min (duplicates link (link ∷ links)) 255 in
    let some_ : 0 < count = omega (arith, duplicates_head link links) in
    let left = drop count (link ∷ links) in
    let shorter : length left ≤ fuel = omega (arith, length-drop count (link ∷ links)) in
    let ih =
      unpack_loop-pack_loop fuel ((idx + 1) % 256) (acc ++ replicate count link) left shorter
        (All-drop IsId count (link ∷ links) a) in
    let nonzero : (count == 0) ≡ false = ground arith in
    let joined = replicate-drop count link (link ∷ links) (omega arith) in
    rw (nonzero, take_whole 32 link a.0)
      (ih ∙ ap ok (append_assoc acc (replicate count link) left ∙ ap (λ l. acc ++ l) joined))

-- Fields with the indexes from n on, in order.
Numbered : ℕ → List Field → Type 0
Numbered n [] = Unit
Numbered n ((key, value) ∷ fields) =
    (key ≡ interlinks_vector_prefix ∷ n ∷ []) × (length value ≡ 33) × Numbered (n + 1) fields

filter-Numbered : (n : ℕ) (fs : List Field) → Numbered n fs → filter is_interlink fs ≡ fs
unfolding Numbered is_interlink
filter-Numbered n [] h = refl
filter-Numbered n ((key, value) ∷ fs) h =
    let form = ap (λ k. is_interlink (k, value)) h.0 in
    let kept : is_interlink (key, value) ≡ true = form ∙ ground (arith, h.1) in
    rw (kept) (ap (λ l. (key, value) ∷ l) (filter-Numbered (n + 1) fs h.2))

sort-Numbered : (n : ℕ) (fs : List Field) → Numbered n fs → sort_by_index fs ≡ fs
unfolding Numbered sort_by_index insert_by_index
sort-Numbered n [] h = refl
sort-Numbered n ((k, v) ∷ []) h = refl
sort-Numbered n ((k, v) ∷ (l, w) ∷ fs) h =
    let ih = sort-Numbered (n + 1) ((l, w) ∷ fs) h.2 in
    let below : leb (byte_at 1 k) (byte_at 1 l) ≡ true =
      ground (arith, ap (byte_at 1) h.0, ap (byte_at 1) h.2.0) in
    let front : insert_by_index (k, v) ((l, w) ∷ fs) ≡ (k, v) ∷ (l, w) ∷ fs = rw (below) refl in
    ap (insert_by_index (k, v)) ih ∙ front

pack_loop-Numbered :
    (fuel idx : ℕ) (links : List (List ℕ))
    → idx + length (pack_loop fuel idx links) ≤ 256
    → All IsId links
    → Numbered idx (pack_loop fuel idx links)
unfolding Numbered pack_loop
pack_loop-Numbered zero idx links h a = tt
pack_loop-Numbered (suc fuel) idx [] h a = tt
pack_loop-Numbered (suc fuel) idx (link ∷ links) h a =
    let count = min (duplicates link (link ∷ links)) 255 in
    let left = drop count (link ∷ links) in
    let rest = pack_loop fuel ((idx + 1) % 256) left in
    (
      refl,
      omega (arith, a.0),
      elim (Bool-cases (ltb (idx + 1) 256)) [
        | inl e ↦
            let next : (idx + 1) % 256 ≡ idx + 1 = ground arith in
            let size = ap (λ i. length (pack_loop fuel i left)) next in
            rw next (
              pack_loop-Numbered fuel (idx + 1) left (omega (arith, h, size))
                (All-drop IsId count (link ∷ links) a))
        | inr e ↦ rw (nil_of_length rest (ground arith)) tt
      ],
    )

-- The count of a field is a byte, and not 0.
abbrev pub IsCounted : Field → Type 0
IsCounted f = (1 ≤ byte_at 0 f.1) × (byte_at 0 f.1 ≤ 255)

pack_loop-IsCounted :
    (fuel idx : ℕ) (links : List (List ℕ)) → All IsCounted (pack_loop fuel idx links)
unfolding pack_loop
pack_loop-IsCounted zero idx links = tt
pack_loop-IsCounted (suc fuel) idx [] = tt
pack_loop-IsCounted (suc fuel) idx (link ∷ links) =
    let count = min (duplicates link (link ∷ links)) 255 in
    (
      (omega (arith, duplicates_head link links), omega arith),
      pack_loop-IsCounted fuel ((idx + 1) % 256) (drop count (link ∷ links)),
    )

-- Interlinks of 32-byte ids that pack into at most 256 fields unpack to the same interlinks, and the
-- count of every field is a byte and not 0.
pub unpack_interlinks-pack_interlinks :
    (links : List (List ℕ))
    → All IsId links
    → length (pack_interlinks links) ≤ 256
    → (unpack_interlinks (pack_interlinks links) ≡ ok links) × All IsCounted (pack_interlinks links)
unfolding pack_interlinks unpack_interlinks
unpack_interlinks-pack_interlinks links a h =
    let fields = pack_interlinks links in
    let numbered = pack_loop-Numbered (length links) 0 links (omega (arith, h)) a in
    (
      rw (filter-Numbered 0 fields numbered, sort-Numbered 0 fields numbered)
          (unpack_loop-pack_loop (length links) 0 [] links (omega arith) a),
      pack_loop-IsCounted (length links) 0 links,
    )
