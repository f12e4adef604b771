-- ===== src/Nipopow/Interlinks.antt =====
-- The interlinks of a block, crates/ergo-consensus/src/nipopow/interlinks.rs. A block id is the list
-- of its bytes.
use ergo_rust_node.Prelude.{
  ℕ, zero, suc, ◌+◌, ◌-◌, ◌%◌, min, Bool, true, false, ◌&&◌, List, [], ◌∷◌, ◌++◌, ltb, leb, ◌==◌,
  if◌then◌else◌, length, take, drop, filter, replicate, Result, ok, err,
}

abbrev pub interlinks_vector_prefix : ℕ
interlinks_vector_prefix = 1

-- Equality of byte arrays.
unfoldable pub same_bytes : List ℕ → List ℕ → Bool
same_bytes [] [] = true
same_bytes [] (b ∷ bs) = false
same_bytes (a ∷ as_) [] = false
same_bytes (a ∷ as_) (b ∷ bs) = a == b && same_bytes as_ bs

-- `take_while(|id| id == link).count()`
unfoldable pub duplicates : List ℕ → List (List ℕ) → ℕ
duplicates link [] = 0
duplicates link (id ∷ ids) =
    let rest = duplicates link ids in if same_bytes id link then suc rest else 0

-- A key and a value of the extension of a block.
abbrev pub Field : Type 0
Field = List ℕ × List ℕ

-- The loop of `pack_interlinks` on the links from `i` on; there is fuel for every link.
unfoldable pub pack_loop : ℕ → ℕ → List (List ℕ) → List Field
pack_loop zero idx links = []
pack_loop (suc fuel) idx [] = []
pack_loop (suc fuel) idx (link ∷ links) =
    let count = min (duplicates link (link ∷ links)) 255 in
    (interlinks_vector_prefix ∷ idx ∷ [], count ∷ link)
    ∷ pack_loop fuel ((idx + 1) % 256) (drop count (link ∷ links))

unfoldable pub pack_interlinks : List (List ℕ) → List Field
pack_interlinks links = pack_loop (length links) 0 links

unfoldable pub is_interlink : Field → Bool
is_interlink (a ∷ b ∷ [], value) = a == interlinks_vector_prefix && length value == 33
is_interlink (key, value) = false

-- The byte at a position; the positions in use are in range.
abbrev pub byte_at : ℕ → List ℕ → ℕ
byte_at n [] = 0
byte_at zero (b ∷ bs) = b
byte_at (suc n) (b ∷ bs) = byte_at n bs

-- `sort_by_key(|(key, _)| key[1])`, which is stable.
unfoldable pub insert_by_index : Field → List Field → List Field
insert_by_index f [] = f ∷ []
insert_by_index f (g ∷ gs) =
    let rest = insert_by_index f gs in
    if leb (byte_at 1 f.0) (byte_at 1 g.0) then f ∷ g ∷ gs else g ∷ rest

unfoldable pub sort_by_index : List Field → List Field
sort_by_index [] = []
sort_by_index (f ∷ fs) = insert_by_index f (sort_by_index fs)

pub data InterlinksError : Type 0 where
  zero_count : InterlinksError

unfoldable pub unpack_loop : List (List ℕ) → List Field → Result InterlinksError (List (List ℕ))
unpack_loop result [] = ok result
unpack_loop result ((key, value) ∷ fields) =
    let rest =
      unpack_loop (result ++ replicate (byte_at 0 value) (take 32 (drop 1 value))) fields in
    if byte_at 0 value == 0 then err zero_count else rest

unfoldable pub unpack_interlinks : List Field → Result InterlinksError (List (List ℕ))
unpack_interlinks fields = unpack_loop [] (sort_by_index (filter is_interlink fields))

unfoldable pub update_interlinks {ℓ} : {A : Type ℓ} → A → ℕ → List A → Bool → List A
update_interlinks prev_header_id prev_level prev_interlinks true = prev_header_id ∷ []
update_interlinks prev_header_id prev_level [] false = prev_header_id ∷ []
update_interlinks prev_header_id zero (genesis ∷ tail) false = genesis ∷ tail
update_interlinks prev_header_id (suc n) (genesis ∷ tail) false =
    genesis
    ∷ ((if ltb (suc n) (length tail) then take (length tail - suc n) tail else [])
        ++ replicate (suc n) prev_header_id)
