-- ===== src/Vlq.antt =====
-- Variable-length quantities, as in crates/ergo-network/src/message.rs and handshake.rs,
-- crates/ergo-state/src/snapshots.rs and crates/ergo-consensus/src/block.rs.
pub mod RoundTrip
mod Tests
use ergo_rust_node.Prelude.{
  ℕ, zero, suc, ◌+◌, ◌-◌, ◌*◌, ◌/◌, ◌%◌, ◌^◌, Bool, true, false, not, List, [], ◌∷◌, ltb, ◌==◌,
  if◌then◌else◌, Result, ok, err, u64_mod,
}

pub data VlqError : Type 0 where
  truncated : VlqError
  overflow : VlqError

-- The rounds of the loop on what is left of the data. The bits of `result` are those below `shift`,
-- so `|=` is an addition; a shift at `u64` drops the bits above.
unfoldable pub decode_loop : List ℕ → ℕ → ℕ → ℕ → Result VlqError (ℕ × ℕ)
decode_loop [] result shift pos = err truncated
decode_loop (byte ∷ bytes) result shift pos =
    let result' = result + (byte % 128 * 2 ^ shift) % u64_mod in
    let rest = decode_loop bytes result' (shift + 7) (pos + 1) in
    if byte / 128 % 2 == 0
    then ok (result', pos + 1)
    else if ltb 63 (shift + 7)
    then err overflow
    else rest

-- The value, and the position after it.
unfoldable pub vlq_decode : List ℕ → ℕ → Result VlqError (ℕ × ℕ)
vlq_decode bytes pos = decode_loop bytes 0 0 pos

-- The bytes that are pushed. A `u64` takes at most 10 rounds of the loop.
unfoldable pub encode_loop : ℕ → ℕ → List ℕ
encode_loop zero value = []
encode_loop (suc rounds) value =
    let rest = encode_loop rounds (value / 128) in
    if value / 128 == 0 then value % 128 ∷ [] else (value % 128 + 128) ∷ rest

unfoldable pub vlq_encode : ℕ → List ℕ
vlq_encode value = encode_loop 10 value

unfoldable pub byte_len_loop : ℕ → ℕ → ℕ
byte_len_loop zero v = 0
byte_len_loop (suc rounds) v =
    let rest = byte_len_loop rounds (v / 128) in if ltb 0 v then suc rest else 0

unfoldable pub vlq_byte_len : ℕ → ℕ
vlq_byte_len value = if value == 0 then 1 else byte_len_loop 10 value

-- An `i64` is its bit pattern. The arithmetic shift by 63 is 0 or all ones, and an exclusive or with
-- all ones takes the complement.
unfoldable pub zigzag : ℕ → ℕ
zigzag value =
    if ltb value (2 ^ 63) then (2 * value) % u64_mod else u64_mod - 1 - (2 * value) % u64_mod

unfoldable pub vlq_encode_signed : ℕ → List ℕ
unfolding zigzag
vlq_encode_signed value = vlq_encode (zigzag value)

unfoldable pub unzigzag : ℕ → ℕ
unzigzag encoded = if encoded % 2 == 0 then encoded / 2 else u64_mod - 1 - encoded / 2

unfoldable pub vlq_decode_signed : List ℕ → ℕ → Result VlqError (ℕ × ℕ)
unfolding unzigzag
vlq_decode_signed bytes pos = elim (vlq_decode bytes pos) [
  | err e ↦ err e
  | ok (encoded, new_pos) ↦ ok (unzigzag encoded, new_pos)
]
