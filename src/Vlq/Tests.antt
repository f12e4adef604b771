-- ===== src/Vlq/Tests.antt =====
-- The theorems at small numbers.
use ergo_rust_node.Prelude.{◌+◌, ◌≡◌, refl, [], ◌∷◌, ◌++◌, length, ok, err, arith}
use ergo_rust_node.Vlq.{
  overflow, vlq_decode, decode_loop, vlq_encode, encode_loop, vlq_byte_len, byte_len_loop,
  vlq_encode_signed, zigzag,
}
use ergo_rust_node.Vlq.RoundTrip

program :
    (vlq_encode 300 ≡ 172 ∷ 2 ∷ [])
    × (vlq_byte_len 300 ≡ 2)
    × (vlq_encode_signed 3 ≡ 6 ∷ [])
    × (vlq_decode (255 ∷ 255 ∷ 255 ∷ 255 ∷ 255 ∷ 255 ∷ 255 ∷ 255 ∷ 255 ∷ 255 ∷ 1 ∷ []) 0
        ≡ err overflow)
unfolding vlq_encode encode_loop vlq_byte_len byte_len_loop vlq_encode_signed zigzag vlq_decode
    decode_loop
program = (refl, refl, refl, refl)

vlq_decode-vlq_encode_example :
    (vlq_decode (vlq_encode 70_000 ++ 9 ∷ []) 4 ≡ ok (70_000, 4 + length (vlq_encode 70_000)))
    × (length (vlq_encode 70_000) ≡ vlq_byte_len 70_000)
vlq_decode-vlq_encode_example = RoundTrip.vlq_decode-vlq_encode 70_000 4 (9 ∷ []) (omega arith)
