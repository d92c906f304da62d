-- ===== src/ByteArray/Varint/Zigzag.antt =====
-- The zigzag code is undone by its decoder, at both widths.
use server_framework.Base.{ℕ, ◌-◌, ◌/◌, ◌%◌, ◌^◌, ◌<◌, ◌≡◌, ◌∙◌, arith, le→leb, leb-false}
use server_framework.Base.Bits.{bit_and-one, bit_xor-zero, bit_xor-ones}
use server_framework.ByteArray.Varint.{encode_zigzag, decode_zigzag}
use native.Mathlib.Decide.{dec_le}

-- What the decoder does with an even and with an odd code.
decode_even : (u : ℕ) → u < 2 ^ 32 → u % 2 ≡ 0 → decode_zigzag 32 u ≡ u / 2
unfolding decode_zigzag
decode_even u h e = rw (bit_and-one u, e) (bit_xor-zero 32 (u / 2) (omega arith))

decode_odd : (u : ℕ) → u < 2 ^ 32 → u % 2 ≡ 1 → decode_zigzag 32 u ≡ 2 ^ 32 - 1 - u / 2
unfolding decode_zigzag
decode_odd u h e = rw (bit_and-one u, e) (omega (arith, bit_xor-ones 32 (u / 2) (omega arith)))

-- On every pattern of 32 bits, `DecodeZigzag32` undoes `EncodeZigzag32`.
pub decode-encode_zigzag32 : (v : ℕ) → v < 2 ^ 32 → decode_zigzag 32 (encode_zigzag 32 v) ≡ v
unfolding encode_zigzag
decode-encode_zigzag32 v h = elim (dec_le (2 ^ 31) v) [
  | yes below ↦
      rw (le→leb (2 ^ 31) v below) (decode_odd _ (omega arith) (omega arith) ∙ omega arith)
  | no above ↦
      rw (leb-false (2 ^ 31) v (omega arith))
        (decode_even _ (omega arith) (omega arith) ∙ omega arith)
]

decode_even64 : (u : ℕ) → u < 2 ^ 64 → u % 2 ≡ 0 → decode_zigzag 64 u ≡ u / 2
unfolding decode_zigzag
decode_even64 u h e = rw (bit_and-one u, e) (bit_xor-zero 64 (u / 2) (omega arith))

decode_odd64 : (u : ℕ) → u < 2 ^ 64 → u % 2 ≡ 1 → decode_zigzag 64 u ≡ 2 ^ 64 - 1 - u / 2
unfolding decode_zigzag
decode_odd64 u h e = rw (bit_and-one u, e) (omega (arith, bit_xor-ones 64 (u / 2) (omega arith)))

pub decode-encode_zigzag64 : (v : ℕ) → v < 2 ^ 64 → decode_zigzag 64 (encode_zigzag 64 v) ≡ v
unfolding encode_zigzag
decode-encode_zigzag64 v h = elim (dec_le (2 ^ 63) v) [
  | yes below ↦
      rw (le→leb (2 ^ 63) v below) (decode_odd64 _ (omega arith) (omega arith) ∙ omega arith)
  | no above ↦
      rw (leb-false (2 ^ 63) v (omega arith))
        (decode_even64 _ (omega arith) (omega arith) ∙ omega arith)
]

pub encode_zigzag32-lt : (v : ℕ) → v < 2 ^ 32 → encode_zigzag 32 v < 2 ^ 32
unfolding encode_zigzag
encode_zigzag32-lt v h = ground arith

pub encode_zigzag64-lt : (v : ℕ) → v < 2 ^ 64 → encode_zigzag 64 v < 2 ^ 64
unfolding encode_zigzag
encode_zigzag64-lt v h = ground arith
