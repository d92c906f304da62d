-- ===== src/ByteArray/Varint.antt =====
-- captain/bytearray.cpp: numbers in groups of seven bits, and the zigzag code of signed numbers.
-- A number is its bit pattern; `width` is 32 or 64.
pub mod Groups
pub mod RoundTrip
pub mod Zigzag
use server_framework.Base.{
  ℕ, zero, suc, ◌+◌, ◌-◌, ◌*◌, ◌/◌, ◌%◌, ◌^◌, bit_and, bit_or, bit_xor, ltb, leb, if◌then◌else◌,
  List, [], ◌∷◌, Outcome, ok, fail, bad_access, out_of_fuel, ◌>>=◌,
}
use server_framework.ByteArray.{ByteArray, write}
use server_framework.ByteArray.Fixed.{read_fuint8}

-- The loop of `writeUint32` and `writeUint64`; `room` is what is left of the array `tmp`, which a
-- byte too many would overrun. `value >>= 7` is the division by 128.
unfoldable pub groups : ℕ → ℕ → Outcome (List ℕ)
groups zero value = fail bad_access
groups (suc room) value =
    let more = do
      bytes ← groups room (value / 128)
      ok (bit_or (bit_and value 0x7f) 0x80 % 256 ∷ bytes)
    in if leb 0x80 value then more else ok ((value % 256) ∷ [])

pub write_varint : ℕ → ByteArray → ℕ → Outcome ByteArray
unfolding groups
write_varint room s value = do tmp ← groups room value; write s tmp

-- `uint8_t tmp[5]`
pub write_uint32 : ByteArray → ℕ → Outcome ByteArray
unfolding write_varint
write_uint32 = write_varint 5

-- `uint8_t tmp[10]`
pub write_uint64 : ByteArray → ℕ → Outcome ByteArray
unfolding write_varint
write_uint64 = write_varint 10

-- `for(int i = 0; i < width; i += 7)`, from a value `i` of the counter on.
pub read_loop : ℕ → ℕ → ℕ → ℕ → ByteArray → Outcome (ℕ × ByteArray)
read_loop zero width i result s = fail out_of_fuel
read_loop (suc fuel) width i result s =
    let round = do
      (b, t) ← read_fuint8 s
      let last : Outcome (ℕ × ByteArray) = ok (bit_or result (b * 2 ^ i % 2 ^ width), t)
      let rest = read_loop fuel width (i + 7) (bit_or result (bit_and b 0x7f * 2 ^ i % 2 ^ width)) t
      if ltb b 0x80 then last else rest
    in if ltb i width then round else ok (result, s)

-- The counter passes 64 within ten rounds, and the eleventh ends the loop.
pub read_varint : ℕ → ByteArray → Outcome (ℕ × ByteArray)
unfolding read_loop
read_varint width s = read_loop 11 width 0 0 s

pub read_uint32 : ByteArray → Outcome (ℕ × ByteArray)
unfolding read_varint
read_uint32 = read_varint 32

pub read_uint64 : ByteArray → Outcome (ℕ × ByteArray)
unfolding read_varint
read_uint64 = read_varint 64

-- `-x` on a word of `width` bits.
abbrev pub negate : ℕ → ℕ → ℕ
negate width x = (2 ^ width - x) % 2 ^ width

-- `EncodeZigzag32` and `EncodeZigzag64` on the pattern `v` of a signed number, which is below 0 if
-- its top bit is set. The signed product and negation wrap, as the compilers in use make them.
unfoldable pub encode_zigzag : ℕ → ℕ → ℕ
encode_zigzag width v =
    if leb (2 ^ (width - 1)) v
    then (negate width v * 2 % 2 ^ width + 2 ^ width - 1) % 2 ^ width
    else v * 2 % 2 ^ width

-- `(v >> 1) ^ -(v & 1)`
pub decode_zigzag : ℕ → ℕ → ℕ
decode_zigzag width v = bit_xor (v / 2) (negate width (bit_and v 1))

pub write_int32 : ByteArray → ℕ → Outcome ByteArray
unfolding write_uint32 encode_zigzag
write_int32 s value = write_uint32 s (encode_zigzag 32 value)

pub write_int64 : ByteArray → ℕ → Outcome ByteArray
unfolding write_uint64 encode_zigzag
write_int64 s value = write_uint64 s (encode_zigzag 64 value)

pub read_zigzag : ℕ → (ByteArray → Outcome (ℕ × ByteArray)) → ByteArray → Outcome (ℕ × ByteArray)
read_zigzag width reads s = do (u, t) ← reads s; ok (decode_zigzag width u, t)

pub read_int32 : ByteArray → Outcome (ℕ × ByteArray)
unfolding read_zigzag
read_int32 = read_zigzag 32 read_uint32

pub read_int64 : ByteArray → Outcome (ℕ × ByteArray)
unfolding read_zigzag
read_int64 = read_zigzag 64 read_uint64
