-- ===== src/ByteArray/Text.antt =====
-- captain/bytearray.cpp: strings with their length in front, and `toHexString`.
-- A string is the list of its bytes.
pub mod RoundTrip
use server_framework.Base.{
  ℕ, zero, suc, ◌+◌, ◌-◌, ◌/◌, ◌%◌, ◌^◌, Bool, ltb, ◌==◌, ◌&&◌, if◌then◌else◌, List, [], ◌∷◌, ◌++◌,
  length, Outcome, ok, ◌>>=◌,
}
use server_framework.ByteArray.{ByteArray, Endian, write, read, to_string}
use server_framework.ByteArray.Fixed.{write_fixed, read_fixed}
use server_framework.ByteArray.Varint.{write_uint64, read_uint64}

-- `writeFuintN(value.size()); write(value.c_str(), value.size())`, with a length of `n` bytes: the
-- argument keeps what fits them.
pub write_string : Endian → ℕ → ByteArray → List ℕ → Outcome ByteArray
write_string host n s value = do t ← write_fixed host n s (length value % 256 ^ n); write t value

pub write_string_f16 : Endian → ByteArray → List ℕ → Outcome ByteArray
unfolding write_string
write_string_f16 host = write_string host 2

pub write_string_f32 : Endian → ByteArray → List ℕ → Outcome ByteArray
unfolding write_string
write_string_f32 host = write_string host 4

pub write_string_f64 : Endian → ByteArray → List ℕ → Outcome ByteArray
unfolding write_string
write_string_f64 host = write_string host 8

pub write_string_vint : ByteArray → List ℕ → Outcome ByteArray
write_string_vint s value = do t ← write_uint64 s (length value % 2 ^ 64); write t value

pub write_string_without_length : ByteArray → List ℕ → Outcome ByteArray
write_string_without_length s value = write s value

pub read_string : Endian → ℕ → ByteArray → Outcome (List ℕ × ByteArray)
read_string host n s = do (len, t) ← read_fixed host n s; read t len

pub read_string_f16 : Endian → ByteArray → Outcome (List ℕ × ByteArray)
unfolding read_string
read_string_f16 host = read_string host 2

pub read_string_f32 : Endian → ByteArray → Outcome (List ℕ × ByteArray)
unfolding read_string
read_string_f32 host = read_string host 4

pub read_string_f64 : Endian → ByteArray → Outcome (List ℕ × ByteArray)
unfolding read_string
read_string_f64 host = read_string host 8

pub read_string_vint : ByteArray → Outcome (List ℕ × ByteArray)
read_string_vint s = do (len, t) ← read_uint64 s; read t len

-- A digit of `std::hex`.
pub hex_digit : ℕ → ℕ
hex_digit d = if ltb d 10 then b'0' + d else b'a' + d - 10

-- The loop of `toHexString` from the index `i` on: two digits and a space a byte, 32 bytes a line.
pub hex_loop : ℕ → List ℕ → List ℕ
unfolding hex_digit
hex_loop i [] = []
hex_loop i (c ∷ cs) =
    (if ltb 0 i && (i % 32 == 0) then b'\n' ∷ [] else [])
    ++ (hex_digit (c / 16) ∷ hex_digit (c % 16) ∷ b' ' ∷ hex_loop (i + 1) cs)

pub to_hex_string : ByteArray → Outcome (List ℕ)
unfolding hex_loop
to_hex_string s = do str ← to_string s; ok (hex_loop 0 str)
