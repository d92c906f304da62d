-- ===== src/ByteArray/Fixed.antt =====
-- captain/bytearray.cpp, captain/include/endian.h: numbers of a fixed width.
-- A number is its bit pattern, so that a signed type and the unsigned type of its width share a
-- definition. `host` is `CAPTAIN_BYTE_ORDER`, the order in which the machine keeps a number's bytes.
pub mod Order
pub mod RoundTrip
use server_framework.Base.{
  ℕ, zero, suc, ◌+◌, ◌*◌, ◌/◌, ◌%◌, Bool, true, false, not, if◌then◌else◌, List, [], ◌∷◌, Outcome,
  ok, ◌>>=◌,
}
use server_framework.ByteArray.{ByteArray, Endian, little_endian, big_endian, write, read}
use mathlib.Core.List.{reverse}

abbrev pub same_endian : Endian → Endian → Bool
same_endian little_endian little_endian = true
same_endian little_endian big_endian = false
same_endian big_endian little_endian = false
same_endian big_endian big_endian = true

-- The lowest `n` bytes of a number, lowest first, and the number that such bytes stand for.
pub le_bytes : ℕ → ℕ → List ℕ
le_bytes zero v = []
le_bytes (suc n) v = (v % 256) ∷ le_bytes n (v / 256)

pub from_le : List ℕ → ℕ
from_le [] = 0
from_le (b ∷ bs) = b + from_le bs * 256

-- The bytes of an object of `n` bytes in the machine's memory, and the object that is read there.
pub object_bytes : Endian → ℕ → ℕ → List ℕ
unfolding le_bytes
object_bytes little_endian n v = le_bytes n v
object_bytes big_endian n v = reverse (le_bytes n v)

pub from_object : Endian → List ℕ → ℕ
unfolding from_le
from_object little_endian bs = from_le bs
from_object big_endian bs = from_le (reverse bs)

-- `bswap_16`, `bswap_32` and `bswap_64` of the C library: the bytes in reverse order.
pub byteswap : ℕ → ℕ → ℕ
unfolding le_bytes from_le
byteswap n v = from_le (reverse (le_bytes n v))

module _ (host : Endian) where
  -- `writeFint16` to `writeFuint64`: `n` is `sizeof(value)`.
  unfoldable pub write_fixed : ℕ → ByteArray → ℕ → Outcome ByteArray
  unfolding byteswap object_bytes
  write_fixed n s value =
      write s
        (object_bytes host n (if not (same_endian s.endian host) then byteswap n value else value))

  -- The macro `XX` of `readFint16` to `readFuint64`.
  pub read_fixed : ℕ → ByteArray → Outcome (ℕ × ByteArray)
  unfolding byteswap from_object
  read_fixed n s = do
    (bytes, t) ← read s n
    let v = from_object host bytes
    ok (if same_endian s.endian host then v else byteswap n v, t)

  pub write_fuint16 : ByteArray → ℕ → Outcome ByteArray
  unfolding write_fixed
  write_fuint16 = write_fixed 2

  pub write_fuint32 : ByteArray → ℕ → Outcome ByteArray
  unfolding write_fixed
  write_fuint32 = write_fixed 4

  pub write_fuint64 : ByteArray → ℕ → Outcome ByteArray
  unfolding write_fixed
  write_fuint64 = write_fixed 8

  pub read_fuint16 : ByteArray → Outcome (ℕ × ByteArray)
  unfolding read_fixed
  read_fuint16 = read_fixed 2

  pub read_fuint32 : ByteArray → Outcome (ℕ × ByteArray)
  unfolding read_fixed
  read_fuint32 = read_fixed 4

  pub read_fuint64 : ByteArray → Outcome (ℕ × ByteArray)
  unfolding read_fixed
  read_fuint64 = read_fixed 8

-- `writeFint8`, `writeFuint8` and their readers: one byte has no order.
pub write_fuint8 : ByteArray → ℕ → Outcome ByteArray
write_fuint8 s value = write s ((value % 256) ∷ [])

pub first_or : ℕ → List ℕ → ℕ
first_or d [] = d
first_or d (b ∷ bs) = b

pub read_fuint8 : ByteArray → Outcome (ℕ × ByteArray)
unfolding first_or
read_fuint8 s = do (bytes, t) ← read s 1; ok (first_or 0 bytes, t)
