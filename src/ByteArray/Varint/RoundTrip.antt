-- ===== src/ByteArray/Varint/RoundTrip.antt =====
-- Numbers of variable length through the array.
use server_framework.Base.{
  ℕ, ◌+◌, ◌^◌, ◌≤◌, ◌<◌, ◌≡◌, ap, ◌∙◌, List, length, drop, Outcome, ok, ◌>>=◌, >>=-then, >>=-extend,
  arith,
}
use server_framework.ByteArray.{ByteArray, write, set_position}
use server_framework.ByteArray.Invariant.{IsValid}
use server_framework.ByteArray.WriteFile.{HasRoom}
use server_framework.ByteArray.Stream.{unread, write-unread}
use server_framework.ByteArray.Varint.{
  groups, write_varint, read_varint, write_uint32, read_uint32, write_uint64, read_uint64,
  write_int32, read_int32, write_int64, read_int64, encode_zigzag, decode_zigzag, read_zigzag,
}
use server_framework.ByteArray.Varint.Groups.{read_loop-groups}
use server_framework.ByteArray.Varint.Zigzag.{
  decode-encode_zigzag32, encode_zigzag32-lt, decode-encode_zigzag64, encode_zigzag64-lt,
}

-- The value that a reader gives, and where it ends.
abbrev pub Rereads :
    (ByteArray → Outcome ByteArray)
    → (ByteArray → Outcome (ℕ × ByteArray))
    → ByteArray
    → ℕ
    → ℕ
    → Type 0
Rereads writes reads s value n =
    (t : ByteArray) × ((writes s >>= λ w. set_position w s.position >>= reads) ≡ ok (value, t))
    × IsValid t
    × (t.position ≡ s.position + n)

write_varint-write :
    (room : ℕ) (s : ByteArray) (value : ℕ) (bytes : List ℕ)
    → groups room value ≡ ok bytes
    → write_varint room s value ≡ write s bytes
unfolding write_varint
write_varint-write room s value bytes e = rw e

varint_round_trip :
    (room width : ℕ) (s : ByteArray) (value : ℕ) (bytes : List ℕ)
    → IsValid s
    → room ≤ 11
    → 0 < width
    → value < 2 ^ width
    → groups room value ≡ ok bytes
    → HasRoom s (length bytes)
    → Rereads (λ s. write_varint room s value) (read_varint width) s value (length bytes)
unfolding read_varint
varint_round_trip room width s value bytes v enough pos small coded has_room =
    let (u, back, u-valid, u-position, u-unread, u-order) = write-unread s bytes v has_room in
    let (t, run, t-valid, t-unread, t-position) =
      read_loop-groups room 11 width 0 0 value bytes (drop (length bytes) (unread s)) u coded enough
        u-valid u-unread pos (omega arith) (omega arith) in
    (
      t,
      ap (λ m. m >>= λ w. set_position w s.position >>= read_varint width)
            (write_varint-write room s value bytes coded)
          ∙ >>=-then (write s bytes) (λ w. set_position w s.position) (read_varint width) back
              (run ∙ ap (λ m. ok (m, t)) {y = value} (omega arith)),
      t-valid,
      t-position ∙ ap (λ m. m + length bytes) u-position,
    )

-- On a well-formed array with room for the groups of a 32-bit number, `readUint32` reads back
-- what `writeUint32` wrote, once the position is set back, and ends behind the groups with a
-- well-formed array.
pub read_uint32-write_uint32 :
    (s : ByteArray) (value : ℕ) (bytes : List ℕ)
    → IsValid s
    → value < 2 ^ 32
    → groups 5 value ≡ ok bytes
    → HasRoom s (length bytes)
    → Rereads (λ s. write_uint32 s value) read_uint32 s value (length bytes)
unfolding write_uint32 read_uint32
read_uint32-write_uint32 s value bytes v small coded has_room =
    varint_round_trip 5 32 s value bytes v (omega arith) (omega arith) small coded has_room

-- On a well-formed array with room for the groups of a 64-bit number, `readUint64` reads back
-- what `writeUint64` wrote, once the position is set back, and ends behind the groups with a
-- well-formed array.
pub read_uint64-write_uint64 :
    (s : ByteArray) (value : ℕ) (bytes : List ℕ)
    → IsValid s
    → value < 2 ^ 64
    → groups 10 value ≡ ok bytes
    → HasRoom s (length bytes)
    → Rereads (λ s. write_uint64 s value) read_uint64 s value (length bytes)
unfolding write_uint64 read_uint64
read_uint64-write_uint64 s value bytes v small coded has_room =
    varint_round_trip 10 64 s value bytes v (omega arith) (omega arith) small coded has_room

-- A reader that decodes what another reader gives.
decoded :
    (width : ℕ) (m : Outcome ByteArray) (p : ℕ) (reads : ByteArray → Outcome (ℕ × ByteArray))
    {u : ℕ} {t : ByteArray}
    → (m >>= λ w. set_position w p >>= reads) ≡ ok (u, t)
    → (m >>= λ w. set_position w p >>= read_zigzag width reads) ≡ ok (decode_zigzag width u, t)
unfolding read_zigzag
decoded width m p reads e =
    >>=-extend m (λ w. set_position w p) reads (λ r. ok (decode_zigzag width r.0, r.1)) e

-- `readInt32` reads back what `writeInt32` wrote, for every pattern of 32 bits, on a
-- well-formed array with room for the groups, once the position is set back, and ends behind
-- the groups.
pub read_int32-write_int32 :
    (s : ByteArray) (value : ℕ) (bytes : List ℕ)
    → IsValid s
    → value < 2 ^ 32
    → groups 5 (encode_zigzag 32 value) ≡ ok bytes
    → HasRoom s (length bytes)
    → Rereads (λ s. write_int32 s value) read_int32 s value (length bytes)
unfolding write_int32 read_int32
read_int32-write_int32 s value bytes v small coded has_room =
    let code = encode_zigzag 32 value in
    let (t, run, t-valid, t-position) =
      read_uint32-write_uint32 s code bytes v (encode_zigzag32-lt value small) coded has_room in
    (
      t,
      decoded 32 (write_uint32 s code) s.position read_uint32 run
          ∙ ap (λ m. ok (m, t)) (decode-encode_zigzag32 value small),
      t-valid,
      t-position,
    )

-- `readInt64` reads back what `writeInt64` wrote, for every pattern of 64 bits, on a
-- well-formed array with room for the groups, once the position is set back, and ends behind
-- the groups.
pub read_int64-write_int64 :
    (s : ByteArray) (value : ℕ) (bytes : List ℕ)
    → IsValid s
    → value < 2 ^ 64
    → groups 10 (encode_zigzag 64 value) ≡ ok bytes
    → HasRoom s (length bytes)
    → Rereads (λ s. write_int64 s value) read_int64 s value (length bytes)
unfolding write_int64 read_int64
read_int64-write_int64 s value bytes v small coded has_room =
    let code = encode_zigzag 64 value in
    let (t, run, t-valid, t-position) =
      read_uint64-write_uint64 s code bytes v (encode_zigzag64-lt value small) coded has_room in
    (
      t,
      decoded 64 (write_uint64 s code) s.position read_uint64 run
          ∙ ap (λ m. ok (m, t)) (decode-encode_zigzag64 value small),
      t-valid,
      t-position,
    )
