-- ===== src/ByteArray/Fixed/RoundTrip.antt =====
-- Fixed-width numbers through the array.
use server_framework.Base.{
  ℕ, ◌+◌, ◌^◌, ◌<◌, ◌≡◌, sym, ap, ◌∙◌, subst, >>=-then, List, [], ◌∷◌, ◌++◌, length, drop, ok,
  ◌>>=◌, arith, if◌then◌else◌,
}
use server_framework.ByteArray.{ByteArray, Endian, write, read, set_position}
use server_framework.ByteArray.Invariant.{IsValid}
use server_framework.ByteArray.WriteFile.{HasRoom}
use server_framework.ByteArray.Stream.{unread, read-prefix, write-unread}
use server_framework.ByteArray.Fixed.{
  write_fixed, read_fixed, from_object, byteswap, same_endian, read_fuint8,
}
use server_framework.ByteArray.Fixed.Order.{wire, length-wire, object_bytes-wire, from_object-wire}

-- A host of either order writes the same bytes.
pub write_fixed-wire :
    (host : Endian) (n : ℕ) (s : ByteArray) (value : ℕ)
    → write_fixed host n s value ≡ write s (wire s.endian n value)
unfolding write_fixed
write_fixed-wire host n s value = ap (write s) (object_bytes-wire host s.endian n value)

read_fixed_steps :
    (host : Endian) (n : ℕ) (s t : ByteArray) (bytes : List ℕ)
    → read s n ≡ ok (bytes, t)
    → read_fixed host n s
      ≡ ok (
        if same_endian s.endian host
            then from_object host bytes
            else byteswap n (from_object host bytes),
        t,
      )
unfolding read_fixed
read_fixed_steps host n s t bytes e = rw e

-- A host of either order reads the number of which the wire holds the bytes.
pub read_fixed-wire :
    (host : Endian) (n : ℕ) (s : ByteArray) (value : ℕ) (ys : List ℕ)
    → IsValid s
    → unread s ≡ wire s.endian n value ++ ys
    → 0 < n
    → value < 256 ^ n
    → (t : ByteArray) × (read_fixed host n s ≡ ok (value, t))
      × IsValid t
      × (unread t ≡ ys)
      × (t.position ≡ s.position + n)
read_fixed-wire host n s value ys v e pos small =
    let bytes = wire s.endian n value in
    let size = length-wire s.endian n value in
    let (t, run, t-valid, t-unread, t-contents, t-position) =
      read-prefix s bytes ys v e (omega arith) in
    (
      t,
      read_fixed_steps host n s t bytes (ap (read s) (sym size) ∙ run)
          ∙ ap (λ m. ok (m, t)) (from_object-wire host s.endian n value small),
      t-valid,
      t-unread,
      t-position ∙ ap (λ m. s.position + m) size,
    )

-- A number below `256 ^ n` that a machine of one byte order writes in `n` bytes, on a
-- well-formed array with room, is read back by a machine of any byte order, once the position
-- is set back; the reader ends `n` bytes behind the old position, on a well-formed array.
pub read_fixed-write_fixed :
    (writer reader : Endian) (n : ℕ) (s : ByteArray) (value : ℕ)
    → IsValid s
    → 0 < n
    → value < 256 ^ n
    → HasRoom s n
    → (t : ByteArray) × ((write_fixed writer n s value >>= λ w.
          set_position w s.position >>= read_fixed reader n)
        ≡ ok (value, t))
      × IsValid t
      × (t.position ≡ s.position + n)
read_fixed-write_fixed writer reader n s value v pos small room =
    let bytes = wire s.endian n value in
    let size = length-wire s.endian n value in
    let (u, back, u-valid, u-position, u-unread, u-order) =
      write-unread s bytes v (subst (HasRoom s) (sym size) room) in
    let (t, run, t-valid, t-unread, t-position) =
      read_fixed-wire reader n u value (drop (length bytes) (unread s)) u-valid
        (u-unread ∙ ap (λ e. wire e n value ++ drop (length bytes) (unread s)) (sym u-order)) pos
        small in
    (
      t,
      ap (λ m. m >>= λ w. set_position w s.position >>= read_fixed reader n)
            (write_fixed-wire writer n s value)
          ∙ >>=-then (write s bytes) (λ w. set_position w s.position) (read_fixed reader n) back
              run,
      t-valid,
      t-position ∙ ap (λ m. m + n) u-position,
    )

-- One byte is read as it stands.
pub read_fuint8-byte :
    (s : ByteArray) (b : ℕ) (ys : List ℕ)
    → IsValid s
    → unread s ≡ b ∷ ys
    → (t : ByteArray) × (read_fuint8 s ≡ ok (b, t))
      × IsValid t
      × (unread t ≡ ys)
      × (t.position ≡ s.position + 1)
unfolding read_fuint8
read_fuint8-byte s b ys v e =
    let (t, run, t-valid, t-unread, t-contents, t-position) =
      read-prefix s (b ∷ []) ys v e (omega arith) in
    (t, rw run, t-valid, t-unread, t-position)
