-- ===== src/ByteArray/Text/RoundTrip.antt =====
-- Strings through the array: they come back as far as their length fits the number in front.
use server_framework.Base.{
  append_assoc, ℕ, ◌+◌, ◌%◌, ◌^◌, ◌≤◌, ◌<◌, ◌≡◌, sym, ap, ◌∙◌, subst, List, ◌++◌, length, take,
  drop, ok, ◌>>=◌, >>=-then, arith,
}
use server_framework.Base.Slices.{take-drop_split, length-take}
use server_framework.ByteArray.{ByteArray, Endian, read, set_position}
use server_framework.ByteArray.Invariant.{IsValid}
use server_framework.ByteArray.WriteFile.{HasRoom, WroteFile, write-write_at}
use server_framework.ByteArray.Stream.{unread, read-prefix, rewind, write_twice}
use server_framework.ByteArray.Fixed.{write_fixed, read_fixed}
use server_framework.ByteArray.Fixed.Order.{wire, length-wire}
use server_framework.ByteArray.Fixed.RoundTrip.{write_fixed-wire, read_fixed-wire}
use server_framework.ByteArray.Text.{write_string, read_string}
use native.Mathlib.Nat.{mod-lt, mod-le, one-le-pow}

-- Both writes of `write_string` have room.
abbrev pub StringRoom : Endian → ℕ → ByteArray → List ℕ → Type 0
StringRoom host n s value =
    HasRoom s n
    × ((t : ByteArray)
        → write_fixed host n s (length value % 256 ^ n) ≡ ok t
        → HasRoom t (length value))

write_string-WroteFile :
    (host : Endian) (n : ℕ) (s : ByteArray) (value : List ℕ)
    → IsValid s
    → StringRoom host n s value
    → WroteFile s (wire s.endian n (length value % 256 ^ n) ++ value) (write_string host n s value)
unfolding write_string
write_string-WroteFile host n s value v room =
    let len = length value % 256 ^ n in
    let size = length-wire s.endian n len in
    write_twice s (wire s.endian n len) value (write_fixed host n s len) v
      (subst (WroteFile s (wire s.endian n len)) (sym (write_fixed-wire host n s len))
        (write-write_at s (wire s.endian n len) v (subst (HasRoom s) (sym size) room.0)))
      room.1

read_string_steps :
    (host : Endian) (n : ℕ) (u w t : ByteArray) (len : ℕ) (str : List ℕ)
    → read_fixed host n u ≡ ok (len, w)
    → read w len ≡ ok (str, t)
    → read_string host n u ≡ ok (str, t)
unfolding read_string
read_string_steps host n u w t len str e k = rw (e, k)

-- A string written with a length of `n` bytes and read back, once the position is set back, by
-- a machine of any byte order, on a well-formed array with room for the length and the string,
-- comes back up to its length modulo `256 ^ n`, where that is not 0: whole where the string is
-- shorter than `256 ^ n`, cut short where it is not. The reader ends behind what it read, on a
-- well-formed array.
pub read_string-write_string :
    (writer reader : Endian) (n : ℕ) (s : ByteArray) (value : List ℕ)
    → IsValid s
    → 0 < n
    → 0 < length value % 256 ^ n
    → StringRoom writer n s value
    → (t : ByteArray) × ((write_string writer n s value >>= λ w.
          set_position w s.position >>= read_string reader n)
        ≡ ok (take (length value % 256 ^ n) value, t))
      × IsValid t
      × (t.position ≡ s.position + n + length value % 256 ^ n)
read_string-write_string writer reader n s value v pos some_bytes room =
    let len = length value % 256 ^ n in
    let front = wire s.endian n len in
    let behind = drop (length (front ++ value)) (unread s) in
    let (u, back, u-valid, u-position, u-unread, u-order) =
      rewind s (front ++ value) (write_string writer n s value) v
        (write_string-WroteFile writer n s value v room) in
    let (w, run, w-valid, w-unread, w-position) =
      read_fixed-wire reader n u len (value ++ behind) u-valid
        (u-unread
          ∙ append_assoc front value behind
          ∙ ap (λ e. wire e n len ++ (value ++ behind)) (sym u-order))
        pos (mod-lt (length value) (one-le-pow n 256 (omega arith))) in
    let short : len ≤ length value = mod-le (length value) (256 ^ n) in
    let part = length-take len value short in
    let (t, run', t-valid, t-unread, t-contents, t-position) =
      read-prefix w (take len value) (drop len value ++ behind) w-valid
        (w-unread
          ∙ ap (λ xs. xs ++ behind) (sym (take-drop_split len value))
          ∙ append_assoc (take len value) (drop len value) behind)
        (omega arith) in
    (
      t,
      >>=-then (write_string writer n s value) (λ w. set_position w s.position)
          (read_string reader n) back
          (read_string_steps reader n u w t len (take len value) run
            (ap (read w) (sym part) ∙ run')),
      t-valid,
      omega arith,
    )
