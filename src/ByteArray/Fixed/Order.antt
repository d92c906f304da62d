-- ===== src/ByteArray/Fixed/Order.antt =====
-- Bytes and numbers, and the order on the wire.
use server_framework.Base.{
  ℕ, zero, suc, ◌+◌, ◌*◌, ◌/◌, ◌%◌, ◌^◌, ◌<◌, ◌≡◌, refl, sym, ap, ◌∙◌, not, if◌then◌else◌, List, [],
  ◌∷◌, All, All-append, length, length-append, arith,
}
use server_framework.ByteArray.{Endian, little_endian, big_endian}
use server_framework.ByteArray.Fixed.{
  same_endian, le_bytes, from_le, object_bytes, from_object, byteswap,
}
use mathlib.Core.List.{reverse, reverse-reverse, reverse-cons}
use native.Mathlib.Nat.{pow-suc}

abbrev pub IsByte : ℕ → Type 0
IsByte b = b < 256

pub length-le_bytes : (n v : ℕ) → length (le_bytes n v) ≡ n
unfolding le_bytes
length-le_bytes zero v = refl
length-le_bytes (suc n) v = ap suc (length-le_bytes n (v / 256))

pub length-reverse {ℓ} : {A : Type ℓ} (xs : List A) → length (reverse xs) ≡ length xs
length-reverse [] = refl
length-reverse (x ∷ xs) =
    omega
      (arith, ap length (reverse-cons x xs), length-append (reverse xs) (x ∷ []), length-reverse xs)

pub from_le-le_bytes : (n v : ℕ) → v < 256 ^ n → from_le (le_bytes n v) ≡ v
unfolding le_bytes from_le
from_le-le_bytes zero v h = omega arith
from_le-le_bytes (suc n) v h =
    let rest = from_le-le_bytes n (v / 256) (omega (arith, pow-suc 256 n)) in omega arith

le_bytes-from_le : (bs : List ℕ) → All IsByte bs → le_bytes (length bs) (from_le bs) ≡ bs
unfolding le_bytes from_le
le_bytes-from_le [] h = refl
le_bytes-from_le (b ∷ bs) h =
    let low : (b + from_le bs * 256) % 256 ≡ b = omega arith in
    let high : (b + from_le bs * 256) / 256 ≡ from_le bs = omega arith in
    rw (low, high) (ap (◌∷◌ b) (le_bytes-from_le bs h.1))

le_bytes-IsByte : (n v : ℕ) → All IsByte (le_bytes n v)
unfolding le_bytes
le_bytes-IsByte zero v = tt
le_bytes-IsByte (suc n) v = (omega arith, le_bytes-IsByte n (v / 256))

All-reverse {ℓ κ} : {A : Type ℓ} (P : A → Type κ) (xs : List A) → All P xs → All P (reverse xs)
All-reverse P [] h = tt
All-reverse P (x ∷ xs) h =
    rw (reverse-cons x xs) (All-append P (reverse xs) (x ∷ []) (All-reverse P xs h.1) (h.0, tt))

-- The bytes of a swapped number are the bytes of the number, in reverse order.
pub le_bytes-byteswap : (n v : ℕ) → le_bytes n (byteswap n v) ≡ reverse (le_bytes n v)
unfolding byteswap
le_bytes-byteswap n v =
    let bs = reverse (le_bytes n v) in
    ap (λ m. le_bytes m (from_le bs)) (sym (length-reverse (le_bytes n v) ∙ length-le_bytes n v))
    ∙ le_bytes-from_le bs (All-reverse IsByte (le_bytes n v) (le_bytes-IsByte n v))

byteswap_twice : (n v : ℕ) → v < 256 ^ n → byteswap n (byteswap n v) ≡ v
unfolding byteswap
byteswap_twice n v h =
    ap (λ bs. from_le (reverse bs)) (le_bytes-byteswap n v)
    ∙ ap from_le (reverse-reverse (le_bytes n v))
    ∙ from_le-le_bytes n v h

-- The bytes of a number in a given order: what stands on the wire.
pub wire : Endian → ℕ → ℕ → List ℕ
wire little_endian n v = le_bytes n v
wire big_endian n v = reverse (le_bytes n v)

pub length-wire : (e : Endian) (n v : ℕ) → length (wire e n v) ≡ n
unfolding wire
length-wire little_endian n v = length-le_bytes n v
length-wire big_endian n v = length-reverse (le_bytes n v) ∙ length-le_bytes n v

-- Whatever the host's order, the bytes that are written stand in the order of the array.
pub object_bytes-wire :
    (host e : Endian) (n v : ℕ)
    → object_bytes host n (if not (same_endian e host) then byteswap n v else v) ≡ wire e n v
unfolding object_bytes wire
object_bytes-wire little_endian little_endian n v = refl
object_bytes-wire little_endian big_endian n v = le_bytes-byteswap n v
object_bytes-wire big_endian little_endian n v =
    ap reverse (le_bytes-byteswap n v) ∙ reverse-reverse (le_bytes n v)
object_bytes-wire big_endian big_endian n v = refl

-- Whatever the host's order, a number is got back from its bytes on the wire.
pub from_object-wire :
    (host e : Endian) (n v : ℕ)
    → v < 256 ^ n
    → (if same_endian e host
        then from_object host (wire e n v)
        else byteswap n (from_object host (wire e n v)))
      ≡ v
unfolding from_object wire byteswap
from_object-wire little_endian little_endian n v h = from_le-le_bytes n v h
from_object-wire little_endian big_endian n v h = byteswap_twice n v h
from_object-wire big_endian little_endian n v h = byteswap_twice n v h
from_object-wire big_endian big_endian n v h =
    ap from_le (reverse-reverse (le_bytes n v)) ∙ from_le-le_bytes n v h
