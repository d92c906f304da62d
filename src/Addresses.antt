-- ===== src/Addresses.antt =====
-- captain/address.cpp: masks, broadcast addresses and networks of IPv4 and IPv6 addresses, and how
-- they are printed.
-- Numbers stand as `byteswapOnLittleEndian` shows them, in the byte order of the machine: the bit
-- operations on single bytes commute with it. An IPv6 address is its sixteen bytes. The look-up of
-- names and interfaces is the system's.
mod Subnets
mod Examples
use server_framework.Base.{
  ℕ, zero, suc, ◌+◌, ◌-◌, ◌*◌, ◌/◌, ◌%◌, ◌^◌, bit_and, bit_or, Bool, true, false, ltb, leb,
  if◌then◌else◌, size_sub, Option, none, some, List, [], ◌∷◌, ◌++◌, length, get_elem?, set, take,
  replicate, Outcome, ok, fail, bad_access, bad_shift, out_of_range, or_fail, ◌>>=◌,
}
use server_framework.Base.Decimals.{to_decimal}

-- `CreateMask<T>` for a `T` of `width` bits. The shift and the subtraction are those of `int`.
pub create_mask : ℕ → ℕ → Outcome ℕ
create_mask width bits =
    let by = size_sub width bits in
    if leb 31 by then fail bad_shift else ok ((2 ^ by - 1) % 2 ^ width)

pub record IPv4Address : Type 0 where
  pub addr : ℕ
  pub port : ℕ

-- `IPv4Address(address, port)`
pub new_ipv4 : ℕ → ℕ → IPv4Address
new_ipv4 address port = record { addr = address; port = port }

-- `broadcastAddress` of an IPv4 address; a null pointer is `none`.
pub broadcast_v4 : IPv4Address → ℕ → Outcome (Option IPv4Address)
broadcast_v4 a prefix_len =
    let masked =
      create_mask 32 prefix_len >>= λ m. ok (some (record a { addr = bit_or a.addr m })) in
    if ltb 32 prefix_len then ok none else masked

-- `networdAddress`
pub network_v4 : IPv4Address → ℕ → Outcome (Option IPv4Address)
network_v4 a prefix_len =
    let masked =
      create_mask 32 prefix_len >>= λ m. ok (some (record a { addr = bit_and a.addr m })) in
    if ltb 32 prefix_len then ok none else masked

-- `subnetMask`
pub subnet_v4 : ℕ → Outcome IPv4Address
subnet_v4 prefix_len =
    create_mask 32 prefix_len >>= λ m. ok (record { addr = 2 ^ 32 - 1 - m; port = 0 })

-- `insert`: "a.b.c.d:port"
pub print_v4 : IPv4Address → List ℕ
print_v4 a =
    to_decimal (a.addr / 2 ^ 24 % 256)
    ++ (46 ∷ to_decimal (a.addr / 2 ^ 16 % 256)
        ++ (46 ∷ to_decimal (a.addr / 2 ^ 8 % 256)
            ++ (46 ∷ to_decimal (a.addr % 256) ++ 58 ∷ to_decimal a.port)))

pub record IPv6Address : Type 0 where
  pub bytes : List ℕ
  pub port : ℕ

-- The bytes up to an index, the byte there changed, and `v` in all that follow.
abbrev pub change_tail : List ℕ → ℕ → (ℕ → ℕ) → ℕ → List ℕ
change_tail [] i f v = []
change_tail (b ∷ bs) zero f v = f b ∷ replicate (length bs) v
change_tail (b ∷ bs) (suc i) f v = b ∷ change_tail bs i f v

-- The byte at `prefix_len / 8`, which has to be there.
abbrev pub byte_there : List ℕ → ℕ → Outcome ℕ
byte_there bytes prefix_len = or_fail (get_elem? bytes (prefix_len / 8)) bad_access

pub broadcast_v6 : IPv6Address → ℕ → Outcome IPv6Address
broadcast_v6 a prefix_len = do
  b ← byte_there a.bytes prefix_len
  m ← create_mask 8 (prefix_len % 8)
  ok (record a { bytes = change_tail a.bytes (prefix_len / 8) (λ x. bit_or x m) 255 })

pub network_v6 : IPv6Address → ℕ → Outcome IPv6Address
network_v6 a prefix_len = do
  b ← byte_there a.bytes prefix_len
  m ← create_mask 8 (prefix_len % 8)
  ok (record a { bytes = change_tail a.bytes (prefix_len / 8) (λ x. bit_and x m) 0 })

-- `memcmp` of buffers of one length, as a test for less.
pub mem_less : List ℕ → List ℕ → Bool
mem_less [] ys = false
mem_less (x ∷ xs) [] = false
mem_less (x ∷ xs) (y ∷ ys) =
    let rest = mem_less xs ys in if ltb x y then true else (if ltb y x then false else rest)

-- `operator<` on the bytes of two addresses: the common part, then the length.
pub less_address : List ℕ → List ℕ → Bool
less_address xs ys =
    if mem_less xs ys then true else (if mem_less ys xs then false else ltb (length xs) (length ys))
