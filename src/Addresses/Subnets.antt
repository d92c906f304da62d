-- ===== src/Addresses/Subnets.antt =====
-- An address cut by the length of a prefix.
use server_framework.Base.{
  ℕ, ◌+◌, ◌-◌, ◌*◌, ◌%◌, ◌^◌, ◌≤◌, ◌<◌, ◌≡◌, refl, ltb-false, leb-false, le→leb, size_sub, some, ok,
  arith,
}
use native.Mathlib.Nat.{pow-le-pow_right, one-le-pow}
use server_framework.Base.Masks.{bit_and-ones, bit_or-ones}
use server_framework.Addresses.{create_mask, IPv4Address, broadcast_v4, network_v4, subnet_v4}

small : (host : ℕ) → host ≤ 30 → (2 ^ host - 1) % 2 ^ 32 ≡ 2 ^ host - 1
small host h =
    let bound : 2 ^ host ≤ 2 ^ 30 = pow-le-pow_right {n = 2} (omega arith) h in omega (arith, bound)

-- The prefix and the rest make up the 32 bits.
mask_v4 :
    (prefix_len host : ℕ)
    → 2 ≤ prefix_len
    → prefix_len + host ≡ 32
    → create_mask 32 prefix_len ≡ ok (2 ^ host - 1)
unfolding create_mask
mask_v4 prefix_len host h e =
    let same : size_sub 32 prefix_len ≡ host = ground (arith, le→leb prefix_len 32) in
    rw (same, leb-false 31 host (omega arith), small host (omega arith)) refl

abbrev pub cut : ℕ → ℕ → ℕ → ℕ → IPv4Address
cut host high low port = record { addr = high * 2 ^ host + low; port = port }

broadcast_v4-cut :
    (high low prefix_len host port : ℕ)
    → 2 ≤ prefix_len
    → prefix_len + host ≡ 32
    → low < 2 ^ host
    → broadcast_v4 (cut host high low port) prefix_len
      ≡ ok (some (cut host high (2 ^ host - 1) port))
unfolding broadcast_v4
broadcast_v4-cut high low prefix_len host port h e l =
    rw
      (
        ltb-false 32 prefix_len (omega arith),
        mask_v4 prefix_len host h e,
        bit_or-ones host high low l,
      )
      refl

network_v4-cut :
    (high low prefix_len host port : ℕ)
    → 2 ≤ prefix_len
    → prefix_len + host ≡ 32
    → low < 2 ^ host
    → network_v4 (cut host high low port) prefix_len
      ≡ ok (some (record { addr = low; port = port }))
unfolding network_v4
network_v4-cut high low prefix_len host port h e l =
    rw
      (
        ltb-false 32 prefix_len (omega arith),
        mask_v4 prefix_len host h e,
        bit_and-ones host high low l,
      )
      refl

subnet_v4-cut :
    (prefix_len host : ℕ)
    → 2 ≤ prefix_len
    → prefix_len + host ≡ 32
    → subnet_v4 prefix_len ≡ ok (record { addr = 2 ^ 32 - 2 ^ host; port = 0 })
unfolding subnet_v4
subnet_v4-cut prefix_len host h e =
    let low : host ≤ 30 = omega arith in
    let bound : 2 ^ host ≤ 2 ^ 30 = pow-le-pow_right {n = 2} (omega arith) low in
    let full : 2 ^ 32 - 1 - (2 ^ host - 1) ≡ 2 ^ 32 - 2 ^ host =
      omega (arith, bound, one-le-pow host 2) in
    rw (mask_v4 prefix_len host h e, full) refl

-- For a prefix of 2 to 32 bits, `broadcastAddress` of an IPv4 address sets all bits behind the
-- prefix, `subnetMask` has the bits of the prefix set and those behind it clear, not the
-- reverse as its comment says, and `networdAddress` is not the network but the bits behind the
-- prefix.
pub subnets_v4 :
    (high low prefix_len host port : ℕ)
    → 2 ≤ prefix_len
    → prefix_len + host ≡ 32
    → low < 2 ^ host
    → (broadcast_v4 (cut host high low port) prefix_len
        ≡ ok (some (cut host high (2 ^ host - 1) port)))
      × (network_v4 (cut host high low port) prefix_len
          ≡ ok (some (record { addr = low; port = port })))
      × (subnet_v4 prefix_len ≡ ok (record { addr = 2 ^ 32 - 2 ^ host; port = 0 }))
subnets_v4 high low prefix_len host port h e l = (
  broadcast_v4-cut high low prefix_len host port h e l,
  network_v4-cut high low prefix_len host port h e l,
  subnet_v4-cut prefix_len host h e,
)
