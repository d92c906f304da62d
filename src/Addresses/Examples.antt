-- ===== src/Addresses/Examples.antt =====
-- The address 192.168.1.77 in a network of 24 bits.
use server_framework.Base.{◌-◌, ◌^◌, ◌≡◌, refl, some, ok, arith}
use server_framework.Addresses.{broadcast_v4, network_v4, subnet_v4}
use server_framework.Addresses.Subnets.{cut, subnets_v4}

subnets_v4_example :
    (broadcast_v4 (cut 8 0xc0a801 77 80) 24 ≡ ok (some (cut 8 0xc0a801 (2 ^ 8 - 1) 80)))
    × (network_v4 (cut 8 0xc0a801 77 80) 24 ≡ ok (some (record { addr = 77; port = 80 })))
    × (subnet_v4 24 ≡ ok (record { addr = 2 ^ 32 - 2 ^ 8; port = 0 }))
subnets_v4_example = subnets_v4 0xc0a801 77 24 8 80 (omega arith) refl (omega arith)
