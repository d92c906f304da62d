-- ===== src/Base/Decimals.antt =====
-- Numbers in decimal digits.
use Prim.Native.Nat.{ℕ, zero, suc, ◌+◌, ◌/◌, ◌%◌}
use mathlib.Core.List.{List, [], ◌∷◌, ◌++◌}
use server_framework.Base.Tests.{ltb, if◌then◌else◌}

-- A number as `operator<<` writes it.
unfoldable pub decimal : ℕ → ℕ → List ℕ
decimal zero n = []
decimal (suc fuel) n =
    let above = decimal fuel (n / 10) in
    if ltb n 10 then (48 + n) ∷ [] else (above ++ (48 + n % 10) ∷ [])

-- 20 digits are enough for 64 bits.
abbrev pub to_decimal : ℕ → List ℕ
to_decimal n = decimal 20 n
