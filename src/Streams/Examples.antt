-- ===== src/Streams/Examples.antt =====
-- A stream that gives two bytes a call: the state is the number of bytes that it has given.
use server_framework.Base.{ℕ, ◌+◌, ◌≡◌, refl, ltb, if◌then◌else◌, ok}
use server_framework.Streams.{Count, bytes, fix_loop, read_fix_size}

abbrev amount : ℕ → ℕ
amount left = if ltb left 2 then left else 2

abbrev pairs : ℕ → ℕ → ℕ → Count × ℕ
pairs s offset left = (bytes (amount left), s + amount left)

abbrev Given : ℕ → ℕ → Type 0
Given offset s = offset ≡ s

five_bytes : read_fix_size pairs 0 5 ≡ ok (bytes 5, 5)
unfolding read_fix_size fix_loop
five_bytes = refl
