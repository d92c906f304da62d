-- ===== src/Streams/FixSize.antt =====
-- The loop of `readFixSize` and `writeFixSize` moves all bytes, or returns the call that moved none.
use server_framework.Base.{◌%◌, ◌^◌, lt→ltb, ℕ, ◌+◌, ◌≤◌, ◌<◌, ◌≡◌, refl, Outcome, ok, ◌⊎◌, arith}
use server_framework.Streams.{Count, bytes, error, to_int}

-- A call has moved nothing.
abbrev pub Stopped : Count → Type 0
Stopped c = (c ≡ bytes 0) ⊎ ((e : ℕ) × (c ≡ error e))

-- What an `int` holds is returned as it is.
pub to_int-small : (n : ℕ) → n < 2 ^ 31 → to_int n ≡ bytes n
to_int-small n h = let low : n % 2 ^ 32 ≡ n = omega arith in rw (low, lt→ltb n (2 ^ 31) h) refl

module _ {S : Type 0} (transfer : S → ℕ → ℕ → Count × S) where
  -- A call at an offset of the buffer moves from one to `left` bytes and keeps `Kept`, or moves none.
  abbrev pub Step : (ℕ → S → Type 0) → S → ℕ → ℕ → Type 0
  Step Kept s offset left =
      (c : Count) × (s' : S) × (transfer s offset left ≡ (c, s'))
      × (((k : ℕ) × (c ≡ bytes k) × (1 ≤ k) × (k ≤ left) × Kept (offset + k) s') ⊎ Stopped c)

  -- All bytes are moved, or the result is that of a call that moved none.
  abbrev pub End : (ℕ → S → Type 0) → ℕ → Outcome (Count × S) → Type 0
  End Kept length r =
      (c : Count) × (s' : S) × (r ≡ ok (c, s'))
      × (((c ≡ to_int length) × Kept length s') ⊎ Stopped c)
