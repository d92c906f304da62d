-- ===== src/Streams.antt =====
-- captain/stream.cpp, captain/include/stream.h: reading and writing an exact number of bytes.
-- The virtual `read` and `write` are a parameter `transfer`: from a state, the offset in the buffer
-- and the number of bytes that are left it gives the result of the call and the next state, which
-- holds the stream and the buffer or the byte array. The result is an `int`, so that the cast of it back
-- to one, where it ends the loop, changes nothing; the `length` that is returned is cast as well.
pub mod FixSize
mod Examples
use server_framework.Base.{
  ltb, if◌then◌else◌, ◌%◌, ◌^◌, ℕ, zero, suc, ◌+◌, ◌-◌, ◌≤◌, ◌<◌, ◌≡◌, refl, sym, ap, ◌∙◌, subst,
  Outcome, ok, fail, out_of_fuel, ◌>>=◌, ◌⊎◌, inl, inr, arith,
}

-- An `int`: a number of bytes, or one below 0, where `error e` is `-1 - e`.
pub data Count : Type 0 where
  bytes error : ℕ → Count

-- A `size_t` that is returned as an `int`.
abbrev pub to_int : ℕ → Count
to_int n = let low = n % 2 ^ 32 in if ltb low (2 ^ 31) then bytes low else error (2 ^ 32 - 1 - low)

-- `int64_t left = length`: one that is negative ends the loop as 0 does.
abbrev pub left_of : ℕ → ℕ
left_of length = if ltb length (2 ^ 63) then length else 0

-- `if(len <= 0) { return len; }`, and the rest of a round for `len` of `suc k`.
abbrev pub if_moved : {S : Type 0} → Count × S → (ℕ → S → Outcome (Count × S)) → Outcome (Count × S)
if_moved (error e, t) rest = ok (error e, t)
if_moved (bytes zero, t) rest = ok (bytes 0, t)
if_moved (bytes (suc k), t) rest = rest k t

module _ {S : Type 0} (transfer : S → ℕ → ℕ → Count × S) where
  -- The `while(left > 0)` of `readFixSize` and `writeFixSize`. More bytes than asked for make `left`
  -- negative, which ends the loop as 0 does.
  pub fix_loop : ℕ → S → ℕ → ℕ → ℕ → Outcome (Count × S)
  fix_loop fuel s length offset zero = ok (to_int length, s)
  fix_loop zero s length offset (suc n) = fail out_of_fuel
  fix_loop (suc fuel) s length offset (suc n) =
      if_moved (transfer s offset (suc n))
        (λ k t. fix_loop fuel t length (offset + suc k) (suc n - suc k))

  -- Every round moves one byte at least, so `length` rounds are enough.
  pub read_fix_size : S → ℕ → Outcome (Count × S)
  unfolding fix_loop
  read_fix_size s length = fix_loop length s length 0 (left_of length)

  pub write_fix_size : S → ℕ → Outcome (Count × S)
  unfolding fix_loop
  write_fix_size s length = fix_loop length s length 0 (left_of length)
