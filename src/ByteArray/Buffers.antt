-- ===== src/ByteArray/Buffers.antt =====
-- captain/bytearray.cpp: views of the array's memory for scattered input and output, and the two
-- file operations. `iov_base` is the index of a node and an offset in it.
pub mod Views
pub mod ViewsAt
use server_framework.Base.{size_sub}
use server_framework.Base.{
  ℕ, zero, suc, ◌+◌, ◌-◌, ◌*◌, ◌/◌, ◌%◌, ltb, leb, ◌==◌, if◌then◌else◌, Option, none, some, List,
  [], ◌∷◌, ◌++◌, length, get_elem?, take, Outcome, ok, fail, null_pointer, bad_access, out_of_fuel,
  ◌>>=◌, or_fail,
}
use server_framework.Base.Slices.{slice}
use server_framework.ByteArray.{
  ByteArray, Node, deref, next_of, get_read_size, add_capacity, write, copy_out,
}

pub record Iovec : Type 0 where
  pub iov_node : ℕ
  pub iov_offset : ℕ
  pub iov_len : ℕ

-- The `while(len > 0)` that all three functions share, on the pieces that it pushes.
pub buffers_loop : ℕ → List Node → Option ℕ → ℕ → ℕ → ℕ → Outcome (List Iovec)
buffers_loop fuel nodes cur npos ncap zero = ok []
buffers_loop zero nodes cur npos ncap (suc n) = fail out_of_fuel
buffers_loop (suc fuel) nodes cur npos ncap (suc n) =
    let last_part = do
      (i, node) ← deref nodes cur
      ok (record { iov_node = i; iov_offset = npos; iov_len = suc n } ∷ [])
    in let more = do
      (i, node) ← deref nodes cur
      (j, follower) ← deref nodes (next_of nodes i)
      rest ← buffers_loop fuel nodes (next_of nodes i) 0 (length follower) (suc n - ncap)
      ok (record { iov_node = i; iov_offset = npos; iov_len = ncap } ∷ rest)
      in if leb (suc n) ncap then last_part else more

-- From an offset in the node under `cur`: `len` bytes, behind the buffers that are there.
pub push_buffers : List Node → Option ℕ → ℕ → ℕ → List Iovec → Outcome (ℕ × List Iovec)
push_buffers nodes cur npos len buffers = do
  (i, node) ← deref nodes cur
  pieces ← buffers_loop len nodes cur npos (size_sub (length node) npos) len
  ok (len, buffers ++ pieces)

abbrev pub readable : ByteArray → ℕ → ℕ
readable s len = if ltb (get_read_size s) len then get_read_size s else len

pub get_read_buffers : ByteArray → List Iovec → ℕ → Outcome (ℕ × List Iovec)
unfolding push_buffers
get_read_buffers s buffers len =
    if readable s len == 0
    then ok (0, buffers)
    else push_buffers s.root s.cur (s.position % s.base_size) (readable s len) buffers

-- `while(count > 0) { cur = cur->next; --count; }`
pub walk : List Node → Option ℕ → ℕ → Outcome (Option ℕ)
walk nodes cur zero = ok cur
walk nodes cur (suc count) = do (i, node) ← deref nodes cur; walk nodes (next_of nodes i) count

pub get_read_buffers_at : ByteArray → List Iovec → ℕ → ℕ → Outcome (ℕ × List Iovec)
unfolding push_buffers walk
get_read_buffers_at s buffers len position =
    let pushed = do
      cur ← walk s.root (some 0) (position / s.base_size)
      push_buffers s.root cur (position % s.base_size) (readable s len) buffers
    in if readable s len == 0 then ok (0, buffers) else pushed

pub get_write_buffers : ByteArray → List Iovec → ℕ → Outcome (ℕ × List Iovec × ByteArray)
unfolding push_buffers
get_write_buffers s buffers len =
    let t = add_capacity s len in
    let pushed = do
      (n, pieces) ← push_buffers t.root t.cur (t.position % t.base_size) len buffers
      ok (n, pieces, t)
    in if len == 0 then ok (0, buffers, s) else pushed

-- The `while(read_size > 0)` of `writeToFile`: the bytes that go to the file. `len` is an `int64_t`;
-- a negative one makes `ofstream::write` fail, which is a `bad_access` here.
pub file_loop : ℕ → List Node → ℕ → Option ℕ → ℕ → ℕ → Outcome (List ℕ)
file_loop fuel nodes base cur pos zero = ok []
file_loop zero nodes base cur pos (suc n) = fail out_of_fuel
file_loop (suc fuel) nodes base cur pos (suc n) =
    let diff = pos % base in
    let whole = if ltb base (suc n) then base else suc n in
    let len = whole - diff in
    let round = do
      (i, node) ← deref nodes cur
      xs ← copy_out node diff len
      rest ← file_loop fuel nodes base (next_of nodes i) (pos + len) (suc n - len)
      ok (xs ++ rest)
    in if ltb whole diff then fail bad_access else round

-- Each round but the first and the last writes a whole node, so `read_size` and two rounds are enough
-- where the loop ends at all.
pub write_to_file : ByteArray → Outcome (List ℕ)
unfolding file_loop
write_to_file s =
    file_loop (get_read_size s + 2) s.root s.base_size s.cur s.position (get_read_size s)

-- `readFromFile`: the file in pieces of `m_baseSize` bytes; the piece on which the end is met, which
-- may be empty, is the last.
pub read_pieces : ℕ → ByteArray → List ℕ → Outcome ByteArray
read_pieces zero s file = fail out_of_fuel
read_pieces (suc fuel) s file =
    let piece = do
      t ← write s (take s.base_size file)
      read_pieces fuel t (slice file s.base_size (length file))
    in if ltb (length file) s.base_size then write s file else piece

pub read_from_file : ByteArray → List ℕ → Outcome ByteArray
unfolding read_pieces
read_from_file s file = read_pieces (length file + 1) s file
