-- ===== src/ByteArray.antt =====
-- captain/bytearray.cpp: a byte stream over a chain of nodes of one size.
-- A node is its block of memory; `size` of a node is the block's length, as its constructor sets it.
-- The chain is the list of its nodes, a pointer to a node is its index, and null is `none`.
-- Bytes are numbers below 256. Memory that `new char[s]` leaves uninitialised shows `garbage`, a
-- parameter of the state. A step through a null pointer or outside a block is a `fail`.
mod Flat
mod Invariant
mod Reading
mod ReadFile
mod Writing
mod Capacity
mod WriteFile
mod Overrun
mod Seek
mod Stream
pub mod Fixed
pub mod Varint
pub mod Text
pub mod Buffers
mod Examples
use server_framework.Base.{
  size_sub, ℕ, zero, suc, ◌+◌, ◌-◌, ◌*◌, ◌/◌, ◌%◌, ◌^◌, Bool, true, false, ltb, leb, ◌==◌,
  if◌then◌else◌, Option, none, some, List, [], ◌∷◌, ◌++◌, length, get_elem?, set, take, drop,
  replicate, Outcome, ok, fail, out_of_range, null_pointer, bad_access, out_of_fuel, ◌>>=◌, ◌>>◌,
  guard, or_fail,
}
use server_framework.Base.Slices.{slice, overwrite}

pub data Endian : Type 0 where
  little_endian big_endian : Endian

-- `ptr[0 .. size)`; `Node()` is the empty block.
abbrev pub Node : Type 0
Node = List ℕ

pub record ByteArray : Type 0 where
  pub base_size : ℕ
  pub position : ℕ
  pub capacity : ℕ
  pub size : ℕ
  pub endian : Endian
  pub root : List Node
  pub cur : Option ℕ
  pub garbage : ℕ

abbrev pub new_node : ℕ → ℕ → Node
new_node garbage s = replicate s garbage

pub new : ℕ → ℕ → ByteArray
new garbage base_size = record {
  base_size = base_size;
  position = 0;
  capacity = base_size;
  size = 0;
  endian = big_endian;
  root = new_node garbage base_size ∷ [];
  cur = some 0;
  garbage = garbage;
}

pub is_little_endian : ByteArray → Bool
is_little_endian s = elim s.endian [ little_endian ↦ true | big_endian ↦ false ]

pub set_is_little_endian : ByteArray → Bool → ByteArray
set_is_little_endian s val = record s { endian = if val then little_endian else big_endian }

-- `m_capacity - m_position`: what is left from the position on.
abbrev pub get_capacity : ByteArray → ℕ
get_capacity s = size_sub s.capacity s.position

abbrev pub get_read_size : ByteArray → ℕ
get_read_size s = size_sub s.size s.position

-- `p->next` of the node at index `i`.
abbrev pub next_of : List Node → ℕ → Option ℕ
next_of nodes i = if ltb (i + 1) (length nodes) then some (i + 1) else none

-- The node under a pointer, with its index.
abbrev pub deref : List Node → Option ℕ → Outcome (ℕ × Node)
deref nodes p = do
  i ← or_fail p null_pointer
  node ← or_fail (get_elem? nodes i) null_pointer
  ok (i, node)

-- `memcpy(node->ptr + npos, buf, size)`, inside the block.
abbrev pub copy_in : Node → ℕ → List ℕ → Outcome Node
copy_in node npos buf = do
  guard (leb (npos + length buf) (length node)) bad_access
  ok (overwrite node npos buf)

-- `memcpy(buf, node->ptr + npos, size)`, inside the block.
abbrev pub copy_out : Node → ℕ → ℕ → Outcome (List ℕ)
copy_out node npos size = do
  guard (leb (npos + size) (length node)) bad_access
  ok (slice node npos size)

-- `count` new nodes at the end of the chain.
pub add_nodes : ℕ → ℕ → ℕ → List Node
add_nodes garbage base_size zero = []
add_nodes garbage base_size (suc count) =
    new_node garbage base_size ∷ add_nodes garbage base_size count

-- How many nodes `addCapacity` adds for `size` bytes that do not fit.
pub node_count : ℕ → ℕ → ℕ → ℕ
node_count base_size old_cap size =
    size / base_size + (if ltb old_cap (size % base_size) then 1 else 0)

pub grow : ByteArray → ℕ → ℕ → ByteArray
unfolding add_nodes
grow s old_cap count = record s {
  root = s.root ++ add_nodes s.garbage s.base_size count;
  capacity = s.capacity + count * s.base_size;
  cur = if old_cap == 0 then (if count == 0 then none else some (length s.root)) else s.cur;
}

pub add_capacity : ByteArray → ℕ → ByteArray
unfolding grow node_count
add_capacity s size =
    let old_cap = get_capacity s in
    if size == 0
    then s
    else if leb size old_cap
    then s
    else grow s old_cap (node_count s.base_size old_cap (size_sub size old_cap))

-- The `while(size > 0)` of `write`. `buf` is what is left of the buffer, so its length is `size`.
pub write_loop : ℕ → ByteArray → ℕ → ℕ → List ℕ → Outcome ByteArray
write_loop fuel s npos ncap [] = ok s
write_loop zero s npos ncap (b ∷ bs) = fail out_of_fuel
write_loop (suc fuel) s npos ncap (b ∷ bs) =
    let buf : List ℕ = b ∷ bs in
    let last_part = do
      (i, node) ← deref s.root s.cur
      node' ← copy_in node npos buf
      ok (record s {
        root = set s.root i node';
        cur = if length node == npos + length buf then next_of s.root i else s.cur;
        position = s.position + length buf;
      })
    in let more = do
      (i, node) ← deref s.root s.cur
      node' ← copy_in node npos (take ncap buf)
      let nodes = set s.root i node'
      let next = next_of nodes i
      (j, follower) ← deref nodes next
      write_loop fuel (record s { root = nodes; cur = next; position = s.position + ncap }) 0
          (length follower) (drop ncap buf)
      in if leb (length buf) ncap then last_part else more

pub settle_size : ByteArray → ByteArray
settle_size s = record s { size = if ltb s.size s.position then s.position else s.size }

-- Every round of the loop copies a byte at least, so `length buf` rounds are enough.
pub write : ByteArray → List ℕ → Outcome ByteArray
write s [] = ok s
write s (b ∷ bs) = do
  let buf : List ℕ = b ∷ bs
  let grown = add_capacity s (length buf)
  let npos = grown.position % grown.base_size
  (i, node) ← deref grown.root grown.cur
  written ← write_loop (length buf) grown npos (size_sub (length node) npos) buf
  ok (settle_size written)

-- What a read loop leaves: the bytes, the pointer, the position.
pub record Taken : Type 0 where
  pub bytes : List ℕ
  pub at_node : Option ℕ
  pub reached : ℕ

abbrev pub taken : List ℕ → Option ℕ → ℕ → Taken
taken xs p n = record { bytes = xs; at_node = p; reached = n }

-- The loop of both `read`s: they differ in the variables that hold the pointer and the position.
pub read_loop : ℕ → List Node → Option ℕ → ℕ → ℕ → ℕ → ℕ → Outcome Taken
read_loop fuel nodes cur position npos ncap zero = ok (taken [] cur position)
read_loop zero nodes cur position npos ncap (suc n) = fail out_of_fuel
read_loop (suc fuel) nodes cur position npos ncap (suc n) =
    let size = suc n in
    let last_part = do
      (i, node) ← deref nodes cur
      xs ← copy_out node npos size
      ok (taken xs (if length node == npos + size then next_of nodes i else cur) (position + size))
    in let more = do
      (i, node) ← deref nodes cur
      xs ← copy_out node npos ncap
      (j, follower) ← deref nodes (next_of nodes i)
      r ← read_loop fuel nodes (next_of nodes i) (position + ncap) 0 (length follower) (size - ncap)
      ok (taken (xs ++ r.bytes) r.at_node r.reached)
      in if leb size ncap then last_part else more

-- `read(buf, size)`; the node under the pointer is looked at also when `size` is 0.
pub read : ByteArray → ℕ → Outcome (List ℕ × ByteArray)
read s size = do
  guard (leb size (get_read_size s)) out_of_range
  let npos = s.position % s.base_size
  (i, node) ← deref s.root s.cur
  r ← read_loop size s.root s.cur s.position npos (size_sub (length node) npos) size
  ok (r.bytes, record s { position = r.reached; cur = r.at_node })

-- `read(buf, size, position) const`.
pub read_at : ByteArray → ℕ → ℕ → Outcome (List ℕ)
read_at s size position = do
  guard (leb size (get_read_size s)) out_of_range
  let npos = position % s.base_size
  (i, node) ← deref s.root s.cur
  r ← read_loop size s.root s.cur position npos (size_sub (length node) npos) size
  ok r.bytes

-- The two steps that look for the node of a position, from the node at index `i` on.
pub seek_loop : ℕ → List Node → Option ℕ → ℕ → Outcome (Option ℕ)
seek_loop zero nodes p v = fail out_of_fuel
seek_loop (suc fuel) nodes p v = do
  (i, node) ← deref nodes p
  let rest = seek_loop fuel nodes (next_of nodes i) (v - length node)
  if ltb (length node) v then rest else ok (if v == length node then next_of nodes i else p)

-- The loop visits a node at most once, so one round for each node is enough.
pub set_position : ByteArray → ℕ → Outcome ByteArray
set_position s v = do
  guard (leb v s.capacity) out_of_range
  p ← seek_loop (length s.root) s.root (some 0) v
  ok (record s { position = v; size = if ltb s.size v then v else s.size; cur = p })

pub clear : ByteArray → ByteArray
clear s = record s {
  position = 0;
  size = 0;
  capacity = s.base_size;
  cur = some 0;
  root = take 1 s.root;
}

-- `toString`: the bytes from the position to the end.
pub to_string : ByteArray → Outcome (List ℕ)
to_string s = if get_read_size s == 0 then ok [] else read_at s (get_read_size s) s.position
