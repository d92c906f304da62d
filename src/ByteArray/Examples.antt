-- ===== src/ByteArray/Examples.antt =====
-- Runs of the array on small inputs, and the theorems at concrete inputs.
use server_framework.Base.{
  All, ℕ, ◌+◌, ◌-◌, ◌%◌, ◌≤◌, ◌<◌, ◌≡◌, refl, sym, ◌∙◌, none, some, List, [], ◌∷◌, ok, fail, ◌>>=◌,
  arith, null_pointer, subst, ok-injective, ◌⊎◌, inl, ◌↔◌,
}
use server_framework.ByteArray.{
  ByteArray, write, read, set_position, add_capacity, write_loop, settle_size, read_loop,
  little_endian, big_endian,
}
use server_framework.ByteArray.Invariant.{IsValid, contents}
use server_framework.ByteArray.ReadFile.{read-slice}
use server_framework.ByteArray.WriteFile.{Writes, HasRoom, write-write_at}
use server_framework.ByteArray.Capacity.{add_capacity_suffices}
use server_framework.ByteArray.Overrun.{write_overrun}
use server_framework.ByteArray.Seek.{set_position-IsValid}
use server_framework.ByteArray.Fixed.{write_fixed, read_fixed}
use server_framework.ByteArray.Fixed.RoundTrip.{read_fixed-write_fixed}
use server_framework.ByteArray.Varint.{groups, write_uint64, read_uint64, encode_zigzag}
use server_framework.ByteArray.Varint.RoundTrip.{Rereads, read_uint64-write_uint64}
use server_framework.ByteArray.Text.{write_string, read_string}
use server_framework.ByteArray.Text.RoundTrip.{StringRoom, read_string-write_string}
use server_framework.ByteArray.Buffers.{Iovec, get_read_buffers_at}
use server_framework.ByteArray.Buffers.Views.{InBlock, gather}
use server_framework.ByteArray.Buffers.ViewsAt.{get_read_buffers_at-slice}

-- Two nodes of four bytes, with five bytes in the file and the position at 2.
abbrev two_nodes : ByteArray
two_nodes = record {
  base_size = 4;
  position = 2;
  capacity = 8;
  size = 5;
  endian = big_endian;
  root = (1 ∷ 2 ∷ 3 ∷ 4 ∷ []) ∷ (5 ∷ 0 ∷ 0 ∷ 0 ∷ []) ∷ [];
  cur = some 0;
  garbage = 0;
}

two_nodes-IsValid : IsValid two_nodes
two_nodes-IsValid = record {
  positive = omega arith;
  rooted = omega arith;
  uniform = (refl, (refl, tt));
  chained = refl;
  ordered = omega arith;
  bounded = omega arith;
  seated = omega arith;
}

-- Room for ten bytes behind the end of the chain: the case in which `addCapacity` counts right.
abbrev full : ByteArray
full = record two_nodes { position = 8; size = 8; cur = none }

full-IsValid : IsValid full
full-IsValid = record {
  positive = omega arith;
  rooted = omega arith;
  uniform = (refl, (refl, tt));
  chained = refl;
  ordered = omega arith;
  bounded = omega arith;
  seated = omega arith;
}

after_write : ByteArray
after_write = record two_nodes {
  root = (1 ∷ 2 ∷ 7 ∷ 8 ∷ []) ∷ (9 ∷ 0 ∷ 0 ∷ 0 ∷ []) ∷ [];
  position = 5;
  cur = some 1;
}

write_across : write two_nodes (7 ∷ 8 ∷ 9 ∷ []) ≡ ok after_write
unfolding write add_capacity write_loop settle_size after_write
write_across = refl

read_across :
    read two_nodes 3 ≡ ok (3 ∷ 4 ∷ 5 ∷ [], record two_nodes { position = 5; cur = some 1 })
unfolding read read_loop
read_across = refl

room_for : (n : ℕ) → n ≤ 6 → HasRoom two_nodes n
room_for n h = (add_capacity_suffices two_nodes two_nodes-IsValid n).1 (inl h)

read-slice_example :
    (t : ByteArray) × (read two_nodes 3 ≡ ok (3 ∷ 4 ∷ 5 ∷ [], t))
    × IsValid t
    × (t.position ≡ 5)
    × (contents t ≡ contents two_nodes)
read-slice_example = read-slice two_nodes 3 two_nodes-IsValid (omega arith) (omega arith)

write-write_at_example : Writes two_nodes (7 ∷ 8 ∷ 9 ∷ 10 ∷ [])
write-write_at_example =
    write-write_at two_nodes (7 ∷ 8 ∷ 9 ∷ 10 ∷ []) two_nodes-IsValid (room_for 4 (omega arith))

write_overrun_example : write two_nodes (0 ∷ 1 ∷ 2 ∷ 3 ∷ 4 ∷ 5 ∷ 6 ∷ []) ≡ fail null_pointer
write_overrun_example =
    write_overrun two_nodes (0 ∷ 1 ∷ 2 ∷ 3 ∷ 4 ∷ 5 ∷ 6 ∷ []) two_nodes-IsValid (omega arith)
      (omega arith) (omega arith)

add_capacity_suffices_example :
    (2 + 7 ≤ (add_capacity two_nodes 7).capacity)
    ↔ ((7 ≤ 6) ⊎ ((7 - 6) % 4 ≡ 0) ⊎ (6 < (7 - 6) % 4))
add_capacity_suffices_example = add_capacity_suffices two_nodes two_nodes-IsValid 7

set_position-IsValid_example :
    (t : ByteArray) × (set_position two_nodes 7 ≡ ok t)
    × IsValid t
    × (t.position ≡ 7)
    × (t.size ≡ 7)
    × (t.root ≡ two_nodes.root)
    × (t.endian ≡ big_endian)
set_position-IsValid_example = set_position-IsValid two_nodes 7 two_nodes-IsValid (omega arith)

read_fixed-write_fixed_example :
    (t : ByteArray) × ((write_fixed little_endian 4 two_nodes 0x01020304 >>= λ w.
    set_position w 2 >>= read_fixed big_endian 4)
      ≡ ok (0x01020304, t))
    × IsValid t
    × (t.position ≡ 6)
read_fixed-write_fixed_example =
    read_fixed-write_fixed little_endian big_endian 4 two_nodes 0x01020304 two_nodes-IsValid
      (omega arith) (omega arith) (room_for 4 (omega arith))

groups_300 : groups 5 300 ≡ ok (0xac ∷ 0x02 ∷ [])
unfolding groups
groups_300 = refl

groups64_300 : groups 10 300 ≡ ok (0xac ∷ 0x02 ∷ [])
unfolding groups
groups64_300 = refl

read_uint64-write_uint64_example : Rereads (λ s. write_uint64 s 300) read_uint64 two_nodes 300 2
read_uint64-write_uint64_example =
    read_uint64-write_uint64 two_nodes 300 (0xac ∷ 0x02 ∷ []) two_nodes-IsValid (omega arith)
      groups64_300 (room_for 2 (omega arith))

-- A string of three bytes behind its length: the length ends at position 4.
after_length : ByteArray
after_length = record two_nodes {
  root = (1 ∷ 2 ∷ 0 ∷ 3 ∷ []) ∷ (5 ∷ 0 ∷ 0 ∷ 0 ∷ []) ∷ [];
  position = 4;
  cur = some 1;
}

length_written : write_fixed little_endian 2 two_nodes 3 ≡ ok after_length
unfolding write_fixed write add_capacity write_loop settle_size after_length
length_written = refl

after_length-IsValid : IsValid after_length
unfolding after_length
after_length-IsValid = record {
  positive = omega arith;
  rooted = omega arith;
  uniform = (refl, (refl, tt));
  chained = refl;
  ordered = omega arith;
  bounded = omega arith;
  seated = omega arith;
}

after_length-HasRoom : HasRoom after_length 3
after_length-HasRoom =
    (add_capacity_suffices after_length after_length-IsValid 3).1
      (inl (unfold after_length in omega arith))

string_room : StringRoom little_endian 2 two_nodes (b'a' ∷ b'b' ∷ b'c' ∷ [])
string_room = (
  room_for 2 (omega arith),
  λ t e. subst (λ t. HasRoom t 3) (ok-injective (sym length_written ∙ e)) after_length-HasRoom,
)

read_string-write_string_example :
    (t : ByteArray) × ((write_string little_endian 2 two_nodes (b'a' ∷ b'b' ∷ b'c' ∷ []) >>= λ w.
    set_position w 2 >>= read_string big_endian 2)
      ≡ ok (b'a' ∷ b'b' ∷ b'c' ∷ [], t))
    × IsValid t
    × (t.position ≡ 7)
read_string-write_string_example =
    read_string-write_string little_endian big_endian 2 two_nodes (b'a' ∷ b'b' ∷ b'c' ∷ [])
      two_nodes-IsValid (omega arith) (omega arith) string_room

-- 150 goes out as the number 300.
zigzag_150 : groups 5 (encode_zigzag 32 150) ≡ ok (0xac ∷ 0x02 ∷ [])
unfolding groups encode_zigzag
zigzag_150 = refl

zigzag64_150 : groups 10 (encode_zigzag 64 150) ≡ ok (0xac ∷ 0x02 ∷ [])
unfolding groups encode_zigzag
zigzag64_150 = refl

-- -2 has the code 3.
zigzag_minus_two : encode_zigzag 32 0xfffffffe ≡ 3
unfolding encode_zigzag
zigzag_minus_two = refl

get_read_buffers_at-slice_example :
    (pieces : List Iovec) × (get_read_buffers_at two_nodes [] 2 3 ≡ ok (2, pieces))
    × (gather two_nodes.root pieces ≡ 4 ∷ 5 ∷ [])
    × All (InBlock two_nodes.root) pieces
get_read_buffers_at-slice_example =
    get_read_buffers_at-slice two_nodes [] 2 3 two_nodes-IsValid (omega arith) (omega arith)
