-- ===== src/ByteArray/Buffers/ViewsAt.antt =====
-- Views from a position of the caller's choice, and views to write through.
use server_framework.Base.{
  ℕ, zero, suc, ◌+◌, ◌-◌, ◌*◌, ◌/◌, ◌%◌, ◌≤◌, ◌<◌, ◌≡◌, ◌≢◌, refl, sym, ap, ◌∙◌, some, List, ◌++◌,
  All, length, concat, min, Outcome, ok, arith, ne→==, lt→ltb,
}
use server_framework.Base.Slices.{slice, slice-take}
use server_framework.ByteArray.{ByteArray, Node, add_capacity}
use server_framework.ByteArray.Flat.{IsUniform, block, mod-block, lt_of_mul-lt}
use server_framework.ByteArray.Invariant.{IsValid, contents, node_under}
use server_framework.ByteArray.Capacity.{Grown, add_capacity-Grown}
use server_framework.ByteArray.WriteFile.{HasRoom}
use server_framework.ByteArray.Buffers.{
  Iovec, push_buffers, readable, walk, get_read_buffers_at, get_write_buffers,
}
use server_framework.ByteArray.Buffers.Views.{gather, InBlock, push-slice, readable-min}
use native.Mathlib.Nat.{div-add-mod', mod-lt}

walk-reaches :
    (nodes : List Node) (b : ℕ)
    → IsUniform b nodes
    → (i count : ℕ) → i + count < length nodes
    → walk nodes (some i) count ≡ ok (some (i + count))
unfolding walk
walk-reaches nodes b u i zero h = ap (λ k. ok (some k)) {y = i + 0} (omega arith)
walk-reaches nodes b u i (suc count) h =
    let (node, here, size) = block nodes b u i (omega arith) in
    rw
      (
        here,
        lt→ltb (i + 1) (length nodes) (omega arith),
        walk-reaches nodes b u (i + 1) count (omega arith),
      )
      (ap (λ k. ok (some k)) {x = i + 1 + count} {y = i + suc count} (omega arith))

at_steps :
    (s : ByteArray) (buffers : List Iovec) (len n position i : ℕ) (r : Outcome (ℕ × List Iovec))
    → readable s len ≡ n
    → n ≢ 0
    → walk s.root (some 0) (position / s.base_size) ≡ ok (some i)
    → push_buffers s.root (some i) (position % s.base_size) n buffers ≡ r
    → get_read_buffers_at s buffers len position ≡ r
unfolding get_read_buffers_at
at_steps s buffers len n position i r size some_bytes found run =
    simp (size, ne→== n 0 some_bytes, found, run)

-- On a well-formed array, the overload of `getReadBuffers` with a position pushes views of the
-- bytes of the file from that position on, where they end within the file, and each view ends
-- within its block. Their number is bounded by what is unread from `m_position` on, not from
-- the position that is given, and must not be 0.
pub get_read_buffers_at-slice :
    (s : ByteArray) (buffers : List Iovec) (len position : ℕ)
    → IsValid s
    → 0 < min len (s.size - s.position)
    → position + min len (s.size - s.position) ≤ s.size
    → (pieces : List Iovec) × (get_read_buffers_at s buffers len position
        ≡ ok (min len (s.size - s.position), buffers ++ pieces))
      × (gather s.root pieces ≡ slice (contents s) position (min len (s.size - s.position)))
      × All (InBlock s.root) pieces
get_read_buffers_at-slice s buffers len position v some_bytes fits =
    let n = min len (s.size - s.position) in
    let b = s.base_size in
    let whole = div-add-mod' position b in
    let inside : position / b < length s.root =
      lt_of_mul-lt (position / b) (length s.root) b (omega (arith, v.bounded, v.chained)) in
    let (pieces, run, same, within) =
      push-slice s.root b (position / b) (position % b) n position buffers v.uniform inside
        (mod-lt position v.positive) (omega arith) (omega (arith, v.bounded, v.chained)) in
    (
      pieces,
      at_steps s buffers len n position (position / b) (ok (n, buffers ++ pieces))
          (readable-min s len v) (λ e. omega arith)
          (walk-reaches s.root b v.uniform 0 (position / b) (omega arith)
            ∙ ap (λ k. ok (some k)) {y = position / b} (omega arith))
          run,
      same ∙ sym (slice-take (concat s.root) s.size position n fits),
      within,
    )

write_steps :
    (s t : ByteArray) (buffers pieces : List Iovec) (len i npos : ℕ)
    → add_capacity s len ≡ t
    → len ≢ 0
    → t.cur ≡ some i
    → t.position % t.base_size ≡ npos
    → push_buffers t.root (some i) npos len buffers ≡ ok (len, buffers ++ pieces)
    → get_write_buffers s buffers len ≡ ok (len, buffers ++ pieces, t)
unfolding get_write_buffers
write_steps s t buffers pieces len i npos grown some_bytes at_i off run =
    simp (grown, ne→== len 0 some_bytes, at_i, off, run)

-- On a well-formed array that has room for a `len` above 0 once `addCapacity` has run,
-- `getWriteBuffers` pushes views of the memory from the position on, `len` bytes in all; the
-- array stays well formed, its file, its position and its byte order the same.
pub get_write_buffers-slice :
    (s : ByteArray) (buffers : List Iovec) (len : ℕ)
    → IsValid s
    → 0 < len
    → HasRoom s len
    → (t : ByteArray) × (pieces : List Iovec) × (get_write_buffers s buffers len
        ≡ ok (len, buffers ++ pieces, t))
      × Grown s t
      × (gather t.root pieces ≡ slice (concat t.root) s.position len)
      × All (InBlock t.root) pieces
get_write_buffers-slice s buffers len v some_bytes room =
    let t = add_capacity s len in
    let gr = add_capacity-Grown s v len in
    let (i, at_i, inside, low, high) = node_under t gr.valid (omega (arith, gr.same_position)) in
    let (pieces, run, same, within) =
      push-slice t.root t.base_size i (t.position - i * t.base_size) len t.position buffers
        gr.valid.uniform inside (omega arith) (omega arith)
        (omega (arith, gr.valid.chained, gr.same_position)) in
    (
      t,
      pieces,
      write_steps s t buffers pieces len i (t.position - i * t.base_size) refl (λ e. omega arith)
          at_i (mod-block i t.base_size t.position low high) run,
      gr,
      same ∙ ap (λ p. slice (concat t.root) p len) gr.same_position,
      within,
    )
