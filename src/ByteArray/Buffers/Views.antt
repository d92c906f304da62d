-- ===== src/ByteArray/Buffers/Views.antt =====
-- The pieces that the views name hold the bytes of the array, in order.
use server_framework.Base.{size_sub}
use server_framework.Base.{
  ℕ, zero, suc, ◌+◌, ◌-◌, ◌*◌, ◌%◌, ◌≤◌, ◌<◌, ◌≡◌, refl, sym, ap, ◌∙◌, Option, none, some, List, [],
  ◌∷◌, ◌++◌, All, length, concat, get_elem?, min, Outcome, ok, arith, ltb, if◌then◌else◌, ◌≢◌,
  ne→==,
}
use server_framework.Base.Slices.{slice, slice-split, slice-take}
use server_framework.ByteArray.{ByteArray, Node}
use server_framework.ByteArray.Flat.{IsUniform, slice-concat, lt_of_mul-lt, block, mod-block}
use server_framework.ByteArray.Invariant.{IsValid, contents, node_under, size_sub_exact}
use server_framework.ByteArray.Buffers.{
  Iovec, buffers_loop, push_buffers, readable, get_read_buffers,
}
use mathlib.Core.Path.{ap₂}
use mathlib.Core.List.{append-nil}
use native.Mathlib.Decide.{dec_le}

-- The bytes that a piece names, and those of a list of pieces.
abbrev pub piece_of : Option Node → ℕ → ℕ → List ℕ
piece_of none offset n = []
piece_of (some node) offset n = slice node offset n

abbrev pub piece_bytes : List Node → Iovec → List ℕ
piece_bytes nodes v = piece_of (get_elem? nodes v.iov_node) v.iov_offset v.iov_len

abbrev pub gather : List Node → List Iovec → List ℕ
gather nodes [] = []
gather nodes (v ∷ vs) = piece_bytes nodes v ++ gather nodes vs

-- The piece ends within its block.
abbrev pub InBlock : List Node → Iovec → Type 0
InBlock nodes v =
    (node : Node) × (get_elem? nodes v.iov_node ≡ some node)
    × (v.iov_offset + v.iov_len ≤ length node)

buffers_loop-last :
    (fuel : ℕ) (nodes : List Node) (i npos ncap n : ℕ) (node : Node)
    → get_elem? nodes i ≡ some node
    → suc n ≤ ncap
    → buffers_loop (suc fuel) nodes (some i) npos ncap (suc n)
      ≡ ok (record { iov_node = i; iov_offset = npos; iov_len = suc n } ∷ [])
unfolding buffers_loop
buffers_loop-last fuel nodes i npos ncap n node e h = ground arith

buffers_loop-more :
    (fuel : ℕ) (nodes : List Node) (i npos ncap n : ℕ) {b : ℕ} (node follower : Node)
    {rest : List Iovec}
    → get_elem? nodes i ≡ some node
    → get_elem? nodes (i + 1) ≡ some follower
    → i + 1 < length nodes
    → ncap < suc n
    → length follower ≡ b
    → buffers_loop fuel nodes (some (i + 1)) 0 b (suc n - ncap) ≡ ok rest
    → buffers_loop (suc fuel) nodes (some i) npos ncap (suc n)
      ≡ ok (record { iov_node = i; iov_offset = npos; iov_len = ncap } ∷ rest)
unfolding buffers_loop
buffers_loop-more fuel nodes i npos ncap n node follower e f l h size run = ground arith

piece-slice :
    (nodes : List Node) (b i npos n j : ℕ) (node : Node)
    → IsUniform b nodes
    → get_elem? nodes i ≡ some node
    → npos + n ≤ b
    → j ≡ i * b + npos
    → piece_bytes nodes (record { iov_node = i; iov_offset = npos; iov_len = n })
      ≡ slice (concat nodes) j n
piece-slice nodes b i npos n j node u here h e =
    ap (λ o. piece_of o npos n) here ∙ sym (slice-concat b nodes i npos n j u here h e)

buffers_loop-slice :
    (nodes : List Node) (b : ℕ)
    → IsUniform b nodes
    → (fuel i npos space n j : ℕ) → i < length nodes
    → npos < b
    → npos + space ≡ b
    → j ≡ i * b + npos
    → j + n ≤ length nodes * b
    → n ≤ fuel
    → (pieces : List Iovec) × (buffers_loop fuel nodes (some i) npos space n ≡ ok pieces)
      × (gather nodes pieces ≡ slice (concat nodes) j n)
      × All (InBlock nodes) pieces
buffers_loop-slice nodes b u fuel i npos space zero j h k r e fits enough =
    ([], unfold buffers_loop in refl, refl, tt)
buffers_loop-slice nodes b u zero i npos space (suc n) j h k r e fits enough = absurd (omega arith)
buffers_loop-slice nodes b u (suc fuel) i npos space (suc n) j h k r e fits enough =
    let (node, at_i, size) = block nodes b u i h in
    elim (dec_le (suc n) space) [
      | yes last ↦ (
        record { iov_node = i; iov_offset = npos; iov_len = suc n } ∷ [],
        buffers_loop-last fuel nodes i npos space n node at_i last,
        append-nil (piece_bytes nodes (record { iov_node = i; iov_offset = npos; iov_len = suc n }))
            ∙ piece-slice nodes b i npos (suc n) j node u at_i (omega arith) e,
        ((node, at_i, omega (arith, size)), tt),
      )
      | no beyond ↦
          let inside : i + 1 < length nodes = lt_of_mul-lt (i + 1) (length nodes) b (omega arith) in
          let (follower, at_next, size') = block nodes b u (i + 1) inside in
          let (rest, run, same, within) =
            buffers_loop-slice nodes b u fuel (i + 1) 0 b (suc n - space) (j + space) inside
              (omega arith) (omega arith) (omega arith) (omega arith) (omega arith) in
          (
            record { iov_node = i; iov_offset = npos; iov_len = space } ∷ rest,
            buffers_loop-more fuel nodes i npos space n node follower at_i at_next inside
                (omega arith) size' run,
            ap₂ ◌++◌ (piece-slice nodes b i npos space j node u at_i (omega arith) e) same
                ∙ sym (
                    slice-split (concat nodes) j (j + space) space (suc n - space) (suc n) refl
                      (omega arith)),
            ((node, at_i, omega (arith, size)), within),
          )
    ]

push_steps :
    (nodes : List Node) (i npos n space : ℕ) (node : Node) (buffers pieces : List Iovec)
    → get_elem? nodes i ≡ some node
    → size_sub (length node) npos ≡ space
    → buffers_loop n nodes (some i) npos space n ≡ ok pieces
    → push_buffers nodes (some i) npos n buffers ≡ ok (n, buffers ++ pieces)
unfolding push_buffers
push_steps nodes i npos n space node buffers pieces here room run = rw (here, room, run)

pub readable-min :
    (s : ByteArray) (len : ℕ) → IsValid s → readable s len ≡ min len (s.size - s.position)
readable-min s len v =
    rw (size_sub_exact s.size s.position v.ordered) (smaller (s.size - s.position) len)
  where
    smaller : (a b : ℕ) → (if ltb a b then a else b) ≡ min b a
    smaller a b = ground arith

get_read_buffers_none :
    (s : ByteArray) (buffers : List Iovec) (len : ℕ)
    → readable s len ≡ 0
    → get_read_buffers s buffers len ≡ ok (0, buffers)
unfolding get_read_buffers
get_read_buffers_none s buffers len nothing = rw nothing

get_read_buffers_steps :
    (s : ByteArray) (buffers : List Iovec) (len n i npos : ℕ) (r : Outcome (ℕ × List Iovec))
    → readable s len ≡ n
    → n ≢ 0
    → s.cur ≡ some i
    → s.position % s.base_size ≡ npos
    → push_buffers s.root (some i) npos n buffers ≡ r
    → get_read_buffers s buffers len ≡ r
unfolding get_read_buffers
get_read_buffers_steps s buffers len n i npos r size some_bytes at_i off run =
    simp (size, ne→== n 0 some_bytes, at_i, off, run)

-- Views from an offset in the node at index `i`, behind the buffers that are there.
pub push-slice :
    (nodes : List Node) (b i npos n j : ℕ) (buffers : List Iovec)
    → IsUniform b nodes
    → i < length nodes
    → npos < b
    → j ≡ i * b + npos
    → j + n ≤ length nodes * b
    → (pieces : List Iovec) × (push_buffers nodes (some i) npos n buffers
        ≡ ok (n, buffers ++ pieces))
      × (gather nodes pieces ≡ slice (concat nodes) j n)
      × All (InBlock nodes) pieces
push-slice nodes b i npos n j buffers u h k e fits =
    let (node, at_i, size) = block nodes b u i h in
    let (pieces, run, same, within) =
      buffers_loop-slice nodes b u n i npos (b - npos) n j h k (omega arith) e fits (omega arith) in
    (
      pieces,
      push_steps nodes i npos n (b - npos) node buffers pieces at_i
          (rw size (size_sub_exact b npos (omega arith))) run,
      same,
      within,
    )

-- On a well-formed array, `getReadBuffers` pushes views of the next `len` bytes of the file, or
-- of all that are left, behind the buffers that are there, and returns how many bytes they are.
pub get_read_buffers-slice :
    (s : ByteArray) (buffers : List Iovec) (len : ℕ)
    → IsValid s
    → (pieces : List Iovec) × (get_read_buffers s buffers len
        ≡ ok (min len (s.size - s.position), buffers ++ pieces))
      × (gather s.root pieces ≡ slice (contents s) s.position (min len (s.size - s.position)))
get_read_buffers-slice s buffers len v = elim (dec_le (min len (s.size - s.position)) 0) [
  | yes nothing ↦
      let none_left : min len (s.size - s.position) ≡ 0 = omega arith in
      (
        [],
        get_read_buffers_none s buffers len (readable-min s len v ∙ none_left)
            ∙ ap₂ (λ n bs. ok (n, bs)) (sym none_left) (sym (append-nil buffers)),
        sym (ap (slice (contents s) s.position) none_left),
      )
  | no some_bytes ↦
      let n = min len (s.size - s.position) in
      let (i, at_i, inside, low, high) = node_under s v (omega (arith, v.bounded, v.ordered)) in
      let (pieces, run, same, within) =
        push-slice s.root s.base_size i (s.position - i * s.base_size) n s.position buffers
          v.uniform inside (omega arith) (omega arith) (omega (arith, v.bounded, v.chained)) in
      (
        pieces,
        get_read_buffers_steps s buffers len n i (s.position - i * s.base_size)
            (ok (n, buffers ++ pieces)) (readable-min s len v) (λ e. some_bytes (omega arith)) at_i
            (mod-block i s.base_size s.position low high) run,
        same ∙ sym (slice-take (concat s.root) s.size s.position n (omega (arith, v.ordered))),
      )
]
