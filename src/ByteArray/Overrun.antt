-- ===== src/ByteArray/Overrun.antt =====
-- Where `addCapacity` has counted too few nodes, `write` runs off the end of the chain.
use server_framework.Base.{
  ℕ, zero, suc, ◌+◌, ◌-◌, ◌*◌, ◌%◌, ◌≤◌, ◌<◌, ◌≡◌, refl, ap, ◌∙◌, some, List, [], ◌∷◌, length, take,
  drop, get_elem?, set, length-set, All-set, fail, null_pointer, arith, inl, inr,
}
use server_framework.Base.Slices.{overwrite, length-overwrite, length-take, length-drop}
use server_framework.ByteArray.{ByteArray, Node, add_capacity, write, write_loop}
use server_framework.ByteArray.Flat.{IsUniform, mod-block, block}
use server_framework.ByteArray.Invariant.{IsValid, past_end, node_under, size_sub_exact}
use server_framework.ByteArray.Writing.{moved, write_loop-more}
use server_framework.ByteArray.WriteFile.{write_steps}
use server_framework.ByteArray.Capacity.{Grown, add_capacity-Grown, add_capacity_suffices}
use native.Mathlib.Decide.{dec_le}

-- The last node is full, and there is no node behind it.
write_loop-end :
    (fuel : ℕ) (s : ByteArray) (i npos ncap b : ℕ) (bs : List ℕ) (node : Node)
    → s.cur ≡ some i
    → get_elem? s.root i ≡ some node
    → length (set s.root i (overwrite node npos (take ncap (b ∷ bs)))) ≤ i + 1
    → npos + length (take ncap (b ∷ bs)) ≤ length node
    → ncap < suc (length bs)
    → write_loop (suc fuel) s npos ncap (b ∷ bs) ≡ fail null_pointer
unfolding write_loop
write_loop-end fuel s i npos ncap b bs node at_i e l h k = ground arith

-- A rest that does not fit the chain does not fit the node.
too_long :
    (i n b npos space len : ℕ) → i < n → npos + space ≡ b → n * b < i * b + npos + len → space < len
too_long i n b npos space len h r over = elim (dec_le len space) [
  | yes fits ↦ absurd (past_end i n b h (omega arith))
  | no beyond ↦ omega arith
]

at_last : (i n b : ℕ) → i < n → n ≤ i + 1 → n ≡ i + 1
at_last i n b h k = omega arith

write_loop-null :
    (fuel : ℕ) (s : ByteArray) (i npos space : ℕ) (buf : List ℕ) (j : ℕ)
    → IsUniform s.base_size s.root
    → s.cur ≡ some i
    → i < length s.root
    → npos < s.base_size
    → npos + space ≡ s.base_size
    → j ≡ i * s.base_size + npos
    → length s.root * s.base_size < j + length buf
    → length buf ≤ fuel
    → write_loop fuel s npos space buf ≡ fail null_pointer
write_loop-null fuel s i npos space [] j u at_i h k r e over enough =
    absurd (past_end i (length s.root) s.base_size h (omega arith))
write_loop-null zero s i npos space (b ∷ bs) j u at_i h k r e over enough = absurd (omega arith)
write_loop-null (suc fuel) s i npos space (b ∷ bs) j u at_i h k r e over enough =
    let (node, here, size) = block s.root s.base_size u i h in
    let beyond =
      too_long i (length s.root) s.base_size npos space (suc (length bs)) h r (omega arith) in
    let part = length-take space (b ∷ bs) (omega arith) in
    let left = length-drop space (b ∷ bs) (omega arith) in
    let copy = overwrite node npos (take space (b ∷ bs)) in
    let mid = set s.root i copy in
    let same = length-set s.root i copy in
    elim (dec_le (length s.root) (i + 1)) [
      | yes last ↦
          write_loop-end fuel s i npos space b bs node at_i here (omega arith) (omega arith) beyond
      | no more ↦
          let u' =
            All-set (λ m. length m ≡ s.base_size) s.root i copy u
              (length-overwrite node npos (take space (b ∷ bs)) ∙ size) in
          let (follower, next, size') = block mid s.base_size u' (i + 1) (omega arith) in
          write_loop-more fuel s i npos space b bs node follower at_i here (omega arith) next
            (omega arith) beyond
            (rw size' (
              write_loop-null fuel (moved s mid (some (i + 1)) (s.position + space)) (i + 1) 0
                s.base_size (drop space (b ∷ bs)) (j + space) u' refl (omega arith) (omega arith)
                (omega arith) (omega arith) (omega (arith, ap (λ (m : ℕ). m * s.base_size) same))
                (omega arith)))
    ]

overrun-Grown :
    (s g : ByteArray) (b : ℕ) (bs : List ℕ)
    → add_capacity s (suc (length bs)) ≡ g
    → Grown s g
    → g.capacity < s.position + suc (length bs)
    → s.position < g.capacity
    → write s (b ∷ bs) ≡ fail null_pointer
overrun-Grown s g b bs e gr over before =
    let (i, at_i, inside, low, high) = node_under g gr.valid (omega (arith, gr.same_position)) in
    let (node, here, size) = block g.root g.base_size gr.valid.uniform i inside in
    let npos = g.position - i * g.base_size in
    let space = g.base_size - npos in
    write_steps s g b bs i npos space node (fail null_pointer) e at_i here
      (mod-block i g.base_size g.position low high)
      (rw size (size_sub_exact g.base_size npos (omega arith)))
      (write_loop-null (suc (length bs)) g i npos space (b ∷ bs) g.position gr.valid.uniform at_i
        inside (omega arith) (omega arith) (omega arith)
        (omega (arith, gr.valid.chained, gr.same_position)) (omega arith))

-- The flaw in `addCapacity`: on a well-formed array, a `write` of a buffer that does not fit,
-- whose excess over the bytes that fit has a rest by the node size that is neither 0 nor more
-- than the bytes that fit, follows a null pointer.
pub write_overrun :
    (s : ByteArray) (buf : List ℕ)
    → IsValid s
    → s.capacity - s.position < length buf
    → 0 < (length buf - (s.capacity - s.position)) % s.base_size
    → (length buf - (s.capacity - s.position)) % s.base_size ≤ s.capacity - s.position
    → write s buf ≡ fail null_pointer
write_overrun s [] v lacks some_rest short = absurd (omega arith)
write_overrun s (b ∷ bs) v lacks some_rest short =
    let n = suc (length bs) in
    let g = add_capacity s n in
    let over : g.capacity < s.position + n = elim (dec_le (s.position + n) g.capacity) [
      | yes fits ↦ elim ((add_capacity_suffices s v n).0 fits) [
        | inl room ↦ absurd (omega arith)
        | inr (inl whole) ↦ absurd (omega arith)
        | inr (inr longer) ↦ absurd (omega arith)
      ]
      | no beyond ↦ omega arith
    ] in
    let gr = add_capacity-Grown s v n in
    overrun-Grown s g b bs refl gr over (omega (arith, gr.wider))
