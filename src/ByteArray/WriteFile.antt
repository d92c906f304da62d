-- ===== src/ByteArray/WriteFile.antt =====
-- `write` writes into the file at the position, where `addCapacity` has made room.
use server_framework.Base.{size_sub}
use server_framework.Base.{
  ℕ, zero, suc, ◌+◌, ◌-◌, ◌*◌, ◌%◌, ◌≤◌, ◌≡◌, refl, sym, ap, ◌∙◌, subst, Option, some, List, [],
  ◌∷◌, length, concat, take, get_elem?, max, Outcome, ok, ◌>>=◌, arith,
}
use server_framework.Base.Slices.{write_at, take-overwrite, length-take}
use mathlib.Core.Path.{ap₂}
use server_framework.ByteArray.{ByteArray, Node, add_capacity, settle_size, write, write_loop}
use server_framework.ByteArray.Flat.{IsAt, mod-block, block, length-concat}
use server_framework.ByteArray.Invariant.{IsValid, contents, node_under, size_sub_exact}
use server_framework.ByteArray.Writing.{moved, Wrote, write_loop-overwrite}
use server_framework.ByteArray.Capacity.{Grown, add_capacity-Grown}

pub write_steps :
    (s g : ByteArray) (b : ℕ) (bs : List ℕ) (i npos space : ℕ) (node : Node) (r : Outcome ByteArray)
    → add_capacity s (suc (length bs)) ≡ g
    → g.cur ≡ some i
    → get_elem? g.root i ≡ some node
    → g.position % g.base_size ≡ npos
    → size_sub (length node) npos ≡ space
    → write_loop (suc (length bs)) g npos space (b ∷ bs) ≡ r
    → write s (b ∷ bs) ≡ (r >>= λ t. ok (settle_size t))
unfolding write
write_steps s g b bs i npos space node r e at_i here off room run =
    simp (e, at_i, here, off, room, run)

settle : (t : ByteArray) → (settle_size t).size ≡ max t.size t.position
unfolding settle_size
settle t = ground arith

-- The end of `write`: the size follows the position.
settled :
    (s : ByteArray) (buf : List ℕ) (nodes : List Node) (p : Option ℕ)
    → IsValid s
    → s.position + length buf ≤ s.capacity
    → Wrote s s.position buf nodes p
    → let t = settle_size (moved s nodes p (s.position + length buf)) in
      IsValid t
      × (t.position ≡ s.position + length buf)
      × (contents t ≡ write_at (contents s) s.position buf)
      × (t.endian ≡ s.endian)
settled s buf nodes p v fits w =
    let m = moved s nodes p (s.position + length buf) in
    let total = settle m in
    let flat = length-concat s.base_size s.root v.uniform in
    unfold settle_size in
    (
      record {
        positive = v.positive;
        rooted = rw w.same_length v.rooted;
        uniform = w.uniform;
        chained = omega (arith, v.chained, ap (λ (c : ℕ). c * s.base_size) w.same_length);
        ordered = omega (arith, total);
        bounded = omega (arith, total, v.bounded);
        seated =
            subst (λ n. IsAt n s.base_size (s.position + length buf) p) (sym w.same_length)
              w.seated;
      },
      refl,
      ap (take (settle_size m).size) w.memory
          ∙ take-overwrite (concat s.root) s.size s.position (settle_size m).size buf v.ordered
              (omega (arith, v.bounded, v.chained)) (omega (arith, v.chained)) total,
      refl,
    )

-- Room for `n` bytes from the position on, once `addCapacity` has run.
abbrev pub HasRoom : ByteArray → ℕ → Type 0
HasRoom s n = s.position + n ≤ (add_capacity s n).capacity

-- A call that ends in `r` has written `buf` into the file of `s` at its position.
abbrev pub WroteFile : ByteArray → List ℕ → Outcome ByteArray → Type 0
WroteFile s buf r =
    (t : ByteArray) × (r ≡ ok t)
    × IsValid t
    × (t.position ≡ s.position + length buf)
    × (contents t ≡ write_at (contents s) s.position buf)
    × (t.endian ≡ s.endian)

abbrev pub Writes : ByteArray → List ℕ → Type 0
Writes s buf = WroteFile s buf (write s buf)

write_at-nil : (xs : List ℕ) (k : ℕ) → k ≤ length xs → write_at xs k [] ≡ xs
write_at-nil xs zero h = refl
write_at-nil [] (suc k) h = absurd (omega arith)
write_at-nil (x ∷ xs) (suc k) h = ap (◌∷◌ x) (write_at-nil xs k (omega arith))

-- The file is as long as `m_size` says.
pub length-contents : (s : ByteArray) → IsValid s → length (contents s) ≡ s.size
length-contents s v =
    length-take s.size (concat s.root)
      (omega (arith, length-concat s.base_size s.root v.uniform, v.chained, v.bounded))

-- `write`, once `addCapacity` has left `g`.
write-Grown :
    (s g : ByteArray) (b : ℕ) (bs : List ℕ)
    → add_capacity s (suc (length bs)) ≡ g
    → Grown s g
    → s.position + suc (length bs) ≤ g.capacity
    → Writes s (b ∷ bs)
write-Grown s g b bs e gr fits =
    let (i, at_i, inside, low, high) = node_under g gr.valid (omega (arith, gr.same_position)) in
    let (node, here, size) = block g.root g.base_size gr.valid.uniform i inside in
    let npos = g.position - i * g.base_size in
    let space = g.base_size - npos in
    let (nodes, p, run, w) =
      write_loop-overwrite (suc (length bs)) g i npos space (b ∷ bs) g.position gr.valid.uniform
        at_i inside (omega arith) (omega arith) (omega arith)
        (omega (arith, gr.valid.chained, gr.same_position)) (omega arith) in
    let wrote = moved g nodes p (g.position + suc (length bs)) in
    let (t-valid, t-position, t-contents, t-order) =
      settled g (b ∷ bs) nodes p gr.valid (omega (arith, gr.same_position)) w in
    (
      settle_size wrote,
      write_steps s g b bs i npos space node (ok wrote) e at_i here
          (mod-block i g.base_size g.position low high)
          (rw size (size_sub_exact g.base_size npos (omega arith))) run,
      t-valid,
      t-position ∙ ap (λ q. q + suc (length bs)) gr.same_position,
      t-contents ∙ ap₂ (λ xs k. write_at xs k (b ∷ bs)) gr.same_contents gr.same_position,
      t-order ∙ gr.same_order,
    )

-- On a well-formed array that has room for the buffer once `addCapacity` has run, `write`
-- succeeds: the file is the old one with the buffer written over it at the position, the
-- position moves behind the buffer, the byte order stays, and the array is well formed again.
pub write-write_at :
    (s : ByteArray) (buf : List ℕ) → IsValid s → HasRoom s (length buf) → Writes s buf
write-write_at s [] v fits = (
  s,
  unfold write in refl,
  v,
  omega arith,
  sym (write_at-nil (contents s) s.position (omega (arith, length-contents s v, v.ordered))),
  refl,
)
write-write_at s (b ∷ bs) v fits =
    write-Grown s (add_capacity s (suc (length bs))) b bs refl
      (add_capacity-Grown s v (suc (length bs))) fits
