-- ===== src/ByteArray/Reading.antt =====
-- The read loops take a slice of the flat memory.
use server_framework.Base.{
  ℕ, zero, suc, ◌+◌, ◌-◌, ◌*◌, ◌≤◌, ◌<◌, ◌≡◌, refl, ap, ◌∙◌, Option, some, List, [], ◌++◌, length,
  concat, get_elem?, sym, ◌==◌, if◌then◌else◌, ok, arith,
}
use server_framework.Base.Slices.{slice, slice-split}
use server_framework.ByteArray.{Node, taken, read_loop, next_of}
use server_framework.ByteArray.Flat.{IsUniform, IsAt, slice-concat, advance-IsAt, block}
use mathlib.Core.Path.{ap₂}
use native.Mathlib.Decide.{dec_le}
use server_framework.ByteArray.Flat.{lt_of_mul-lt}
use server_framework.Base.{subst}

read_loop-last :
    (fuel : ℕ) (nodes : List Node) (i position npos ncap n : ℕ) (node : Node)
    → get_elem? nodes i ≡ some node
    → npos + suc n ≤ length node
    → suc n ≤ ncap
    → read_loop (suc fuel) nodes (some i) position npos ncap (suc n)
      ≡ ok (
          taken
            (slice node npos (suc n))
            (if length node == npos + suc n then next_of nodes i else some i)
            (position + suc n))
unfolding read_loop
read_loop-last fuel nodes i position npos ncap n node e h k = ground arith

read_loop-more :
    (fuel : ℕ) (nodes : List Node) (i position npos ncap n : ℕ) (node follower : Node) {ys : List ℕ}
    {p : Option ℕ} {q : ℕ}
    → get_elem? nodes i ≡ some node
    → get_elem? nodes (i + 1) ≡ some follower
    → i + 1 < length nodes
    → npos + ncap ≤ length node
    → ncap < suc n
    → read_loop fuel nodes (some (i + 1)) (position + ncap) 0 (length follower) (suc n - ncap)
      ≡ ok (taken ys p q)
    → read_loop (suc fuel) nodes (some i) position npos ncap (suc n)
      ≡ ok (taken (slice node npos ncap ++ ys) p q)
unfolding read_loop
read_loop-more fuel nodes i position npos ncap n node follower e f l h k rest = ground arith

module _ (nodes : List Node) (b : ℕ) (uniform : IsUniform b nodes) where
  -- Enough fuel is the number of bytes wanted, since each round takes one at least.
  pub read_loop-slice :
      (fuel i position npos space n j : ℕ)
      → i < length nodes
      → npos < b
      → npos + space ≡ b
      → j ≡ i * b + npos
      → j + n ≤ length nodes * b
      → n ≤ fuel
      → (p : Option ℕ) × (read_loop fuel nodes (some i) position npos space n
          ≡ ok (taken (slice (concat nodes) j n) p (position + n)))
        × IsAt (length nodes) b (j + n) p
  read_loop-slice fuel i position npos space zero j h k r e fits enough = (
    some i,
    unfold read_loop in ap (λ m. ok (taken [] (some i) m)) {y = position + 0} (omega arith),
    omega arith,
  )
  read_loop-slice zero i position npos space (suc n) j h k r e fits enough = absurd (omega arith)
  read_loop-slice (suc fuel) i position npos space (suc n) j h k r e fits enough =
      let (node, at_i, size) = block nodes b uniform i h in
      elim (dec_le (suc n) space) [
        | yes last ↦ (
          if b == npos + suc n then next_of nodes i else some i,
          read_loop-last fuel nodes i position npos space n node at_i (omega arith) last
              ∙ ap₂
                  (λ xs m. ok (
                    taken xs (if m == npos + suc n then next_of nodes i else some i)
                      (position + suc n)))
                  (sym (slice-concat b nodes i npos (suc n) j uniform at_i (omega arith) e)) size,
          advance-IsAt nodes b i npos n j h e (omega arith),
        )
        | no beyond ↦ go node at_i size (omega arith) (λ inside.
            read_loop-slice fuel (i + 1) (position + space) 0 b (suc n - space) (j + space) inside
              (omega arith) (omega arith) (omega arith) (omega arith) (omega arith))
      ]
    where
      go :
          (node : Node)
          → get_elem? nodes i ≡ some node
          → length node ≡ b
          → space < suc n
          → (i + 1 < length nodes
              → (p : Option ℕ) × (read_loop fuel nodes
                    (some (i + 1))
                    (position + space)
                    0
                    b
                    (suc n - space)
                  ≡ ok (
                      taken
                        (slice (concat nodes) (j + space) (suc n - space))
                        p
                        (position + space + (suc n - space))))
                × IsAt (length nodes) b (j + space + (suc n - space)) p)
          → (p : Option ℕ) × (read_loop (suc fuel) nodes (some i) position npos space (suc n)
              ≡ ok (taken (slice (concat nodes) j (suc n)) p (position + suc n)))
            × IsAt (length nodes) b (j + suc n) p
      go node at_i size beyond rest =
          let inside : i + 1 < length nodes = lt_of_mul-lt (i + 1) (length nodes) b (omega arith) in
          let (follower, at_next, size') = block nodes b uniform (i + 1) inside in
          let (p, run, seat) = rest inside in
          let total : position + space + (suc n - space) ≡ position + suc n = omega arith in
          (
            p,
            read_loop-more fuel nodes i position npos space n node follower at_i at_next inside
                  (omega arith) beyond (rw size' run)
                ∙ ap₂ (λ xs m. ok (taken xs p m))
                    (ap (λ xs. xs ++ slice (concat nodes) (j + space) (suc n - space))
                        (sym (slice-concat b nodes i npos space j uniform at_i (omega arith) e))
                      ∙ sym (
                          slice-split (concat nodes) j (j + space) space (suc n - space) (suc n)
                            refl (omega arith)))
                    total,
            subst (λ m. IsAt (length nodes) b m p) (omega arith) seat,
          )
