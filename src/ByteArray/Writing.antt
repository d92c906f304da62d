-- ===== src/ByteArray/Writing.antt =====
-- The write loop copies the buffer into the flat memory.
use server_framework.Base.{
  ℕ, zero, suc, ◌+◌, ◌*◌, ◌≤◌, ◌<◌, ◌≡◌, refl, sym, ap, ◌∙◌, subst, Option, some, List, [], ◌∷◌,
  length, concat, take, drop, get_elem?, set, All-set, length-set, if◌then◌else◌, ◌==◌, Outcome, ok,
  arith,
}
use server_framework.Base.Slices.{
  overwrite, overwrite-nil, overwrite-split, length-overwrite, length-take, length-drop,
}
use server_framework.ByteArray.{ByteArray, Node, write_loop, next_of}
use server_framework.ByteArray.Flat.{
  IsUniform, IsAt, overwrite-concat, lt_of_mul-lt, advance-IsAt, block,
}
use native.Mathlib.Decide.{dec_le}

abbrev pub moved : ByteArray → List Node → Option ℕ → ℕ → ByteArray
moved s nodes p q = record s { root = nodes; cur = p; position = q }

write_loop-last :
    (fuel : ℕ) (s : ByteArray) (i npos ncap b : ℕ) (bs : List ℕ) (node : Node)
    → s.cur ≡ some i
    → get_elem? s.root i ≡ some node
    → npos + suc (length bs) ≤ length node
    → suc (length bs) ≤ ncap
    → write_loop (suc fuel) s npos ncap (b ∷ bs)
      ≡ ok (
          moved s
            (set s.root i (overwrite node npos (b ∷ bs)))
            (if length node == npos + suc (length bs) then next_of s.root i else some i)
            (s.position + suc (length bs)))
unfolding write_loop
write_loop-last fuel s i npos ncap b bs node at_i e h k = ground arith

pub write_loop-more :
    (fuel : ℕ) (s : ByteArray) (i npos ncap b : ℕ) (bs : List ℕ) (node follower : Node)
    {r : Outcome ByteArray}
    → s.cur ≡ some i
    → get_elem? s.root i ≡ some node
    → i + 1 < length (set s.root i (overwrite node npos (take ncap (b ∷ bs))))
    → get_elem? (set s.root i (overwrite node npos (take ncap (b ∷ bs)))) (i + 1) ≡ some follower
    → npos + length (take ncap (b ∷ bs)) ≤ length node
    → ncap < suc (length bs)
    → write_loop fuel
        (moved s
          (set s.root i (overwrite node npos (take ncap (b ∷ bs))))
          (some (i + 1))
          (s.position + ncap))
        0
        (length follower)
        (drop ncap (b ∷ bs))
      ≡ r
    → write_loop (suc fuel) s npos ncap (b ∷ bs) ≡ r
unfolding write_loop
write_loop-more fuel s i npos ncap b bs node follower at_i e l f h k rest = ground arith

-- What a run of the loop leaves of a state: its nodes, its pointer and its position.
pub record Wrote (s : ByteArray) (j : ℕ) (buf : List ℕ) (nodes : List Node) (p : Option ℕ)
    : Type 0 where
  pub same_length : length nodes ≡ length s.root
  pub uniform : IsUniform s.base_size nodes
  pub memory : concat nodes ≡ overwrite (concat s.root) j buf
  pub seated : IsAt (length s.root) s.base_size (j + length buf) p

-- One node's share of the copy.
share :
    (s : ByteArray) (i npos j : ℕ) (ys : List ℕ) (node : Node)
    → IsUniform s.base_size s.root
    → get_elem? s.root i ≡ some node
    → length node ≡ s.base_size
    → npos + length ys ≤ s.base_size
    → j ≡ i * s.base_size + npos
    → (length (set s.root i (overwrite node npos ys)) ≡ length s.root)
      × IsUniform s.base_size (set s.root i (overwrite node npos ys))
      × (concat (set s.root i (overwrite node npos ys)) ≡ overwrite (concat s.root) j ys)
share s i npos j ys node u here size h e = (
  length-set s.root i (overwrite node npos ys),
  All-set (λ m. length m ≡ s.base_size) s.root i (overwrite node npos ys) u
      (length-overwrite node npos ys ∙ size),
  overwrite-concat s.base_size s.root i npos j ys u here h e,
)

abbrev Run : ℕ → ByteArray → ℕ → ℕ → List ℕ → ℕ → Type 0
Run fuel s npos space buf j =
    (nodes : List Node) × (p : Option ℕ) × (write_loop fuel s npos space buf
      ≡ ok (moved s nodes p (s.position + length buf)))
    × Wrote s j buf nodes p

Run-more :
    (fuel : ℕ) (s : ByteArray) (i npos space b : ℕ) (bs : List ℕ) (j : ℕ) (node : Node)
    → IsUniform s.base_size s.root
    → s.cur ≡ some i
    → get_elem? s.root i ≡ some node
    → length node ≡ s.base_size
    → npos + space ≡ s.base_size
    → j ≡ i * s.base_size + npos
    → j + suc (length bs) ≤ length s.root * s.base_size
    → space < suc (length bs)
    → ((nodes : List Node)
        → IsUniform s.base_size nodes
        → length nodes ≡ length s.root
        → i + 1 < length nodes
        → Run fuel
            (moved s nodes (some (i + 1)) (s.position + space))
            0
            s.base_size
            (drop space (b ∷ bs))
            (j + space))
    → Run (suc fuel) s npos space (b ∷ bs) j
Run-more fuel s i npos space b bs j node u at_i here size r e fits beyond rest =
    let part = length-take space (b ∷ bs) (omega arith) in
    let left = length-drop space (b ∷ bs) (omega arith) in
    let (same, u', copied) =
      share s i npos j (take space (b ∷ bs)) node u here size (omega arith) e in
    let mid = set s.root i (overwrite node npos (take space (b ∷ bs))) in
    let inside : i + 1 < length s.root =
      lt_of_mul-lt (i + 1) (length s.root) s.base_size (omega arith) in
    let (follower, next, size') = block mid s.base_size u' (i + 1) (omega arith) in
    let (nodes, p, run, w) = rest mid u' same (omega arith) in
    let total : s.position + space + length (drop space (b ∷ bs)) ≡ s.position + suc (length bs) =
      omega arith in
    (
      nodes,
      p,
      write_loop-more fuel s i npos space b bs node follower at_i here (omega arith) next
            (omega arith) beyond (rw size' run)
          ∙ ap (λ q. ok (moved s nodes p q)) total,
      record {
        same_length = w.same_length ∙ same;
        uniform = w.uniform;
        memory =
            w.memory
            ∙ ap (λ m. overwrite m (j + space) (drop space (b ∷ bs))) copied
            ∙ overwrite-split (concat s.root) j (j + space) space (b ∷ bs) refl (omega arith);
        seated =
            subst (λ m. IsAt (length s.root) s.base_size m p) {y = j + suc (length bs)}
              (omega arith)
              (subst (λ n. IsAt n s.base_size (j + space + length (drop space (b ∷ bs))) p) same
                w.seated);
      },
    )

-- Enough fuel is the length of the buffer.
pub write_loop-overwrite :
    (fuel : ℕ) (s : ByteArray) (i npos space : ℕ) (buf : List ℕ) (j : ℕ)
    → IsUniform s.base_size s.root
    → s.cur ≡ some i
    → i < length s.root
    → npos < s.base_size
    → npos + space ≡ s.base_size
    → j ≡ i * s.base_size + npos
    → j + length buf ≤ length s.root * s.base_size
    → length buf ≤ fuel
    → Run fuel s npos space buf j
write_loop-overwrite fuel s i npos space [] j u at_i h k r e fits enough = (
  s.root,
  s.cur,
  unfold write_loop in ap (λ q. ok (moved s s.root s.cur q)) {y = s.position + 0} (omega arith),
  record {
    same_length = refl;
    uniform = u;
    memory = sym (overwrite-nil (concat s.root) j);
    seated = subst (IsAt (length s.root) s.base_size (j + 0)) (sym at_i) (omega arith);
  },
)
write_loop-overwrite zero s i npos space (b ∷ bs) j u at_i h k r e fits enough =
    absurd (omega arith)
write_loop-overwrite (suc fuel) s i npos space (b ∷ bs) j u at_i h k r e fits enough =
    let (node, here, size) = block s.root s.base_size u i h in
    elim (dec_le (suc (length bs)) space) [
      | yes last ↦
          let (same, u', copied) = share s i npos j (b ∷ bs) node u here size (omega arith) e in
          (
            set s.root i (overwrite node npos (b ∷ bs)),
            if length node == npos + suc (length bs) then next_of s.root i else some i,
            write_loop-last fuel s i npos space b bs node at_i here (omega arith) last,
            record {
              same_length = same;
              uniform = u';
              memory = copied;
              seated =
                  rw size (advance-IsAt s.root s.base_size i npos (length bs) j h e (omega arith));
            },
          )
      | no beyond ↦
          let shorter = length-drop space (b ∷ bs) (omega arith) in
          Run-more fuel s i npos space b bs j node u at_i here size r e fits (omega arith)
            (λ nodes u' same inside.
              write_loop-overwrite fuel (moved s nodes (some (i + 1)) (s.position + space)) (i + 1)
                0 s.base_size (drop space (b ∷ bs)) (j + space) u' refl inside (omega arith)
                (omega arith) (omega arith) (omega (arith, ap (λ (m : ℕ). m * s.base_size) same))
                (omega arith))
    ]
