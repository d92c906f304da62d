-- ===== src/ByteArray/Seek.antt =====
-- `setPosition` finds the node of a position; `clear` starts anew.
use server_framework.Base.{
  ℕ, zero, suc, ◌+◌, ◌-◌, ◌*◌, ◌≤◌, ◌<◌, ◌≡◌, refl, ◌∙◌, subst, Option, some, List, [], ◌∷◌, length,
  take, get_elem?, max, if◌then◌else◌, ltb, ◌==◌, ok, fail, out_of_range, arith, Bool-cases, inl,
  inr, le→leb, leb-false, lt→ltb, ltb-false,
}
use server_framework.ByteArray.{ByteArray, Node, seek_loop, set_position, clear, next_of}
use server_framework.ByteArray.Flat.{IsUniform, IsAt, block, lt_of_mul-lt}
use server_framework.ByteArray.Invariant.{IsValid, contents}
use native.Mathlib.Decide.{dec_le}

seek-here :
    (fuel : ℕ) (nodes : List Node) (i v : ℕ) (node : Node)
    → get_elem? nodes i ≡ some node
    → v ≤ length node
    → seek_loop (suc fuel) nodes (some i) v
      ≡ ok (if v == length node then next_of nodes i else some i)
unfolding seek_loop
seek-here fuel nodes i v node e h = rw (e, ltb-false (length node) v h)

seek-on :
    (fuel : ℕ) (nodes : List Node) (i v : ℕ) {b : ℕ} (node : Node)
    → get_elem? nodes i ≡ some node
    → length node ≡ b
    → b < v
    → i + 1 < length nodes
    → seek_loop (suc fuel) nodes (some i) v ≡ seek_loop fuel nodes (some (i + 1)) (v - b)
unfolding seek_loop
seek-on fuel nodes i v {b} node e size h inside =
    rw (e, size, lt→ltb b v h, lt→ltb (i + 1) (length nodes) inside)

here-IsAt :
    (nodes : List Node) (b i v : ℕ)
    → i < length nodes
    → 0 < b
    → v ≤ b
    → IsAt (length nodes) b (i * b + v) (if v == b then next_of nodes i else some i)
here-IsAt nodes b i v h pos k = elim (Bool-cases (v == b)) [
  | inr before ↦ rw before (ground arith)
  | inl full ↦ rw full (elim (Bool-cases (ltb (i + 1) (length nodes))) [
    | inl more ↦ rw more (ground arith)
    | inr ends ↦ rw ends (let last : length nodes ≡ i + 1 = ground arith in rw last (ground arith))
  ])
]

-- One round for each node is enough.
seek_loop-IsAt :
    (fuel : ℕ) (nodes : List Node) (b i v : ℕ)
    → IsUniform b nodes
    → 0 < b
    → i < length nodes
    → i * b + v ≤ length nodes * b
    → length nodes ≤ i + fuel
    → (p : Option ℕ) × (seek_loop fuel nodes (some i) v ≡ ok p)
      × IsAt (length nodes) b (i * b + v) p
seek_loop-IsAt zero nodes b i v u pos h fits enough = absurd (omega arith)
seek_loop-IsAt (suc fuel) nodes b i v u pos h fits enough =
    let (node, here, size) = block nodes b u i h in
    elim (dec_le v b) [
      | yes stop ↦ (
        if v == length node then next_of nodes i else some i,
        seek-here fuel nodes i v node here (omega arith),
        rw size (here-IsAt nodes b i v h pos stop),
      )
      | no further ↦
          let inside = lt_of_mul-lt (i + 1) (length nodes) b (omega arith) in
          let (p, run, seat) =
            seek_loop-IsAt fuel nodes b (i + 1) (v - b) u pos inside (omega arith) (omega arith) in
          (
            p,
            seek-on fuel nodes i v node here size (omega arith) inside ∙ run,
            subst (λ q. IsAt (length nodes) b q p) {y = i * b + v} (omega arith) seat,
          )
    ]

set_position_steps :
    (s : ByteArray) (q : ℕ) (p : Option ℕ)
    → q ≤ s.capacity
    → seek_loop (length s.root) s.root (some 0) q ≡ ok p
    → set_position s q
      ≡ ok (record s { position = q; size = if ltb s.size q then q else s.size; cur = p })
unfolding set_position
set_position_steps s q p h run = rw (le→leb q s.capacity h, run)

larger : (a b : ℕ) → (if ltb a b then b else a) ≡ max a b
larger a b = ground arith

module _ (s : ByteArray) (q : ℕ) (v : IsValid s) where
  -- `setPosition` to a place within the capacity succeeds and keeps a well-formed array well
  -- formed; the position is the one asked for, the size grows up to it if it was less, and the
  -- memory and the byte order stay.
  pub set_position-IsValid :
      q ≤ s.capacity
      → (t : ByteArray) × (set_position s q ≡ ok t)
        × IsValid t
        × (t.position ≡ q)
        × (t.size ≡ max s.size q)
        × (t.root ≡ s.root)
        × (t.endian ≡ s.endian)
  set_position-IsValid h =
      let (p, run, seat) =
        seek_loop-IsAt (length s.root) s.root s.base_size 0 q v.uniform v.positive v.rooted
          (omega (arith, v.chained)) (omega arith) in
      let end = larger s.size q in
      (
        record s { position = q; size = if ltb s.size q then q else s.size; cur = p },
        set_position_steps s q p h run,
        record {
          positive = v.positive;
          rooted = v.rooted;
          uniform = v.uniform;
          chained = v.chained;
          ordered = omega (arith, end);
          bounded = omega (arith, end, v.bounded);
          seated = subst (λ k. IsAt (length s.root) s.base_size k p) (omega arith) seat;
        },
        refl,
        end,
        refl,
        refl,
      )

  pub set_position_out_of_range : s.capacity < q → set_position s q ≡ fail out_of_range
  unfolding set_position
  set_position_out_of_range h = rw (leb-false q s.capacity h)

take-one : (nodes : List Node) → 0 < length nodes → length (take 1 nodes) ≡ 1
take-one [] h = absurd (omega arith)
take-one (x ∷ xs) h = refl

take-IsUniform : (b : ℕ) (nodes : List Node) → IsUniform b nodes → IsUniform b (take 1 nodes)
take-IsUniform b [] u = tt
take-IsUniform b (x ∷ xs) u = (u.0, tt)

-- `clear` keeps a well-formed array well formed, and leaves an empty file and the position 0.
pub clear-IsValid :
    (s : ByteArray)
    → IsValid s
    → IsValid (clear s) × (contents (clear s) ≡ []) × ((clear s).position ≡ 0)
unfolding clear
clear-IsValid s v =
    let one = take-one s.root v.rooted in
    (
      record {
        positive = v.positive;
        rooted = omega arith;
        uniform = take-IsUniform s.base_size s.root v.uniform;
        chained = rw one (omega arith);
        ordered = omega arith;
        bounded = omega arith;
        seated = rw one (omega (arith, v.positive));
      },
      refl,
      refl,
    )
