-- ===== src/ByteArray/Flat.antt =====
-- The chain of nodes as one flat memory: node `i` of blocks of `b` bytes begins at `i * b`.
use server_framework.Base.{
  ℕ, zero, suc, ◌+◌, ◌-◌, ◌*◌, ◌%◌, ◌≤◌, ◌<◌, ◌≡◌, refl, ap, ◌∙◌, Option, none, some, List, [], ◌∷◌,
  ◌++◌, All, length, concat, get_elem?, set, length-append, arith, Bool-cases, ltb, if◌then◌else◌,
  ◌==◌, inl, inr, get_elem?-lt, All-get_elem?,
}
use server_framework.Base.Slices.{
  slice, overwrite, slice-append_left, slice-append_right, overwrite-append_left,
  overwrite-append_right,
}
use server_framework.ByteArray.{Node, next_of}
use native.Mathlib.Decide.{dec_lt}
use native.Mathlib.Nat.{add-mul-mod_self_right, mod-eq_of_lt}

abbrev pub IsUniform : ℕ → List Node → Type 0
IsUniform b nodes = All (λ node. length node ≡ b) nodes

-- A pointer stands at the node of position `p`; at the very end of the chain it is null.
abbrev pub IsAt : ℕ → ℕ → ℕ → Option ℕ → Type 0
IsAt n b p (some i) = (i < n) × (i * b ≤ p) × (p < i * b + b)
IsAt n b p none = p ≡ n * b

pub mod-block : (i b p : ℕ) → i * b ≤ p → p < i * b + b → p % b ≡ p - i * b
mod-block i b p h k =
    let whole : p ≡ p - i * b + i * b = omega arith in
    ap (λ q. q % b) whole ∙ add-mul-mod_self_right (p - i * b) i b ∙ mod-eq_of_lt (omega arith)

pub lt_of_mul-lt : (a c b : ℕ) → a * b < c * b → a < c
lt_of_mul-lt a c b h = elim (dec_lt a c) [
  | yes lt ↦ lt
  | no ge ↦ let le : c ≤ a = omega arith in absurd (grind arith)
]

module _ (b : ℕ) where
  pub length-concat :
      (nodes : List Node) → IsUniform b nodes → length (concat nodes) ≡ length nodes * b
  length-concat [] u = omega arith
  length-concat (x ∷ xs) u = omega (arith, length-append x (concat xs), length-concat xs u.1, u.0)

  pub slice-concat :
      (nodes : List Node) (i npos n j : ℕ) {node : Node}
      → IsUniform b nodes
      → get_elem? nodes i ≡ some node
      → npos + n ≤ b
      → j ≡ i * b + npos
      → slice (concat nodes) j n ≡ slice node npos n
  slice-concat [] i npos n j u e h k = cc
  slice-concat (x ∷ xs) zero npos n j {node} u e h k =
      let same : x ≡ node = cc in
      let start : j ≡ npos = omega arith in
      slice-append_left x (concat xs) j n (omega (arith, u.0)) ∙ cc (same, start)
  slice-concat (x ∷ xs) (suc i) npos n j u e h k =
      slice-append_right x (concat xs) j (i * b + npos) n (omega (arith, u.0))
      ∙ slice-concat xs i npos n (i * b + npos) u.1 e h refl

  pub overwrite-concat :
      (nodes : List Node) (i npos j : ℕ) (ys : List ℕ) {node : Node}
      → IsUniform b nodes
      → get_elem? nodes i ≡ some node
      → npos + length ys ≤ b
      → j ≡ i * b + npos
      → concat (set nodes i (overwrite node npos ys)) ≡ overwrite (concat nodes) j ys
  overwrite-concat [] i npos j ys u e h k = cc
  overwrite-concat (x ∷ xs) zero npos j ys {node} u e h k =
      let same : x ≡ node = cc in
      let start : j ≡ npos = omega arith in
      rw (overwrite-append_left x (concat xs) j ys (omega (arith, u.0))) (cc (same, start))
  overwrite-concat (x ∷ xs) (suc i) npos j ys u e h k =
      rw (overwrite-append_right x (concat xs) j (i * b + npos) ys (omega (arith, u.0)))
        (ap (◌++◌ x) (overwrite-concat xs i npos (i * b + npos) ys u.1 e h refl))

pub advance-IsAt :
    (nodes : List Node) (b i npos n j : ℕ)
    → i < length nodes
    → j ≡ i * b + npos
    → npos + suc n ≤ b
    → IsAt (length nodes) b (j + suc n) (if b == npos + suc n then next_of nodes i else some i)
advance-IsAt nodes b i npos n j h e k = elim (Bool-cases (b == npos + suc n)) [
  | inr stays ↦ rw stays (ground arith)
  | inl fills ↦ rw fills (elim (Bool-cases (ltb (i + 1) (length nodes))) [
    | inl more ↦ rw more (ground arith)
    | inr ends ↦ rw ends (let last : length nodes ≡ i + 1 = ground arith in rw last (ground arith))
  ])
]

-- Every index in range has a block of `b` bytes.
pub block :
    (nodes : List Node) (b : ℕ)
    → IsUniform b nodes
    → (i : ℕ) → i < length nodes
    → (node : Node) × (get_elem? nodes i ≡ some node) × (length node ≡ b)
block nodes b uniform i h =
    let (node, e) = get_elem?-lt nodes i h in
    (node, e, All-get_elem? (λ m. length m ≡ b) nodes i uniform e)
