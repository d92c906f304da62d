-- ===== src/ByteArray/Invariant.antt =====
-- When a `ByteArray` is well formed, and the file that it stands for.
use server_framework.Base.{size_sub}
use server_framework.Base.{ℕ, ◌+◌, ◌*◌, ◌≤◌, ◌<◌, ◌≡◌, Option, List, length, take, concat, arith}
use server_framework.ByteArray.{ByteArray, new}
use server_framework.ByteArray.Flat.{IsUniform, IsAt}
use server_framework.Base.{length-replicate, refl, some, none, ◌-◌, le→leb, suc}

pub record IsValid (s : ByteArray) : Type 0 where
  pub positive : 0 < s.base_size
  pub rooted : 0 < length s.root
  pub uniform : IsUniform s.base_size s.root
  pub chained : s.capacity ≡ length s.root * s.base_size
  pub ordered : s.position ≤ s.size
  pub bounded : s.size ≤ s.capacity
  pub seated : IsAt (length s.root) s.base_size s.position s.cur

-- The file: what stands in `[0, m_size)`.
abbrev pub contents : ByteArray → List ℕ
contents s = take s.size (concat s.root)

pub new-IsValid : (garbage base_size : ℕ) → 0 < base_size → IsValid (new garbage base_size)
unfolding new
new-IsValid garbage b h = record {
  positive = h;
  rooted = omega arith;
  uniform = (length-replicate b garbage, tt);
  chained = omega arith;
  ordered = omega arith;
  bounded = omega arith;
  seated = omega arith;
}

-- The pointer is null at the very end of the chain only.
pub node_under :
    (s : ByteArray)
    → IsValid s
    → s.position < s.capacity
    → (i : ℕ) × (s.cur ≡ some i)
      × (i < length s.root)
      × (i * s.base_size ≤ s.position)
      × (s.position < i * s.base_size + s.base_size)
node_under s v h = go s.cur refl v.seated
  where
    go :
        (p : Option ℕ)
        → s.cur ≡ p
        → IsAt (length s.root) s.base_size s.position p
        → (i : ℕ) × (s.cur ≡ some i)
          × (i < length s.root)
          × (i * s.base_size ≤ s.position)
          × (s.position < i * s.base_size + s.base_size)
    go none e at_end = absurd (omega (arith, v.chained))
    go (some i) e within = (i, e, within.0, within.1, within.2)

pub past_end : (i n b : ℕ) → i < n → n * b < i * b + b → ⊥
past_end i n b h k = let le : suc i ≤ n = h in grind arith

pub null_at_end : (s : ByteArray) → IsValid s → s.position ≡ s.capacity → s.cur ≡ none
null_at_end s v h = go s.cur v.seated
  where
    go : (p : Option ℕ) → IsAt (length s.root) s.base_size s.position p → p ≡ none
    go none at_end = refl
    go (some i) within =
        absurd (past_end i (length s.root) s.base_size (omega arith) (omega (arith, v.chained)))

pub size_sub_exact : (a b : ℕ) → b ≤ a → size_sub a b ≡ a - b
size_sub_exact a b h = rw (le→leb b a h)
