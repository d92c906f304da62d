-- ===== src/Base/Sums.antt =====
-- Sums over a list, and what a change of one element does to them.
use Prim.Native.Nat.{ℕ, zero, suc, ◌+◌, ◌≤◌}
use mathlib.Core.Path.{◌≡◌}
use mathlib.Core.List.{List, [], ◌∷◌}
use mathlib.Core.Option.{some}
use native.Mathlib.Omega.{arith}
use server_framework.Base.Lists.{All, get_elem?, set}

module _ {ℓ} {A : Type ℓ} (f : A → ℕ) where
  abbrev pub sum_of : List A → ℕ
  sum_of [] = 0
  sum_of (x ∷ xs) = f x + sum_of xs

  pub sum_of-set :
      (xs : List A) (i : ℕ) (x y : A)
      → get_elem? xs i ≡ some x
      → sum_of (set xs i y) + f x ≡ sum_of xs + f y
  sum_of-set [] i x y e = cc
  sum_of-set (z ∷ zs) zero x y e = let same : z ≡ x = cc e in rw same (omega arith)
  sum_of-set (z ∷ zs) (suc i) x y e = omega (arith, sum_of-set zs i x y e)

  pub le-sum_of : (xs : List A) (i : ℕ) (x : A) → get_elem? xs i ≡ some x → f x ≤ sum_of xs
  le-sum_of [] i x e = cc
  le-sum_of (z ∷ zs) zero x e = let same : z ≡ x = cc e in rw same (omega arith)
  le-sum_of (z ∷ zs) (suc i) x e = omega (arith, le-sum_of zs i x e)

  pub sum_of-zero : (xs : List A) → sum_of xs ≡ 0 → All (λ x. f x ≡ 0) xs
  sum_of-zero [] h = tt
  sum_of-zero (z ∷ zs) h = (omega arith, sum_of-zero zs (omega arith))
