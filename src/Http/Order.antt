-- ===== src/Http/Order.antt =====
-- The order of the keys, which ignores case, and maps in this order.
use server_framework.Base.{
  ℕ, ◌≡◌, refl, sym, ◌∙◌, true, false, Bool-cases, ltb-false, List, [], ◌∷◌, All, arith, inl, inr,
}
use server_framework.Http.{less, folded, case_less, Field}

pub less_irrefl : (a : List ℕ) → less a a ≡ false
unfolding less
less_irrefl [] = refl
less_irrefl (x ∷ xs) = rw (ltb-false x x (omega arith)) (less_irrefl xs)

-- The order is total.
less-total : (a b : List ℕ) → less a b ≡ false → less b a ≡ false → a ≡ b
unfolding less
less-total [] [] h k = refl
less-total [] (y ∷ ys) h k = cc
less-total (x ∷ xs) [] h k = cc
less-total (x ∷ xs) (y ∷ ys) h k =
    let h' : less xs ys ≡ false = ground arith in
    let k' : less ys xs ≡ false = ground arith in
    let head : x ≡ y = ground arith in
    let tail : xs ≡ ys = less-total xs ys h' k' in rw (head, tail) refl

less_trans : (a b c : List ℕ) → less a b ≡ true → less b c ≡ true → less a c ≡ true
unfolding less
less_trans a [] c h k = cc
less_trans a (y ∷ ys) [] h k = cc
less_trans [] (y ∷ ys) (z ∷ zs) h k = refl
less_trans (x ∷ xs) (y ∷ ys) (z ∷ zs) h k = ground (arith, less_trans xs ys zs)

abbrev pub IsBefore : List ℕ → List ℕ → Type 0
IsBefore a b = case_less a b ≡ true

-- The keys are in order, and no two of them are the same but for case.
abbrev pub IsOrdered : List Field → Type 0
IsOrdered [] = Unit
IsOrdered (e ∷ es) = All (λ (x : Field). IsBefore e.key x.key) es × IsOrdered es

pub case_less_trans : (a b c : List ℕ) → IsBefore a b → IsBefore b c → IsBefore a c
case_less_trans a b c h k = less_trans (folded a) (folded b) (folded c) h k

pub case_less-same :
    (a b : List ℕ) → case_less a b ≡ false → case_less b a ≡ false → folded a ≡ folded b
case_less-same a b h k = less-total (folded a) (folded b) h k

pub case_less-asym : (a b : List ℕ) → IsBefore a b → case_less b a ≡ false
case_less-asym a b h = elim (Bool-cases (case_less b a)) [
  | inl e ↦ let loop : true ≡ false = sym (case_less_trans a b a h e) ∙ less_irrefl (folded a) in cc
  | inr e ↦ e
]

pub All-map {κ} :
    (P Q : Field → Type κ) (es : List Field) → ((x : Field) → P x → Q x) → All P es → All Q es
All-map P Q [] f h = tt
All-map P Q (e ∷ es) f h = (f e h.0, All-map P Q es f h.1)
