-- ===== src/Timer/Split.antt =====
-- Which timers expire: `lower_bound` and the loop behind it cut the set where the due ones end.
use server_framework.Base.{
  ℕ, suc, ◌≤◌, ◌<◌, ◌≡◌, ◌≢◌, refl, sym, subst, Bool-cases, false, true, some, List, [], ◌∷◌, inl,
  inr, All, take, drop, eq→==, ne→==, arith,
}
use server_framework.Timer.{Timer, before, lower_bound, skip_equal}
use server_framework.Timer.Order.{Before, IsSorted, All-weaken}
use native.Mathlib.Decide.{ℕ_discrete}

module _ (heap : ℕ → Timer) (now : ℕ) where
  abbrev pub Due : ℕ → Type 0
  Due p = (heap p).next ≤ now

  abbrev pub Late : ℕ → Type 0
  Late p = now < (heap p).next

  -- A cut at place `k`: the timers before it satisfy `P`, the others `Q`.
  abbrev pub Cut : (P Q : ℕ → Type 0) → ℕ → List ℕ → Type 0
  Cut P Q k ps = All P (take k ps) × All Q (drop k ps)

  pub All-later : (p : ℕ) (ps : List ℕ) → Late p → All (Before heap p) ps → All Late ps
  All-later p ps late = All-weaken (Before heap p) Late ps (λ q i h. ground arith)

  skip-one :
      (p : ℕ) (ps : List ℕ)
      → (heap p).next ≡ now
      → skip_equal heap now (p ∷ ps) ≡ suc (skip_equal heap now ps)
  unfolding skip_equal
  skip-one p ps e = rw (eq→== (heap p).next now e)

  skip-none : (p : ℕ) (ps : List ℕ) → (heap p).next ≢ now → skip_equal heap now (p ∷ ps) ≡ 0
  unfolding skip_equal
  skip-none p ps e = rw (ne→== (heap p).next now e)

  skip-nil : skip_equal heap now [] ≡ 0
  unfolding skip_equal
  skip-nil = refl

  pub skip-Cut :
      (ps : List ℕ)
      → IsSorted heap ps
      → All (λ p. now ≤ (heap p).next) ps
      → Cut Due Late (skip_equal heap now ps) ps
  skip-Cut [] sorted low = rw skip-nil (tt, tt)
  skip-Cut (p ∷ ps) sorted low = elim (ℕ_discrete (heap p).next now) [
    | yes e ↦
        let cut = skip-Cut ps sorted.1 low.1 in
        subst (λ k. Cut Due Late k (p ∷ ps)) (sym (skip-one p ps e)) ((omega arith, cut.0), cut.1)
    | no other ↦
        let late : Late p = omega (arith, low.0, other) in
        subst (λ k. Cut Due Late k (p ∷ ps)) (sym (skip-none p ps other))
          (tt, (late, All-later p ps late sorted.0))
  ]

module _ (heap : ℕ → Timer) (probe : ℕ) where
  bound-before :
      (p : ℕ) (ps : List ℕ)
      → before heap (some p) (some probe) ≡ true
      → lower_bound heap probe (p ∷ ps) ≡ suc (lower_bound heap probe ps)
  unfolding lower_bound
  bound-before p ps e = rw e

  bound-here :
      (p : ℕ) (ps : List ℕ)
      → before heap (some p) (some probe) ≡ false
      → lower_bound heap probe (p ∷ ps) ≡ 0
  unfolding lower_bound
  bound-here p ps e = rw e

  bound-nil : lower_bound heap probe [] ≡ 0
  unfolding lower_bound
  bound-nil = refl

  true-before :
      (p : ℕ) → before heap (some p) (some probe) ≡ true → (heap p).next ≤ (heap probe).next
  unfolding before
  true-before p e = ground arith

  not_before :
      (p : ℕ) → before heap (some p) (some probe) ≡ false → (heap probe).next ≤ (heap p).next
  unfolding before
  not_before p e = ground arith

  pub lower-Cut :
      (ps : List ℕ)
      → IsSorted heap ps
      → Cut heap
          (heap probe).next
          (Due heap (heap probe).next)
          (λ p. (heap probe).next ≤ (heap p).next)
          (lower_bound heap probe ps)
          ps
  lower-Cut [] sorted = rw bound-nil (tt, tt)
  lower-Cut (p ∷ ps) sorted = elim (Bool-cases (before heap (some p) (some probe))) [
    | inl e ↦
        let cut = lower-Cut ps sorted.1 in
        rw (bound-before p ps e) ((true-before p e, cut.0), cut.1)
    | inr e ↦
        let low = not_before p e in
        rw (bound-here p ps e) (
          tt,
          (
            low,
            All-weaken (Before heap p) (λ q. (heap probe).next ≤ (heap q).next) ps
                (λ q i h. ground arith) sorted.0,
          ),
        )
  ]
