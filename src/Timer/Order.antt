-- ===== src/Timer/Order.antt =====
-- The order of `Timer::Comparator`, and what `insert`, `find` and `erase` do to a sorted set.
use server_framework.Base.{
  ℕ, suc, ◌<◌, ◌≡◌, ◌≢◌, refl, sym, ap, ◌∙◌, subst, true, false, some, List, [], ◌∷◌, ◌⊎◌, inl, inr,
  All, arith,
}
use server_framework.Timer.{Timer, before, assign, insert, find, erase_at}
use native.Mathlib.Decide.{dec_lt, ℕ_discrete}

abbrev pub Before : (ℕ → Timer) → ℕ → ℕ → Type 0
Before heap p q = ((heap p).next < (heap q).next) ⊎ (((heap p).next ≡ (heap q).next) × (p < q))

abbrev pub In : ℕ → List ℕ → Type 0
In p [] = ⊥
In p (q ∷ qs) = (p ≡ q) ⊎ In p qs

abbrev pub IsSorted : (ℕ → Timer) → List ℕ → Type 0
IsSorted heap [] = Unit {0}
IsSorted heap (p ∷ ps) = All (Before heap p) ps × IsSorted heap ps

pub All-In {ℓ} : (P : ℕ → Type ℓ) (ps : List ℕ) {q : ℕ} → All P ps → In q ps → P q
All-In P [] h i = absurd i
All-In P (p ∷ ps) h (inl e) = subst P (sym e) h.0
All-In P (p ∷ ps) h (inr i) = All-In P ps h.1 i

pub All-weaken {ℓ κ} :
    (P : ℕ → Type ℓ) (Q : ℕ → Type κ) (ps : List ℕ)
    → ((q : ℕ) → In q ps → P q → Q q)
    → All P ps
    → All Q ps
All-weaken P Q [] f h = tt
All-weaken P Q (p ∷ ps) f h = (f p (inl refl) h.0, All-weaken P Q ps (λ q i. f q (inr i)) h.1)

module _ (heap : ℕ → Timer) where
  pub before-Before : (p q : ℕ) → Before heap p q → before heap (some p) (some q) ≡ true
  unfolding before
  before-Before p q h = ground arith

  pub before-not : (p q : ℕ) → Before heap q p → before heap (some p) (some q) ≡ false
  unfolding before
  before-not p q h = ground arith

  pub before-itself : (p : ℕ) → before heap (some p) (some p) ≡ false
  unfolding before
  before-itself p = ground arith

  pub Before-trans : (p q r : ℕ) → Before heap p q → Before heap q r → Before heap p r
  Before-trans p q r h k = ground arith

  pub Before-irrefl : (p : ℕ) → Before heap p p → ⊥
  Before-irrefl p h = ground arith

  pub Before-total : (p q : ℕ) → p ≢ q → Before heap p q ⊎ Before heap q p
  Before-total p q h = elim (dec_lt (heap p).next (heap q).next) [
    | yes first ↦ inl (inl first)
    | no later ↦ elim (dec_lt (heap q).next (heap p).next) [
      | yes first ↦ inr (inl first)
      | no same ↦ elim (dec_lt p q) [
        | yes low ↦ inl (inr (omega arith, low))
        | no high ↦ inr (inr (omega arith, omega (arith, h)))
      ]
    ]
  ]

  pub insert-nil : (p : ℕ) → insert heap p [] ≡ p ∷ []
  unfolding insert
  insert-nil p = refl

  pub insert-first : (p q : ℕ) (qs : List ℕ) → Before heap p q → insert heap p (q ∷ qs) ≡ p ∷ q ∷ qs
  unfolding insert
  insert-first p q qs h = rw (before-Before p q h)

  pub insert-later :
      (p q : ℕ) (qs : List ℕ) → Before heap q p → insert heap p (q ∷ qs) ≡ q ∷ insert heap p qs
  unfolding insert
  insert-later p q qs h = rw (before-not p q h, before-Before q p h)

  pub insert-All {ℓ} :
      (P : ℕ → Type ℓ) (p : ℕ) (ps : List ℕ)
      → (In p ps → ⊥)
      → P p
      → All P ps
      → All P (insert heap p ps)
  unfolding insert
  insert-All P p [] new h k = (h, tt)
  insert-All P p (q ∷ qs) new h k = elim (Before-total p q (λ e. new (inl e))) [
    | inl first ↦ subst (All P) (sym (insert-first p q qs first)) (h, k)
    | inr later ↦
        subst (All P) (sym (insert-later p q qs later))
          (k.0, insert-All P p qs (λ i. new (inr i)) h k.1)
  ]

  pub insert-IsSorted :
      (p : ℕ) (ps : List ℕ) → (In p ps → ⊥) → IsSorted heap ps → IsSorted heap (insert heap p ps)
  unfolding insert
  insert-IsSorted p [] new h = (tt, tt)
  insert-IsSorted p (q ∷ qs) new h = elim (Before-total p q (λ e. new (inl e))) [
    | inl first ↦ subst (IsSorted heap) (sym (insert-first p q qs first)) (
      (
        first,
        All-weaken (Before heap q) (Before heap p) qs (λ r i k. Before-trans p q r first k) h.0,
      ),
      h,
    )
    | inr later ↦ subst (IsSorted heap) (sym (insert-later p q qs later)) (
      insert-All (Before heap q) p qs (λ i. new (inr i)) later h.0,
      insert-IsSorted p qs (λ i. new (inr i)) h.1,
    )
  ]

  pub insert-In : (p r : ℕ) (ps : List ℕ) → (In p ps → ⊥) → In r (p ∷ ps) → In r (insert heap p ps)
  unfolding insert
  insert-In p r [] new i = i
  insert-In p r (q ∷ qs) new i = elim (Before-total p q (λ e. new (inl e))) [
    | inl first ↦ subst (In r) (sym (insert-first p q qs first)) i
    | inr later ↦ subst (In r) (sym (insert-later p q qs later)) (elim i [
      | inl e ↦ inr (insert-In p r qs (λ j. new (inr j)) (inl e))
      | inr (inl e) ↦ inl e
      | inr (inr j) ↦ inr (insert-In p r qs (λ j. new (inr j)) (inr j))
    ])
  ]

  pub In-insert : (p r : ℕ) (ps : List ℕ) → (In p ps → ⊥) → In r (insert heap p ps) → In r (p ∷ ps)
  unfolding insert
  In-insert p r [] new i = i
  In-insert p r (q ∷ qs) new i = elim (Before-total p q (λ e. new (inl e))) [
    | inl first ↦ subst (In r) (insert-first p q qs first) i
    | inr later ↦ elim (subst (In r) (insert-later p q qs later) i) [
      | inl e ↦ inr (inl e)
      | inr j ↦ elim (In-insert p r qs (λ k. new (inr k)) j) [ inl e ↦ inl e | inr k ↦ inr (inr k) ]
    ]
  ]

pub assign-same : (heap : ℕ → Timer) (p : ℕ) (t : Timer) → assign heap p t p ≡ t
unfolding assign
assign-same heap p t = ground arith

pub assign-other :
    (heap : ℕ → Timer) (p : ℕ) (t : Timer) (q : ℕ) → q ≢ p → assign heap p t q ≡ heap q
unfolding assign
assign-other heap p t q h = ground arith

-- A set stays sorted where its timers keep their times.
pub IsSorted-agree :
    (heap heap' : ℕ → Timer) (ps : List ℕ)
    → ((q : ℕ) → In q ps → (heap' q).next ≡ (heap q).next)
    → IsSorted heap ps
    → IsSorted heap' ps
IsSorted-agree heap heap' [] same h = tt
IsSorted-agree heap heap' (p ∷ ps) same h = (
  All-weaken (Before heap p) (Before heap' p) ps (λ q i k. rw (same p (inl refl), same q (inr i)) k)
      h.0,
  IsSorted-agree heap heap' ps (λ q i. same q (inr i)) h.1,
)

pub IsSorted-assign :
    (heap : ℕ → Timer) (p : ℕ) (t : Timer) (ps : List ℕ)
    → (In p ps → ⊥)
    → IsSorted heap ps
    → IsSorted (assign heap p t) ps
IsSorted-assign heap p t ps away = IsSorted-agree heap (assign heap p t) ps (λ q i.
    ap (λ (u : Timer). u.next) (assign-other heap p t q (λ e. away (subst (λ r. In r ps) e i))))

-- What is left of a set of which `p` was removed.
pub record Removed (heap : ℕ → Timer) (p : ℕ) (ps qs : List ℕ) : Type 0 where
  pub sorted : IsSorted heap qs
  pub gone : In p qs → ⊥
  pub kept : (r : ℕ) → In r ps → r ≢ p → In r qs
  pub within : (r : ℕ) → In r qs → In r ps

module _ (heap : ℕ → Timer) where
  find-here : (p : ℕ) (qs : List ℕ) → find heap p (p ∷ qs) ≡ some 0
  unfolding find
  find-here p qs = rw (before-itself heap p)

  find-later :
      (p q i : ℕ) (qs : List ℕ)
      → Before heap q p
      → find heap p qs ≡ some i
      → find heap p (q ∷ qs) ≡ some (suc i)
  unfolding find
  find-later p q i qs h e = rw (before-not heap p q h, before-Before heap q p h, e)

  -- `find` reaches every element of a sorted set, and `erase` removes just that.
  pub find-Removed :
      (p : ℕ) (ps : List ℕ)
      → IsSorted heap ps
      → In p ps
      → (i : ℕ) × (find heap p ps ≡ some i) × Removed heap p ps (erase_at ps i)
  unfolding erase_at
  find-Removed p [] h i = absurd i
  find-Removed p (q ∷ qs) h i = elim (ℕ_discrete p q) [
    | yes e ↦ (
      0,
      subst (λ r. find heap p (r ∷ qs) ≡ some 0) e (find-here p qs),
      record {
        sorted = h.1;
        gone = λ j. Before-irrefl heap q (All-In (Before heap q) qs h.0 (subst (λ r. In r qs) e j));
        kept = λ r j other. elim j [ inl same ↦ absurd (other (same ∙ sym e)) | inr k ↦ k ];
        within = λ r j. inr j;
      },
    )
    | no other ↦ elim i [
      | inl e ↦ absurd (other e)
      | inr j ↦
          let (k, at_k, less) = find-Removed p qs h.1 j in
          (
            suc k,
            find-later p q k qs (All-In (Before heap q) qs h.0 j) at_k,
            record {
              sorted = (
                All-weaken (λ r. In r qs) (Before heap q) (erase_at qs k)
                    (λ r l m. All-In (Before heap q) qs h.0 m)
                    (all_within (erase_at qs k) qs less.within),
                less.sorted,
              );
              gone = λ l. elim l [ inl e ↦ other e | inr m ↦ less.gone m ];
              kept = λ r l apart. elim l [ inl e ↦ inl e | inr m ↦ inr (less.kept r m apart) ];
              within = λ r l. elim l [ inl e ↦ inl e | inr m ↦ inr (less.within r m) ];
            },
          )
    ]
  ]
    where
      all_within : (xs ys : List ℕ) → ((r : ℕ) → In r xs → In r ys) → All (λ r. In r ys) xs
      all_within [] ys f = tt
      all_within (x ∷ xs) ys f = (f x (inl refl), all_within xs ys (λ r i. f r (inr i)))
