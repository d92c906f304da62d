-- ===== src/Timer/Invariant.antt =====
-- When the timers are well formed: the set is sorted and holds just the timers with a callback.
-- Between the removal of some timers and their return or their end, these are `pending`.
use server_framework.Base.{
  ℕ, ◌≡◌, ◌≢◌, refl, sym, ap, ◌∙◌, subst, none, List, [], ◌∷◌, ◌⊎◌, inl, inr,
}
use server_framework.Timer.{Timer, TimerManager, assign, insert}
use server_framework.Timer.Order.{
  In, IsSorted, Removed, insert-IsSorted, insert-In, In-insert, assign-same, assign-other,
  IsSorted-assign,
}
use native.Mathlib.Decide.{ℕ_discrete}

pub record Pending (heap : ℕ → Timer) (pending timers : List ℕ) : Type 0 where
  pub sorted : IsSorted heap timers
  pub apart : (p : ℕ) → In p pending → In p timers → ⊥
  pub armed : (p : ℕ) → In p timers → (heap p).cb ≢ none
  pub listed : (p : ℕ) → (heap p).cb ≢ none → In p pending ⊎ In p timers

abbrev pub IsValid : TimerManager → Type 0
IsValid m = Pending m.heap [] m.timers

pub IsValid-listed : (m : TimerManager) → IsValid m → (p : ℕ) → (m.heap p).cb ≢ none → In p m.timers
IsValid-listed m v p h = elim (v.listed p h) [ inl i ↦ absurd i | inr i ↦ i ]

-- A new timer, or one that was taken out, is pending alone.
pub new-Pending :
    (m : TimerManager) (p : ℕ) → IsValid m → (In p m.timers → ⊥) → Pending m.heap (p ∷ []) m.timers
new-Pending m p v away = record {
  sorted = v.sorted;
  apart = λ r i j. elim i [ inl e ↦ away (subst (λ q. In q m.timers) e j) | inr k ↦ k ];
  armed = v.armed;
  listed = λ r h. inr (IsValid-listed m v r h);
}

pub Removed-Pending :
    (m : TimerManager) (p : ℕ) (qs : List ℕ)
    → IsValid m
    → Removed m.heap p m.timers qs
    → Pending m.heap (p ∷ []) qs
Removed-Pending m p qs v less = record {
  sorted = less.sorted;
  apart = λ r i j. elim i [ inl e ↦ less.gone (subst (λ q. In q qs) e j) | inr k ↦ k ];
  armed = λ r i. v.armed r (less.within r i);
  listed = λ r h. elim (ℕ_discrete r p) [
    | yes e ↦ inl (inl e)
    | no other ↦ inr (less.kept r (IsValid-listed m v r h) other)
  ];
}

module _ (heap : ℕ → Timer) (p : ℕ) (t : Timer) (ps qs : List ℕ) where
  -- A timer apart from `p` keeps its callback.
  cb-other : (r : ℕ) → r ≢ p → (assign heap p t r).cb ≡ (heap r).cb
  cb-other r other = ap (λ (u : Timer). u.cb) (assign-other heap p t r other)

  not-new : Pending heap (p ∷ ps) qs → (r : ℕ) → In r qs → r ≢ p
  not-new h r i e = h.apart p (inl refl) (subst (λ q. In q qs) e i)

  still-armed : Pending heap (p ∷ ps) qs → (r : ℕ) → In r qs → (assign heap p t r).cb ≢ none
  still-armed h r i e = h.armed r i (sym (cb-other r (not-new h r i)) ∙ e)

  still-listed :
      Pending heap (p ∷ ps) qs → (r : ℕ) → r ≢ p → (assign heap p t r).cb ≢ none → In r ps ⊎ In r qs
  still-listed h r other k = elim (h.listed r (λ e. k (cb-other r other ∙ e))) [
    | inl (inl e) ↦ absurd (other e)
    | inl (inr i) ↦ inl i
    | inr i ↦ inr i
  ]

  -- A pending timer with a callback goes back into the set.
  pub insert-Pending :
      Pending heap (p ∷ ps) qs
      → (In p ps → ⊥)
      → t.cb ≢ none
      → Pending (assign heap p t) ps (insert (assign heap p t) p qs)
  insert-Pending h once live =
      let away = h.apart p (inl refl) in
      let heap' = assign heap p t in
      record {
        sorted = insert-IsSorted heap' p qs away (IsSorted-assign heap p t qs away h.sorted);
        apart = λ r i j. elim (In-insert heap' p r qs away j) [
          | inl e ↦ once (subst (λ q. In q ps) e i)
          | inr k ↦ h.apart r (inr i) k
        ];
        armed = λ r i. elim (In-insert heap' p r qs away i) [
          | inl e ↦ λ none_left.
              live (
                ap (λ (u : Timer). u.cb) (sym (assign-same heap p t) ∙ ap heap' (sym e))
                ∙ none_left)
          | inr k ↦ still-armed h r k
        ];
        listed = λ r k. elim (ℕ_discrete r p) [
          | yes e ↦ inr (insert-In heap' p r qs away (inl e))
          | no other ↦ elim (still-listed h r other k) [
            | inl i ↦ inl i
            | inr i ↦ inr (insert-In heap' p r qs away (inr i))
          ]
        ];
      }

  -- A pending timer without a callback stays out of the set.
  pub drop-Pending : Pending heap (p ∷ ps) qs → t.cb ≡ none → Pending (assign heap p t) ps qs
  drop-Pending h dead = record {
    sorted = IsSorted-assign heap p t qs (h.apart p (inl refl)) h.sorted;
    apart = λ r i j. h.apart r (inr i) j;
    armed = still-armed h;
    listed = λ r k. elim (ℕ_discrete r p) [
      | yes e ↦
          absurd
            (k (ap (λ (u : Timer). u.cb) (ap (assign heap p t) e ∙ assign-same heap p t) ∙ dead))
      | no other ↦ still-listed h r other k
    ];
  }
