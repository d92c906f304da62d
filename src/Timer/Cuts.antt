-- ===== src/Timer/Cuts.antt =====
-- A sorted set cut in two: the timers before the cut are taken out, and are pending.
use server_framework.Base.{
  ℕ, zero, suc, ◌+◌, ◌≤◌, ◌≡◌, ◌≢◌, refl, ap, subst, false, none, List, [], ◌∷◌, ◌⊎◌, inl, inr, All,
  take, drop, arith,
}
use server_framework.Base.Slices.{take-nil, drop-nil}
use server_framework.Timer.{Timer, TimerManager, assign, lower_bound, skip_equal, expired_count}
use server_framework.Timer.Order.{
  In, Before, Before-irrefl, IsSorted, IsSorted-assign, All-In, assign-same, assign-other,
}
use server_framework.Timer.Invariant.{Pending, IsValid, IsValid-listed}
use server_framework.Timer.Split.{Due, Late, Cut, skip-Cut, lower-Cut}

abbrev pub IsDistinct : List ℕ → Type 0
IsDistinct [] = Unit {0}
IsDistinct (p ∷ ps) = (In p ps → ⊥) × IsDistinct ps

In-take : (k : ℕ) (ps : List ℕ) (q : ℕ) → In q (take k ps) → In q ps
In-take zero ps q i = absurd i
In-take (suc k) [] q i = absurd i
In-take (suc k) (p ∷ ps) q (inl e) = inl e
In-take (suc k) (p ∷ ps) q (inr i) = inr (In-take k ps q i)

In-drop : (k : ℕ) (ps : List ℕ) (q : ℕ) → In q (drop k ps) → In q ps
In-drop zero ps q i = i
In-drop (suc k) [] q i = absurd i
In-drop (suc k) (p ∷ ps) q i = inr (In-drop k ps q i)

take-or-drop : (k : ℕ) (ps : List ℕ) (q : ℕ) → In q ps → In q (take k ps) ⊎ In q (drop k ps)
take-or-drop zero ps q i = inr i
take-or-drop (suc k) [] q i = absurd i
take-or-drop (suc k) (p ∷ ps) q (inl e) = inl (inl e)
take-or-drop (suc k) (p ∷ ps) q (inr i) = elim (take-or-drop k ps q i) [
  | inl j ↦ inl (inr j)
  | inr j ↦ inr j
]

drop-IsSorted :
    (heap : ℕ → Timer) (k : ℕ) (ps : List ℕ) → IsSorted heap ps → IsSorted heap (drop k ps)
drop-IsSorted heap zero ps h = h
drop-IsSorted heap (suc k) [] h = tt
drop-IsSorted heap (suc k) (p ∷ ps) h = drop-IsSorted heap k ps h.1

take-apart :
    (heap : ℕ → Timer) (k : ℕ) (ps : List ℕ) (q : ℕ)
    → IsSorted heap ps
    → In q (take k ps)
    → In q (drop k ps)
    → ⊥
take-apart heap zero ps q h i j = i
take-apart heap (suc k) [] q h i j = i
take-apart heap (suc k) (p ∷ ps) q h (inl e) j =
    Before-irrefl heap p (All-In (Before heap p) ps h.0 (subst (λ r. In r ps) e (In-drop k ps q j)))
take-apart heap (suc k) (p ∷ ps) q h (inr i) j = take-apart heap k ps q h.1 i j

pub take-IsDistinct :
    (heap : ℕ → Timer) (k : ℕ) (ps : List ℕ) → IsSorted heap ps → IsDistinct (take k ps)
take-IsDistinct heap zero ps h = tt
take-IsDistinct heap (suc k) [] h = tt
take-IsDistinct heap (suc k) (p ∷ ps) h = (
  λ i. Before-irrefl heap p (All-In (Before heap p) ps h.0 (In-take k ps p i)),
  take-IsDistinct heap k ps h.1,
)

pub take-armed :
    (m : TimerManager) (k : ℕ) → IsValid m → (p : ℕ) → In p (take k m.timers) → (m.heap p).cb ≢ none
take-armed m k v p i = v.armed p (In-take k m.timers p i)

pub cut-Pending :
    (m : TimerManager) (k : ℕ) → IsValid m → Pending m.heap (take k m.timers) (drop k m.timers)
cut-Pending m k v = record {
  sorted = drop-IsSorted m.heap k m.timers v.sorted;
  apart = λ p i j. take-apart m.heap k m.timers p v.sorted i j;
  armed = λ p i. v.armed p (In-drop k m.timers p i);
  listed = λ p h. take-or-drop k m.timers p (IsValid-listed m v p h);
}

cut-weaken :
    (P P' Q Q' : ℕ → Type 0) (k : ℕ) (ps : List ℕ)
    → ((q : ℕ) → In q ps → P q → P' q)
    → ((q : ℕ) → In q ps → Q q → Q' q)
    → All P (take k ps) × All Q (drop k ps)
    → All P' (take k ps) × All Q' (drop k ps)
cut-weaken P P' Q Q' zero [] f g h = (tt, tt)
cut-weaken P P' Q Q' zero (p ∷ ps) f g h = (
  tt,
  (
    g p (inl refl) h.1.0,
    (cut-weaken P P' Q Q' zero ps (λ q i. f q (inr i)) (λ q i. g q (inr i)) (tt, h.1.1)).1,
  ),
)
cut-weaken P P' Q Q' (suc k) [] f g h = (tt, tt)
cut-weaken P P' Q Q' (suc k) (p ∷ ps) f g h =
    let rest = cut-weaken P P' Q Q' k ps (λ q i. f q (inr i)) (λ q i. g q (inr i)) (h.0.1, h.1) in
    ((f p (inl refl) h.0.0, rest.0), rest.1)

cut-add :
    (P Q : ℕ → Type 0) (a k : ℕ) (ps : List ℕ)
    → All P (take a ps)
    → All P (take k (drop a ps)) × All Q (drop k (drop a ps))
    → All P (take (a + k) ps) × All Q (drop (a + k) ps)
cut-add P Q zero k ps low h = let same : 0 + k ≡ k = omega arith in rw same h
cut-add P Q (suc a) k [] low h = rw (take-nil (suc a + k), drop-nil (suc a + k)) (tt, tt)
cut-add P Q (suc a) k (p ∷ ps) low h =
    let rest = cut-add P Q a k ps low.1 h in
    let same : suc a + k ≡ suc (a + k) = omega arith in rw same ((low.0, rest.0), rest.1)

count_steps :
    (now probe : ℕ) (m : TimerManager)
    → let heap =
        assign m.heap probe (record { recurring = false; ms = 0; next = now; cb = none }) in
      let a = lower_bound heap probe m.timers in
      expired_count now probe false m ≡ a + skip_equal m.heap now (drop a m.timers)
unfolding expired_count
count_steps now probe m = refl

-- Without a rollover of the clock, the timers that expire are just the due ones.
pub count-Cut :
    (now probe : ℕ) (m : TimerManager)
    → IsSorted m.heap m.timers
    → (In probe m.timers → ⊥)
    → Cut m.heap now (Due m.heap now) (Late m.heap now) (expired_count now probe false m) m.timers
count-Cut now probe m sorted away =
    let t : Timer = record { recurring = false; ms = 0; next = now; cb = none } in
    let heap = assign m.heap probe t in
    let a = lower_bound heap probe m.timers in
    let at_probe : (heap probe).next ≡ now =
      ap (λ (u : Timer). u.next) (assign-same m.heap probe t) in
    let same : (q : ℕ) → In q m.timers → (heap q).next ≡ (m.heap q).next = λ q i.
      ap (λ (u : Timer). u.next)
        (assign-other m.heap probe t q (λ e. away (subst (λ r. In r m.timers) e i))) in
    let cut =
      cut-weaken (Due heap (heap probe).next) (Due m.heap now)
        (λ p. (heap probe).next ≤ (heap p).next) (λ p. now ≤ (m.heap p).next) a m.timers
        (λ q i h. omega (arith, at_probe, same q i)) (λ q i h. omega (arith, at_probe, same q i))
        (lower-Cut heap probe m.timers (IsSorted-assign m.heap probe t m.timers away sorted)) in
    rw (count_steps now probe m) (
      cut-add (Due m.heap now) (Late m.heap now) a (skip_equal m.heap now (drop a m.timers))
        m.timers cut.0
        (skip-Cut m.heap now (drop a m.timers) (drop-IsSorted m.heap a m.timers sorted) cut.1))
