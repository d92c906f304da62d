-- ===== src/Timer/Front.antt =====
-- The front of the set: when `addTimer` notifies, and what `getNextTimer` returns.
use server_framework.Base.{
  ◌<◌, ◌^◌, size_sub, ℕ, ◌+◌, ◌≤◌, ◌≡◌, ◌≢◌, refl, sym, ap, ◌∙◌, subst, Bool, true, false, not,
  ◌==◌, ◌&&◌, max, List, some, [], ◌∷◌, ◌↔◌, ◌⊎◌, inl, inr, All, arith, eq→==, ne→==,
}
use server_framework.Timer.{
  Timer, TimerManager, new_timer, assign, insert, add_timer, add_timer_locked, get_next_timer,
}
use server_framework.Timer.Order.{
  In, Before, Before-total, Before-irrefl, Before-trans, IsSorted, IsSorted-assign, insert-nil,
  insert-first, insert-later, All-weaken,
}
use server_framework.Timer.Invariant.{IsValid}

abbrev head_is : ℕ → List ℕ → Bool
head_is p [] = false
head_is p (q ∷ qs) = q == p

-- The new element is at the front exactly if it is before all others.
head-insert :
    (heap : ℕ → Timer) (p : ℕ) (ps : List ℕ)
    → IsSorted heap ps
    → (In p ps → ⊥)
    → ((head_is p (insert heap p ps) ≡ true) × All (Before heap p) ps)
      ⊎ ((head_is p (insert heap p ps) ≡ false) × (All (Before heap p) ps → ⊥))
head-insert heap p [] sorted new = inl (ap (head_is p) (insert-nil heap p) ∙ eq→== p p refl, tt)
head-insert heap p (q ∷ qs) sorted new = elim (Before-total heap p q (λ e. new (inl e))) [
  | inl first ↦ inl (
    ap (head_is p) (insert-first heap p q qs first) ∙ eq→== p p refl,
    (
      first,
      All-weaken (Before heap q) (Before heap p) qs (λ r i k. Before-trans heap p q r first k)
          sorted.0,
    ),
  )
  | inr later ↦ inr (
    ap (head_is p) (insert-later heap p q qs later) ∙ ne→== q p (λ e. new (inl (sym e))),
    λ h. Before-irrefl heap p (Before-trans heap p q p h.0 later),
  )
]

notified_steps :
    (now p : ℕ) (m : TimerManager) (ms c : ℕ) (recurring : Bool)
    → (add_timer now p m ms (some c) recurring).0
      ≡ head_is p (insert (assign m.heap p (new_timer now ms (some c) recurring)) p m.timers)
        && not m.tickled
unfolding add_timer add_timer_locked
notified_steps now p m ms c recurring = refl

-- On well-formed timers, `addTimer` with a callback, at an address that is not in the set,
-- notifies the manager exactly if it was not tickled since the last `getNextTimer` and the new
-- timer is before all others.
pub add_timer-notified :
    (now p : ℕ) (m : TimerManager) (ms c : ℕ) (recurring : Bool)
    → IsValid m
    → (In p m.timers → ⊥)
    → ((add_timer now p m ms (some c) recurring).0 ≡ true) ↔ (
        (m.tickled ≡ false)
        × All (Before (assign m.heap p (new_timer now ms (some c) recurring)) p) m.timers)
add_timer-notified now p m ms c recurring v away =
    let t = new_timer now ms (some c) recurring in
    let heap = assign m.heap p t in
    let step = notified_steps now p m ms c recurring in
    elim (head-insert heap p m.timers (IsSorted-assign m.heap p t m.timers away v.sorted) away) [
      | inl (front, all) ↦ (
        λ e. (not-false m.tickled (ap (λ b. b && not m.tickled) (sym front) ∙ sym step ∙ e), all),
        λ h. step ∙ ap (λ b. b && not m.tickled) front ∙ ap not h.0,
      )
      | inr (behind, not_all) ↦ (
        λ e. absurd (false-true (ap (λ b. b && not m.tickled) (sym behind) ∙ sym step ∙ e)),
        λ h. absurd (not_all h.1),
      )
    ]
  where
    not-false : (b : Bool) → not b ≡ true → b ≡ false
    not-false false e = refl
    not-false true e = cc

    false-true : false ≡ true → ⊥
    false-true e = cc

-- A wait of `d` from `now` ends when the earliest timer is due, and is 0 where one is due already.
pub record EndsAtFirst (now d : ℕ) (m : TimerManager) : Type 0 where
  pub soonest : All (λ p. now + d ≤ max now (m.heap p).next) m.timers
  pub first : ℕ
  pub listed : In first m.timers
  pub due_then : now + d ≡ max now (m.heap first).next

wait_steps :
    (now p : ℕ) (ps : List ℕ) (m : TimerManager)
    → m.timers ≡ p ∷ ps
    → now + (get_next_timer now m).0 ≡ max now (m.heap p).next
unfolding get_next_timer
wait_steps now p ps m e = simp e (ground arith)

-- On well-formed timers that are not empty, the wait that `getNextTimer` returns at `now` ends
-- when the earliest timer is due, is 0 where one is due already, and is too long for no timer.
pub get_next_timer-EndsAtFirst :
    (now : ℕ) (m : TimerManager)
    → IsValid m
    → m.timers ≢ []
    → EndsAtFirst now (get_next_timer now m).0 m
get_next_timer-EndsAtFirst now m v some_timer = go m.timers refl
  where
    go : (ps : List ℕ) → m.timers ≡ ps → EndsAtFirst now (get_next_timer now m).0 m
    go [] e = absurd (some_timer e)
    go (p ∷ ps) e =
        let step = wait_steps now p ps m e in
        let sorted = subst (IsSorted m.heap) e v.sorted in
        record {
          soonest =
              subst (All (λ q. now + (get_next_timer now m).0 ≤ max now (m.heap q).next)) (sym e) (
                omega arith,
                All-weaken (Before m.heap p)
                    (λ q. now + (get_next_timer now m).0 ≤ max now (m.heap q).next) ps
                    (λ q i k. ground arith) sorted.0,
              );
          first = p;
          listed = subst (In p) (sym e) (inl refl);
          due_then = step;
        }

-- The wait without end means that there is no timer, where the clock has left 0.
pub no_timer_left :
    (now : ℕ) (m : TimerManager)
    → 1 ≤ now
    → All (λ p. (m.heap p).next < 2 ^ 64) m.timers
    → (get_next_timer now m).0 ≡ size_sub 0 1
    → m.timers ≡ []
no_timer_left now m late fits e = go m.timers refl
  where
    go : (ps : List ℕ) → m.timers ≡ ps → m.timers ≡ []
    go [] same = same
    go (p ∷ ps) same =
        let step = wait_steps now p ps m same in
        let bound = subst (All (λ q. (m.heap q).next < 2 ^ 64)) same fits in
        absurd (omega (arith, step, bound.0, e, late))
