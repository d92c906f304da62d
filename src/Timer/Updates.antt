-- ===== src/Timer/Updates.antt =====
-- `addTimer`, `cancel`, `refresh` and `reset` keep the timers well formed.
use server_framework.Base.{
  ℕ, ◌+◌, ◌%◌, ◌^◌, ◌≡◌, ◌≢◌, refl, sym, subst, Bool, true, false, not, ◌==◌, ◌&&◌, if◌then◌else◌,
  none, some, Option-cases, List, [], ◌∷◌, inl, inr, ok, size_sub, arith,
}
use server_framework.Timer.{
  Timer, TimerManager, new_timer, assign, insert, find, erase, erase_at, add_timer_locked,
  add_timer, cancel, refresh, reset,
}
use server_framework.Timer.Order.{
  In, IsSorted-agree, find-Removed, insert-In, assign-same, assign-other,
}
use native.Mathlib.Decide.{ℕ_discrete}
use server_framework.Timer.Invariant.{
  Pending, IsValid, IsValid-listed, new-Pending, Removed-Pending, insert-Pending, drop-Pending,
}

-- What a method that sets the timer at `p` leaves: `t` in the set, and the other timers as they were.
pub record Placed (m : TimerManager) (p : ℕ) (t : Timer) (m' : TimerManager) : Type 0 where
  pub valid : IsValid m'
  pub placed : In p m'.timers
  pub set_to : m'.heap p ≡ t
  pub others : (r : ℕ) → r ≢ p → m'.heap r ≡ m.heap r
  pub kept : (r : ℕ) → In r m.timers → In r m'.timers

-- A pending timer is set and inserted.
set_and_insert :
    (m : TimerManager) (p : ℕ) (t : Timer) (qs : List ℕ) (tickled : Bool)
    → Pending m.heap (p ∷ []) qs
    → ((r : ℕ) → In r m.timers → r ≢ p → In r qs)
    → t.cb ≢ none
    → Placed m p t (record m {
      timers = insert (assign m.heap p t) p qs;
      heap = assign m.heap p t;
      tickled = tickled;
    })
set_and_insert m p t qs tickled h keeps live =
    let heap = assign m.heap p t in
    let away = h.apart p (inl refl) in
    record {
      valid = insert-Pending m.heap p t [] qs h (λ i. i) live;
      placed = insert-In heap p p qs away (inl refl);
      set_to = assign-same m.heap p t;
      others = assign-other m.heap p t;
      kept = λ r i. elim (ℕ_discrete r p) [
        | yes e ↦ insert-In heap p r qs away (inl e)
        | no other ↦ insert-In heap p r qs away (inr (keeps r i other))
      ];
    }

add_timer_locked_lem :
    (m : TimerManager) (p : ℕ)
    → (add_timer_locked m p).1
      ≡ record m { timers = insert m.heap p m.timers; tickled = (add_timer_locked m p).1.tickled }
unfolding add_timer_locked
add_timer_locked_lem m p = refl

pub add_timer-Placed :
    (now p : ℕ) (m : TimerManager) (ms c : ℕ) (recurring : Bool)
    → IsValid m
    → (In p m.timers → ⊥)
    → Placed m p (new_timer now ms (some c) recurring) (add_timer now p m ms (some c) recurring).1
unfolding add_timer
add_timer-Placed now p m ms c recurring v away =
    let t = new_timer now ms (some c) recurring in
    let m' = record m { heap = assign m.heap p t } in
    set_and_insert m p t m.timers (add_timer_locked m' p).1.tickled (new-Pending m p v away)
      (λ r i other. i) (λ e. cc)

cancel_steps :
    (m : TimerManager) (p c i : ℕ)
    → (m.heap p).cb ≡ some c
    → find (assign m.heap p (record (m.heap p) { cb = none })) p m.timers ≡ some i
    → cancel m p
      ≡ ok (
        true,
        record m {
          timers = erase_at m.timers i;
          heap = assign m.heap p (record (m.heap p) { cb = none });
        },
      )
unfolding cancel erase
cancel_steps m p c i e at_i = simp (e, at_i)

refresh_steps :
    (now : ℕ) (m : TimerManager) (p c i : ℕ)
    → (m.heap p).cb ≡ some c
    → find m.heap p m.timers ≡ some i
    → let heap = assign m.heap p (record (m.heap p) { next = (now + (m.heap p).ms) % 2 ^ 64 }) in
      refresh now m p
      ≡ (true, record m { timers = insert heap p (erase_at m.timers i); heap = heap })
unfolding refresh
refresh_steps now m p c i e at_i = simp (e, at_i)

callback_of : (m : TimerManager) (p : ℕ) → (m.heap p).cb ≢ none → (c : ℕ) × ((m.heap p).cb ≡ some c)
callback_of m p h = elim (Option-cases (m.heap p).cb) [ inl e ↦ absurd (h e) | inr found ↦ found ]

-- What `cancel` leaves of a set that held the timer.
pub record Cancelled (m : TimerManager) (p : ℕ) (m' : TimerManager) : Type 0 where
  pub valid : IsValid m'
  pub gone : In p m'.timers → ⊥
  pub kept : (r : ℕ) → In r m.timers → r ≢ p → In r m'.timers
  pub within : (r : ℕ) → In r m'.timers → In r m.timers
  pub others : (r : ℕ) → r ≢ p → m'.heap r ≡ m.heap r
  pub same_clock : m'.previous_time ≡ m.previous_time

next_kept :
    (heap : ℕ → Timer) (p q : ℕ)
    → (assign heap p (record (heap p) { cb = none }) q).next ≡ (heap q).next
unfolding assign
next_kept heap p q = ground arith

-- On well-formed timers, `cancel` of a timer in the set returns true and removes just this
-- timer; the other timers stay as they are, and the timers are well formed again.
pub cancel-Cancelled :
    (m : TimerManager) (p : ℕ)
    → IsValid m
    → In p m.timers
    → (m' : TimerManager) × (cancel m p ≡ ok (true, m')) × Cancelled m p m'
cancel-Cancelled m p v i =
    let (c, e) = callback_of m p (v.armed p i) in
    let t = record (m.heap p) { cb = none } in
    let heap = assign m.heap p t in
    let (k, at_k, less) =
      find-Removed heap p m.timers
        (IsSorted-agree m.heap heap m.timers (λ q j. next_kept m.heap p q) v.sorted) i in
    let left : List ℕ = erase_at m.timers k in
    let pending : Pending m.heap (p ∷ []) left = Removed-Pending m p left v (record {
      sorted = IsSorted-agree heap m.heap left (λ q j. sym (next_kept m.heap p q)) less.sorted;
      gone = less.gone;
      kept = less.kept;
      within = less.within;
    }) in
    (
      record m { timers = left; heap = heap },
      cancel_steps m p c k e at_k,
      record {
        valid = drop-Pending m.heap p t [] left pending refl;
        gone = less.gone;
        kept = less.kept;
        within = less.within;
        others = assign-other m.heap p t;
        same_clock = refl;
      },
    )

cancel_off : (m : TimerManager) (p : ℕ) → (m.heap p).cb ≡ none → cancel m p ≡ ok (false, m)
unfolding cancel
cancel_off m p e = simp e

-- On well-formed timers, `cancel` of a timer that is not in the set returns false and changes
-- nothing.
pub cancel_absent :
    (m : TimerManager) (p : ℕ) → IsValid m → (In p m.timers → ⊥) → cancel m p ≡ ok (false, m)
cancel_absent m p v away = elim (Option-cases (m.heap p).cb) [
  | inl e ↦ cancel_off m p e
  | inr (c, e) ↦ absurd (away (IsValid-listed m v p (λ dead. cc (e, dead))))
]

-- On well-formed timers, `refresh` of a timer in the set returns true and moves just this timer
-- to the place of its interval counted from `now`; the timers are well formed again.
pub refresh-Placed :
    (now : ℕ) (m : TimerManager) (p : ℕ)
    → IsValid m
    → In p m.timers
    → (m' : TimerManager) × (refresh now m p ≡ (true, m'))
      × Placed m p (record (m.heap p) { next = (now + (m.heap p).ms) % 2 ^ 64 }) m'
refresh-Placed now m p v i =
    let (c, e) = callback_of m p (v.armed p i) in
    let t = record (m.heap p) { next = (now + (m.heap p).ms) % 2 ^ 64 } in
    let (k, at_k, less) = find-Removed m.heap p m.timers v.sorted i in
    (
      record m {
        timers = insert (assign m.heap p t) p (erase_at m.timers k);
        heap = assign m.heap p t;
      },
      refresh_steps now m p c k e at_k,
      set_and_insert m p t (erase_at m.timers k) m.tickled
          (Removed-Pending m p (erase_at m.timers k) v less) less.kept (v.armed p i),
    )

-- The start of the interval that `reset` gives a timer.
abbrev pub start_of : ℕ → Timer → Bool → ℕ
start_of now t from_now = if from_now then now else size_sub t.next t.ms

reset_steps :
    (now : ℕ) (m : TimerManager) (p ms : ℕ) (from_now : Bool) (c i : ℕ)
    → ((ms == (m.heap p).ms) && not from_now) ≡ false
    → (m.heap p).cb ≡ some c
    → find m.heap p m.timers ≡ some i
    → let t = record (m.heap p) {
      ms = ms;
      next = (start_of now (m.heap p) from_now + ms) % 2 ^ 64;
    } in
      let out = record m { timers = erase_at m.timers i; heap = assign m.heap p t } in
      let added = add_timer_locked out p in reset now m p ms from_now ≡ (true, added.0, added.1)
unfolding reset
reset_steps now m p ms from_now c i changes e at_i = simp (changes, e, at_i)

-- On well-formed timers, `reset` of a timer in the set, unless it changes nothing, returns true
-- and moves just this timer to the place of its new interval, counted from `now` or from the
-- start of the old interval; the timers are well formed again.
pub reset-Placed :
    (now : ℕ) (m : TimerManager) (p ms : ℕ) (from_now : Bool)
    → IsValid m
    → In p m.timers
    → ((ms == (m.heap p).ms) && not from_now) ≡ false
    → (notified : Bool) × (m' : TimerManager) × (reset now m p ms from_now ≡ (true, notified, m'))
      × Placed m p
          (record (m.heap p) { ms = ms; next = (start_of now (m.heap p) from_now + ms) % 2 ^ 64 })
          m'
reset-Placed now m p ms from_now v i changes =
    let (c, e) = callback_of m p (v.armed p i) in
    let t = record (m.heap p) {
      ms = ms;
      next = (start_of now (m.heap p) from_now + ms) % 2 ^ 64;
    } in
    let (k, at_k, less) = find-Removed m.heap p m.timers v.sorted i in
    let out = record m { timers = erase_at m.timers k; heap = assign m.heap p t } in
    let added = add_timer_locked out p in
    (
      added.0,
      added.1,
      reset_steps now m p ms from_now c k changes e at_k,
      subst (Placed m p t) (sym (add_timer_locked_lem out p)) (
          set_and_insert m p t (erase_at m.timers k) added.1.tickled
            (Removed-Pending m p (erase_at m.timers k) v less) less.kept (v.armed p i)),
    )
