-- ===== src/Timer/Examples.antt =====
-- Two timers: runs of the manager, and the theorems at them.
use server_framework.Base.{
  ℕ, ◌≤◌, ◌≡◌, ◌≢◌, refl, sym, ◌∙◌, subst, true, false, Option, none, some, List, [], ◌∷◌, inl, inr,
  ◌==◌, ◌&&◌, not, ok, fail, bad_iterator, arith,
}
use server_framework.Timer.{
  TimerManager, new_timer, before, insert, assign, add_timer_locked, add_timer, cancel,
  get_next_timer, detect_clock_rollover, list_expired_locked, list_expired_cb, lower_bound,
  skip_equal, expired_count, fired, fire, empty,
}
use server_framework.Timer.Order.{In}
use server_framework.Timer.Invariant.{IsValid}
use server_framework.Timer.Updates.{Placed, Cancelled, add_timer-Placed, cancel-Cancelled}
use server_framework.Timer.Front.{EndsAtFirst, get_next_timer-EndsAtFirst}
use server_framework.Timer.Callbacks.{expired-cancel_race}

abbrev no_timers : TimerManager
no_timers = record {
  timers = [];
  heap = λ p. record { recurring = false; ms = 0; next = 0; cb = none };
  tickled = false;
  previous_time = 10;
}

no_timers-IsValid : IsValid no_timers
no_timers-IsValid = record {
  sorted = tt;
  apart = λ p i j. i;
  armed = λ p i. absurd i;
  listed = λ p h. absurd (h refl);
}

-- A recurring timer at the address 100, due at 20.
abbrev one_timer : TimerManager
one_timer = (add_timer 10 100 no_timers 10 (some 1) true).1

one_timer-Placed : Placed no_timers 100 (new_timer 10 10 (some 1) true) one_timer
one_timer-Placed = add_timer-Placed 10 100 no_timers 10 1 true no_timers-IsValid (λ i. i)

-- And one at 200 that runs once, due at 15.
abbrev two_timers : TimerManager
two_timers = (add_timer 10 200 one_timer 5 (some 2) false).1

timers_of_one : one_timer.timers ≡ 100 ∷ []
unfolding add_timer add_timer_locked insert
timers_of_one = refl

timers_of_two : two_timers.timers ≡ 200 ∷ 100 ∷ []
unfolding add_timer add_timer_locked insert before assign
timers_of_two = refl

away_from_one : In 200 one_timer.timers → ⊥
away_from_one i = elim (subst (In 200) timers_of_one i) [
  | inl e ↦ absurd (omega (arith, e))
  | inr j ↦ j
]

two_timers-Placed : Placed one_timer 200 (new_timer 10 5 (some 2) false) two_timers
two_timers-Placed = add_timer-Placed 10 200 one_timer 5 2 false one_timer-Placed.valid away_from_one

listed_200 : In 200 two_timers.timers
listed_200 = two_timers-Placed.placed

some_timer : two_timers.timers ≢ []
some_timer e = cc (sym timers_of_two ∙ e)

-- At 15 the timer that runs once is due; at 20 both are, and the recurring one stays.
expired_at : ℕ → Option (List (Option ℕ) × List ℕ)
unfolding list_expired_cb
expired_at now = elim (list_expired_cb now 300 two_timers) [
  | ok r ↦ some (r.0, r.1.timers)
  | fail e ↦ none
]

expired_at_15 : expired_at 15 ≡ some (some 2 ∷ [], 100 ∷ [])
unfolding expired_at list_expired_cb list_expired_locked detect_clock_rollover expired_count
    lower_bound skip_equal fire fired add_timer add_timer_locked insert before assign
expired_at_15 = refl

expired_at_20 : expired_at 20 ≡ some (some 2 ∷ some 1 ∷ [], 100 ∷ [])
unfolding expired_at list_expired_cb list_expired_locked detect_clock_rollover expired_count
    lower_bound skip_equal fire fired add_timer add_timer_locked insert before assign
expired_at_20 = refl

no_rollover :
    (m : TimerManager) (now : ℕ) → m.previous_time ≤ now → (detect_clock_rollover now m).0 ≡ false
unfolding detect_clock_rollover
no_rollover m now h = ground arith

clock_of_one : one_timer.previous_time ≡ 10
unfolding add_timer add_timer_locked
clock_of_one = refl

-- The clock was at two hours and is at 5.
abbrev late_clock : TimerManager
late_clock = record two_timers { previous_time = 7200000 }

rolls : (detect_clock_rollover 5 late_clock).0 ≡ true
unfolding detect_clock_rollover
rolls = refl

cancel-Cancelled_example :
    (m' : TimerManager) × (cancel two_timers 200 ≡ ok (true, m')) × Cancelled two_timers 200 m'
cancel-Cancelled_example = cancel-Cancelled two_timers 200 two_timers-Placed.valid listed_200

changes : ((40 == (two_timers.heap 200).ms) && not true) ≡ false
unfolding add_timer add_timer_locked assign
changes = refl

get_next_timer-EndsAtFirst_example : EndsAtFirst 12 (get_next_timer 12 two_timers).0 two_timers
get_next_timer-EndsAtFirst_example =
    get_next_timer-EndsAtFirst 12 two_timers two_timers-Placed.valid some_timer

expired-cancel_race_example :
    (empty one_timer.timers ≡ false)
    × (m' : TimerManager) × (cancel one_timer 100 ≡ ok (true, m'))
    × (list_expired_locked 30 300 m' ≡ fail bad_iterator)
expired-cancel_race_example =
    expired-cancel_race 30 300 100 one_timer one_timer-Placed.valid timers_of_one
      (no_rollover one_timer 30 (omega (arith, clock_of_one)))
