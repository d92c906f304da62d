-- ===== src/Timer/Callbacks.antt =====
-- `listExpiredCb` as a whole: what it returns with and without a rollover of the clock, and what
-- comes of a `cancel` between its two locks.
use server_framework.Base.{
  ℕ, ◌≤◌, ◌<◌, ◌≡◌, ◌≢◌, refl, sym, ◌∙◌, subst, Bool, true, false, Option, List, [], ◌∷◌, ◌++◌, inl,
  inr, All, take, drop, length, ok, fail, bad_iterator,
}
use server_framework.Base.Slices.{take_all}
use server_framework.Timer.{
  Timer, TimerManager, fire, expired_count, detect_clock_rollover, list_expired_locked,
  list_expired_cb, empty, cancel,
}
use server_framework.Timer.Order.{In}
use server_framework.Timer.Invariant.{IsValid}
use server_framework.Timer.Updates.{cancel-Cancelled}
use server_framework.Timer.Cuts.{take-IsDistinct, take-armed, cut-Pending}
use server_framework.Timer.Expiry.{Fired, fire-Fired}
use native.Mathlib.Nat.{le_refl}

abbrev seen : ℕ → TimerManager → TimerManager
seen now m = record m { previous_time = now }

-- The set is cut at `k`, and what stands before the cut is fired.
abbrev cut_and_fire : ℕ → ℕ → TimerManager → List (Option ℕ) × TimerManager
cut_and_fire now k m =
    fire now (take k m.timers) (record m { timers = drop k m.timers; previous_time = now })

cut-Fired :
    (now k : ℕ) (m : TimerManager)
    → IsValid m
    → Fired now (take k m.timers) m (cut_and_fire now k m).0 (cut_and_fire now k m).1
cut-Fired now k m v =
    let out = record m { timers = drop k m.timers; previous_time = now } in
    let f =
      fire-Fired now (take k m.timers) out (cut-Pending m k v)
        (take-IsDistinct m.heap k m.timers v.sorted) (take-armed m k v) in
    record { calls = f.calls; valid = f.valid; changed = f.changed; others = f.others }

abbrev rolls_over : ℕ → TimerManager → Bool
rolls_over now m = (detect_clock_rollover now m).0

rollover_steps :
    (now probe p : ℕ) (ps : List ℕ) (m : TimerManager)
    → m.timers ≡ p ∷ ps
    → rolls_over now m ≡ true
    → list_expired_cb now probe m ≡ ok (cut_and_fire now (length m.timers) m)
unfolding list_expired_cb list_expired_locked detect_clock_rollover expired_count
rollover_steps now probe p ps m e rolls = simp (e, rolls)

-- How a run splits the set: `due` expires, `late` stays.
pub record Run (now probe : ℕ) (m : TimerManager) : Type 0 where
  pub due : List ℕ
  pub late : List ℕ
  pub cbs : List (Option ℕ)
  pub after : TimerManager
  pub split : m.timers ≡ due ++ late
  pub all_due : All (λ p. (m.heap p).next ≤ now) due
  pub all_late : All (λ p. now < (m.heap p).next) late
  pub run : list_expired_cb now probe m ≡ ok (cbs, after)
  pub result : Fired now due m cbs after

-- On well-formed timers that are not empty, after a jump back of the clock by more than an hour
-- `listExpiredCb` returns the callbacks of all timers, due or not, and re-arms the recurring
-- ones; the timers are well formed again.
pub list_expired_cb-rollover :
    (now probe : ℕ) (m : TimerManager)
    → IsValid m
    → m.timers ≢ []
    → (detect_clock_rollover now m).0 ≡ true
    → (cbs : List (Option ℕ)) × (m' : TimerManager) × (list_expired_cb now probe m ≡ ok (cbs, m'))
      × Fired now m.timers m cbs m'
list_expired_cb-rollover now probe m v some_timer rolls = go m.timers refl
  where
    go :
        (ps : List ℕ)
        → m.timers ≡ ps
        → (cbs : List (Option ℕ)) × (m' : TimerManager) × (list_expired_cb now probe m
            ≡ ok (cbs, m'))
          × Fired now m.timers m cbs m'
    go [] e = absurd (some_timer e)
    go (p ∷ ps) e =
        let k = length m.timers in
        let r = cut_and_fire now k m in
        (
          r.0,
          r.1,
          rollover_steps now probe p ps m e rolls,
          subst (λ qs. Fired now qs m r.0 r.1) (take_all k m.timers (le_refl k))
              (cut-Fired now k m v),
        )

empty_steps :
    (now probe : ℕ) (m : TimerManager)
    → m.timers ≡ []
    → rolls_over now m ≡ false
    → list_expired_locked now probe m ≡ fail bad_iterator
unfolding list_expired_locked detect_clock_rollover
empty_steps now probe m e rolls = simp (e, rolls)

clock_only :
    (now : ℕ) (m m' : TimerManager)
    → m'.previous_time ≡ m.previous_time
    → rolls_over now m' ≡ rolls_over now m
unfolding detect_clock_rollover
clock_only now m m' e = rw e refl

no_member : (ps : List ℕ) → ((q : ℕ) → In q ps → ⊥) → ps ≡ []
no_member [] h = refl
no_member (p ∷ ps) h = absurd (h p (inl refl))

-- On well-formed timers with a single timer, and without a jump back of the clock:
-- `listExpiredCb` finds the set not empty, a `cancel` that comes before its second lock
-- succeeds, and the rest of `listExpiredCb` follows the `begin()` of an empty set.
pub expired-cancel_race :
    (now probe p : ℕ) (m : TimerManager)
    → IsValid m
    → m.timers ≡ p ∷ []
    → (detect_clock_rollover now m).0 ≡ false
    → (empty m.timers ≡ false)
      × (m' : TimerManager) × (cancel m p ≡ ok (true, m'))
      × (list_expired_locked now probe m' ≡ fail bad_iterator)
expired-cancel_race now probe p m v e rolls =
    let (m', run, c) = cancel-Cancelled m p v (subst (In p) (sym e) (inl refl)) in
    let nobody : (q : ℕ) → In q m'.timers → ⊥ = λ q i. elim (subst (In q) e (c.within q i)) [
      | inl same ↦ c.gone (subst (λ r. In r m'.timers) same i)
      | inr j ↦ j
    ] in
    (
      rw e refl,
      m',
      run,
      empty_steps now probe m' (no_member m'.timers nobody)
          (clock_only now m m' c.same_clock ∙ rolls),
    )
