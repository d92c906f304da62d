-- ===== src/IoManager/Idle.antt =====
-- captain/iomanager.cpp: the loop of `idle` over the timers, the table of events and the scheduler.
use server_framework.Base.{
  sym, ℕ, ◌+◌, ◌%◌, ◌^◌, ◌≤◌, ◌<◌, ◌≡◌, ◌≢◌, refl, ap, ◌∙◌, subst, Bool, true, false, Bool-cases,
  ◌==◌, ==→eq, ne→==, ltb, leb, ltb→lt, le→leb, leb-false, ◌&&◌, if◌then◌else◌, size_sub, Option,
  none, some, List, [], ◌∷◌, map, All, max, Outcome, ok, ◌>>=◌, ◌⊎◌, inl, inr, arith,
}
use server_framework.Timer.{TimerManager, get_next_timer, list_expired_cb}
use server_framework.Timer.Invariant
use server_framework.Timer.Front.{get_next_timer-EndsAtFirst, no_timer_left}
use server_framework.Scheduler.{FiberAndThread, Scheduler, Worker, stopping, schedule_all}
use server_framework.Scheduler.Dispatch.{on_count}
use server_framework.Scheduler.System as Threads
use server_framework.Scheduler.System.{System, Reach, Reach-stopping}
use server_framework.IoManager.{IoManager, FdContext}
use server_framework.IoManager.Invariant.{IsValid, count_of, total}

pub record Loop : Type 0 where
  pub timers : TimerManager
  pub io : IoManager
  pub scheduler : Scheduler

-- `IOManager::stopping(timeout)`: the timeout, the answer, and the timers behind `getNextTimer`.
unfoldable pub io_stopping : ℕ → Loop → ℕ × (Bool × Loop)
io_stopping now l =
    let next = get_next_timer now l.timers in
    (
      next.0,
      (
        (next.0 == size_sub 0 1) && (l.io.pending_event_count == 0) && stopping l.scheduler,
        record l { timers = next.1 },
      ),
    )

-- What `epoll_wait` is told to wait: the timeout is cut to an `int`, and one below 0 is without end.
pub wait_time : ℕ → Option ℕ
wait_time timeout =
    let low = timeout % 2 ^ 32 in
    if timeout == size_sub 0 1
    then some 3000
    else (if leb (2 ^ 31) low then none else (if ltb 3000 low then some 3000 else some low))

-- Does `tickle` write to the pipe?
pub io_tickle : Scheduler → Bool
io_tickle s = s.idle_thread_count == 0

abbrev pub task_of : Option ℕ → FiberAndThread
task_of cb = record { fiber = none; cb = cb; thread = none }

-- The callbacks of the timers that are due go to the scheduler.
unfoldable pub run_due : ℕ → ℕ → Loop → Outcome (Bool × Loop)
run_due now probe l = list_expired_cb now probe l.timers >>= λ r.
    let given = schedule_all l.scheduler (map task_of r.0) in
    ok (given.0, record l { timers = r.1; scheduler = given.1 })

short_wait : (d : ℕ) → d < 2 ^ 31 → (w : ℕ) × (wait_time d ≡ some w) × (w ≤ 3000) × (w ≤ d)
unfolding wait_time
short_wait d h =
    let low : d % 2 ^ 32 ≡ d = omega arith in
    let small : (d == size_sub 0 1) ≡ false = ne→== d (size_sub 0 1) (λ e. omega (arith, e)) in
    elim (Bool-cases (ltb 3000 d)) [
      | inl e ↦
          (3000, rw (small, low, leb-false (2 ^ 31) d h, e) refl, omega arith, ground (arith, e))
      | inr e ↦ (d, rw (small, low, leb-false (2 ^ 31) d h, e) refl, ground (arith, e), omega arith)
    ]

endless_wait : (d : ℕ) → 2 ^ 31 ≤ d → d < 2 ^ 32 → wait_time d ≡ none
unfolding wait_time
endless_wait d h k =
    let low : d % 2 ^ 32 ≡ d = omega arith in
    let other : (d == size_sub 0 1) ≡ false = ne→== d (size_sub 0 1) (λ e. omega (arith, e)) in
    rw (other, low, le→leb (2 ^ 31) d h) refl

-- A wait of `w` from `now` goes past no timer.
abbrev pub InTime : ℕ → ℕ → TimerManager → Type 0
InTime now w m = All (λ p. now + w ≤ max now (m.heap p).next) m.timers

InTime-less :
    (now w d : ℕ) (m : TimerManager) (ps : List ℕ)
    → w ≤ d
    → All (λ p. now + d ≤ max now (m.heap p).next) ps
    → All (λ p. now + w ≤ max now (m.heap p).next) ps
InTime-less now w d m [] h a = tt
InTime-less now w d m (p ∷ ps) h a = (omega (arith, a.0), InTime-less now w d m ps h a.1)

-- On well-formed timers that are not empty, with the next one due within 2^32 ms: either it is
-- due within 2^31 ms, and `idle` tells `epoll_wait` to wait at most 3000 ms and past no timer
-- that is not due, or it is due later, and `idle` tells it to wait without end.
pub wait_time-InTime :
    (now : ℕ) (m : TimerManager)
    → Invariant.IsValid m
    → m.timers ≢ []
    → (get_next_timer now m).0 < 2 ^ 32
    → (((get_next_timer now m).0 < 2 ^ 31)
        × ((w : ℕ) × (wait_time (get_next_timer now m).0 ≡ some w) × (w ≤ 3000) × InTime now w m))
      ⊎ ((2 ^ 31 ≤ (get_next_timer now m).0) × (wait_time (get_next_timer now m).0 ≡ none))
wait_time-InTime now m v some_timer fits =
    let d = (get_next_timer now m).0 in
    let first = get_next_timer-EndsAtFirst now m v some_timer in
    elim (Bool-cases (ltb d (2 ^ 31))) [
      | inl e ↦
          let (w, waits, short, less) = short_wait d (ltb→lt d (2 ^ 31) e) in
          inl (
            ltb→lt d (2 ^ 31) e,
            (w, waits, short, InTime-less now w d m m.timers less first.soonest),
          )
      | inr e ↦ let long : 2 ^ 31 ≤ d = ground (arith, e) in inr (long, endless_wait d long fits)
    ]

three-true : (a b c : Bool) → (a && b && c) ≡ true → (a ≡ true) × (b ≡ true) × (c ≡ true)
three-true true true c h = (refl, refl, h)
three-true true false c h = cc
three-true false b c h = cc

io_stopping_cases :
    (now : ℕ) (l : Loop)
    → (io_stopping now l).1.0 ≡ true
    → ((get_next_timer now l.timers).0 ≡ size_sub 0 1)
      × (l.io.pending_event_count ≡ 0)
      × (stopping l.scheduler ≡ true)
unfolding io_stopping
io_stopping_cases now l h =
    let (d, c, s) =
      three-true ((get_next_timer now l.timers).0 == size_sub 0 1) (l.io.pending_event_count == 0)
        (stopping l.scheduler) h in
    (==→eq (get_next_timer now l.timers).0 (size_sub 0 1) d, ==→eq l.io.pending_event_count 0 c, s)

total-zero : (cs : List FdContext) → total cs ≡ 0 → All (λ c. count_of c ≡ 0) cs
total-zero [] h = tt
total-zero (c ∷ cs) h =
    let first : count_of c ≡ 0 = omega (arith, h) in
    let rest : total cs ≡ 0 = omega (arith, h) in (first, total-zero cs rest)

-- Where a system of threads has come from a well-formed one by any steps, its scheduler is the
-- one of an IOManager whose table is well formed, the clock is not 0 and the times of all
-- timers fit into 64 bits: if `stopping` says true, there are no timers, no descriptor has a
-- registered event, the queue is empty and no thread has a task that it has taken and not yet
-- counted off.
pub io_stopping-Quiet :
    {s t : System} (now : ℕ) (l : Loop)
    → Threads.IsValid s
    → Reach s t
    → l.scheduler ≡ t.scheduler
    → IsValid l.io
    → 1 ≤ now
    → All (λ p. (l.timers.heap p).next < 2 ^ 64) l.timers.timers
    → (io_stopping now l).1.0 ≡ true
    → (l.timers.timers ≡ [])
      × All (λ c. count_of c ≡ 0) l.io.fd_contexts
      × (l.scheduler.queue ≡ [])
      × All (λ (w : Worker). on_count w.pc ≡ 0) t.workers
io_stopping-Quiet now l valid reach same table late fits h =
    let (d, c, stops) = io_stopping_cases now l h in
    let (queue, nobody) = Reach-stopping valid reach (subst (λ s. stopping s ≡ true) same stops) in
    (
      no_timer_left now l.timers late fits d,
      total-zero l.io.fd_contexts (sym table.counted ∙ c),
      ap (λ (s : Scheduler). s.queue) same ∙ queue,
      nobody,
    )
