-- ===== src/IoManager/Examples.antt =====
-- A table of four descriptors, and the theorems at it. The system accepts every call.
use server_framework.Base.{
  ◌^◌, ◌≤◌, ◌<◌, ◌⊎◌, ◌≢◌, sym, ◌∙◌, Bool-cases, ◌==◌, ==→eq, eq→==, if◌then◌else◌, All, ℕ, ◌+◌,
  ◌≡◌, refl, Bool, true, false, none, some, List, [], ◌∷◌, get_elem?, set, inl, inr, ok, fail,
  assertion_failed, arith,
}
use server_framework.Timer.{Timer, TimerManager, get_next_timer}
use server_framework.Timer.Order.{In}
use server_framework.Timer.Invariant as Timers
use server_framework.Scheduler.{Worker, in_idle, stopping}
use server_framework.Scheduler.Dispatch.{on_count}
use server_framework.Scheduler.System as Threads
use server_framework.Scheduler.System.{System, Reach, Step}
use server_framework.IoManager.Pass.{Report, from_pipe, from_context}
use server_framework.IoManager.Idle.{
  Loop, io_stopping, wait_time, InTime, wait_time-InTime, io_stopping-Quiet,
}
use server_framework.IoManager.{
  Op, FdContext, IoManager, Task, no_context, registered, add_event, cancel_event, ready_in,
}
use server_framework.IoManager.Invariant.{IsValid, IsContext, count_of}
use server_framework.IoManager.Trigger.{Triggered}
use server_framework.IoManager.Registry.{cancel_event-Triggered}
use server_framework.IoManager.Adding.{Added, add_event-Added}
use server_framework.IoManager.Ready.{ready_unasked}

abbrev accepting : Op → ℕ → ℕ → Bool
accepting op fd events = true

abbrev idle_context : ℕ → FdContext
idle_context fd = record { read = no_context; write = no_context; fd = fd; events = 0 }

-- The descriptor 1 waits to be read: the callback 7 of the scheduler 3.
abbrev reading : FdContext
reading = record {
  read = record { scheduler = some 3; fiber = none; cb = some 7 };
  write = no_context;
  fd = 1;
  events = 1;
}

-- The descriptor 2 waits for both: the fiber 9 reads, the callback 8 writes.
abbrev waiting_for_both : FdContext
waiting_for_both = record {
  read = record { scheduler = some 3; fiber = some 9; cb = none };
  write = record { scheduler = some 3; fiber = none; cb = some 8 };
  fd = 2;
  events = 5;
}

abbrev table : IoManager
table = record {
  fd_contexts = idle_context 0 ∷ reading ∷ waiting_for_both ∷ idle_context 3 ∷ [];
  pending_event_count = 3;
}

idle_context-IsContext : (fd : ℕ) → IsContext (idle_context fd)
idle_context-IsContext fd = record { known = inl refl; reads = refl; writes = refl }

table-IsValid : IsValid table
table-IsValid = record {
  contexts = (
    idle_context-IsContext 0,
    (
      record { known = inr (inl refl); reads = (3, 7, inl refl); writes = refl },
      (
        record {
          known = inr (inr (inr refl));
          reads = (3, 9, inr refl);
          writes = (3, 8, inl refl);
        },
        (idle_context-IsContext 3, tt),
      ),
    ),
  );
  counted = refl;
}

cancel_event-Triggered_example :
    (task : Task) × (c' : FdContext) × (m' : IoManager) × (cancel_event accepting table 1 1
      ≡ ok (true, task ∷ [], m'))
    × Triggered reading 1 task c'
    × IsValid m'
    × (m'.fd_contexts ≡ set table.fd_contexts 1 c')
    × (m'.pending_event_count + 1 ≡ 3)
cancel_event-Triggered_example =
    cancel_event-Triggered accepting table 1 1 reading table-IsValid refl (inl refl) refl refl

nothing_there :
    (c : FdContext) → get_elem? table.fd_contexts 9 ≡ some c → registered c.events 1 ≡ false
nothing_there c e = cc

-- The table has to grow for the descriptor 9.
add_event-Added_example :
    (m' : IoManager) × (add_event accepting (some 3) 6 table 9 1 none ≡ ok (true, m'))
    × Added accepting 3 6 9 1 none table m'
add_event-Added_example =
    add_event-Added accepting 3 6 table 9 1 none table-IsValid (inl refl) nothing_there
      (inr (omega arith)) (λ op events. refl)

-- 8 is `EPOLLERR`.
ready_unasked_example : ready_in accepting table 1 reading 8 ≡ fail assertion_failed
ready_unasked_example = ready_unasked accepting table 1 8 reading table-IsValid refl refl refl refl

-- A timer at the address 100, due at 20.
abbrev timer_at : ℕ → Timer
timer_at p = record {
  recurring = false;
  ms = 10;
  next = 20;
  cb = if p == 100 then some 1 else none;
}

abbrev one_timer : TimerManager
one_timer = record { timers = 100 ∷ []; heap = timer_at; tickled = false; previous_time = 10 }

timer_listed : (p : ℕ) → (timer_at p).cb ≢ none → In p (100 ∷ [])
timer_listed p h = elim (Bool-cases (p == 100)) [
  | inl e ↦ inl (==→eq p 100 e)
  | inr e ↦ absurd (h (rw (e) refl))
]

timer_armed : (p : ℕ) → In p (100 ∷ []) → (timer_at p).cb ≢ none
timer_armed p (inl e) none_there =
    let given : (timer_at p).cb ≡ some 1 = rw (eq→== p 100 e) refl in cc (sym given ∙ none_there)
timer_armed p (inr i) none_there = i

one_timer-IsValid : Timers.IsValid one_timer
one_timer-IsValid = record {
  sorted = (tt, tt);
  apart = λ p i j. i;
  armed = timer_armed;
  listed = λ p h. inr (timer_listed p h);
}

one_timer_wait : (get_next_timer 15 one_timer).0 ≡ 5
unfolding get_next_timer
one_timer_wait = refl

wait_time-InTime_example :
    (((get_next_timer 15 one_timer).0 < 2 ^ 31)
      × ((w : ℕ) × (wait_time (get_next_timer 15 one_timer).0 ≡ some w)
          × (w ≤ 3000)
          × InTime 15 w one_timer))
    ⊎ ((2 ^ 31 ≤ (get_next_timer 15 one_timer).0)
        × (wait_time (get_next_timer 15 one_timer).0 ≡ none))
wait_time-InTime_example =
    wait_time-InTime 15 one_timer one_timer-IsValid (λ e. cc) (omega (arith, one_timer_wait))

-- One thread in its idle fiber, before and behind `stop`.
abbrev resting : Bool → System
resting stopped = record {
  scheduler = record {
    queue = [];
    active_thread_count = 0;
    idle_thread_count = 1;
    is_stopping = stopped;
    auto_stop = true;
  };
  fibers = [];
  workers = record { thread_id = 0; pc = in_idle; idle_fiber = 0; cb_fiber = none } ∷ [];
}

resting-IsValid : Threads.IsValid (resting false)
resting-IsValid = record { active = refl; idle = refl; queued = tt }

abbrev at_rest_loop : Loop
at_rest_loop = record {
  timers = record { timers = []; heap = timer_at; tickled = false; previous_time = 10 };
  io = record { fd_contexts = idle_context 0 ∷ []; pending_event_count = 0 };
  scheduler = (resting true).scheduler;
}

at_rest_stops : (io_stopping 15 at_rest_loop).1.0 ≡ true
unfolding io_stopping get_next_timer stopping
at_rest_stops = refl

at_rest_io-IsValid : IsValid at_rest_loop.io
at_rest_io-IsValid = record { contexts = (idle_context-IsContext 0, tt); counted = refl }

io_stopping-Quiet_example :
    (at_rest_loop.timers.timers ≡ [])
    × All (λ c. count_of c ≡ 0) at_rest_loop.io.fd_contexts
    × (at_rest_loop.scheduler.queue ≡ [])
    × All (λ (w : Worker). on_count w.pc ≡ 0) (resting true).workers
io_stopping-Quiet_example =
    io_stopping-Quiet 15 at_rest_loop resting-IsValid (Reach.next Reach.here (Step.flags true refl))
      refl at_rest_io-IsValid (omega arith) tt at_rest_stops

-- A pass at 15: by 25 the timer is due, the pipe was written to, and two descriptors are ready.
abbrev busy_loop : Loop
busy_loop = record { timers = one_timer; io = table; scheduler = (resting false).scheduler }

abbrev reports : List Report
reports = from_pipe ∷ from_context 2 4 ∷ from_context 1 1 ∷ []
