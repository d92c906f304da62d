-- ===== src/IoManager/Together.antt =====
-- captain/iomanager.cpp: what a pass of `idle` does to the timers, the table and the scheduler.
use server_framework.Base.{ℕ, ◌≡◌, Bool, Option, some, List, ◌++◌, map, ok}
use server_framework.Timer.{Timer, get_next_timer}
use server_framework.Timer.Invariant as Timers
use server_framework.Timer.Callbacks.{Run}
use server_framework.Scheduler.{Scheduler, schedule_all}
use server_framework.IoManager.{Op, IoManager, Task}
use server_framework.IoManager.Idle.{Loop, task_of}
use server_framework.IoManager.Pass.{Report, queued, given_away, idle_pass, Served}

module _ (epoll_ctl : Op → ℕ → ℕ → Bool) where
  -- The scheduler behind the callbacks of the timers, and then behind the tasks of the events.
  abbrev behind : ℕ → Scheduler → List (Option ℕ) → List Task → Bool × Scheduler
  behind self s cbs tasks = schedule_all (schedule_all s (map task_of cbs)).1 (queued self tasks)

  -- What a pass does: `timer` is the run of `listExpiredCb`, `table` the one over the reports.
  pub record Passed (self now later probe : ℕ) (reports : List Report) (l : Loop) : Type 0 where
    pub timer : Run later probe (get_next_timer now l.timers).1
    pub table : Served epoll_ctl l.io reports
    pub woken : Bool
    pub after : Loop
    pub run :
        idle_pass epoll_ctl self now later probe reports l
        ≡ ok (some (given_away self table.tasks), woken, after)
    pub timers : after.timers ≡ timer.after
    pub io : after.io ≡ table.after
    pub queue :
        after.scheduler.queue
        ≡ l.scheduler.queue ++ map task_of timer.cbs ++ queued self table.tasks
