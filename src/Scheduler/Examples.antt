-- ===== src/Scheduler/Examples.antt =====
-- One and two threads on short queues.
use server_framework.Base.{false, ℕ, ◌≡◌, refl, true, none, some, List, [], ◌∷◌, All, ok, ◌*◌, inl}
use server_framework.Fibers.{Fiber, Slice, returns, new_fiber, reset, swap_in, leave, State}
use server_framework.Scheduler.{
  FiberAndThread, Scheduler, Worker, View, at_top, took, counted_fiber, in_fiber, Scan, scan,
  schedule, take_task, enter, enter_created, enter_cb, dispatch_cb, dispatch_fiber, dispatch_task,
  leave_fiber, settle_fiber, settle_cb, work_at, work, stopping, fiber_task,
}
use server_framework.Scheduler.Queue.{Skipped, Picked, scan-Picked}
use server_framework.Scheduler.Dispatch.{on_count}
use server_framework.Scheduler.System.{
  System, Step, view_of, IsValid, run_on, run_all, run_all-Reach, Reach-IsValid, Reach-stopping,
}
use server_framework.Scheduler.Bag.{BagStep, bag_of, Step-refines}
use server_framework.Scheduler.Stages.{cb_task, IsFree}
use server_framework.Scheduler.Drain.{steps, steps-drained}

abbrev thread : ℕ → Worker
thread n = record { thread_id = n; pc = at_top; idle_fiber = n; cb_fiber = none }

abbrev on_queue : List FiberAndThread → Scheduler
on_queue q = record {
  queue = q;
  active_thread_count = 0;
  idle_thread_count = 0;
  is_stopping = true;
  auto_stop = true;
}

abbrev parked : Fiber
parked = record { id = 5; stack_size = 4096; state = State.hold; has_stack = true; cb = some 2 }

abbrev one_task : System
one_task = record {
  scheduler = on_queue (cb_task 7 ∷ []);
  fibers = parked ∷ [];
  workers = thread 0 ∷ [];
}

abbrev five_steps : List (ℕ × Slice)
five_steps = (0, returns) ∷ (0, returns) ∷ (0, returns) ∷ (0, returns) ∷ (0, returns) ∷ []

-- The same system when its task is done.
abbrev task_done : System
task_done = record {
  scheduler = on_queue [];
  fibers =
      parked
      ∷ record { id = 1; stack_size = 0; state = State.init; has_stack = true; cb = none }
      ∷ [];
  workers = record { thread_id = 0; pc = at_top; idle_fiber = 0; cb_fiber = some 1 } ∷ [];
}

one_task_runs : run_all one_task five_steps ≡ ok task_done
unfolding work work_at take_task scan dispatch_task dispatch_cb enter_cb enter_created enter
    new_fiber swap_in leave_fiber leave settle_cb schedule reset
one_task_runs = refl

one_task-IsValid : IsValid one_task
one_task-IsValid = record { active = refl; idle = refl; queued = (refl, tt) }

Reach-IsValid_example : IsValid task_done
Reach-IsValid_example =
    Reach-IsValid one_task-IsValid (run_all-Reach one_task task_done five_steps one_task_runs)

task_done_stops : stopping task_done.scheduler ≡ true
unfolding stopping
task_done_stops = refl

Reach-stopping_example :
    (task_done.scheduler.queue ≡ []) × All (λ (w : Worker). on_count w.pc ≡ 0) task_done.workers
Reach-stopping_example =
    Reach-stopping one_task-IsValid (run_all-Reach one_task task_done five_steps one_task_runs)
      task_done_stops

-- The first step takes the task.
abbrev task_taken : System
task_taken = record {
  scheduler = record {
    queue = [];
    active_thread_count = 1;
    idle_thread_count = 0;
    is_stopping = true;
    auto_stop = true;
  };
  fibers = parked ∷ [];
  workers =
      record { thread_id = 0; pc = took (some (cb_task 7)); idle_fiber = 0; cb_fiber = none } ∷ [];
}

one_task_taken : run_on one_task 0 returns ≡ ok task_taken
unfolding work work_at take_task scan
one_task_taken = refl

abbrev task_in_hand : View
task_in_hand = record {
  scheduler = task_taken.scheduler;
  fibers = parked ∷ [];
  worker = record { thread_id = 0; pc = took (some (cb_task 7)); idle_fiber = 0; cb_fiber = none };
}

one_task_works : work 0 0 returns (view_of one_task (thread 0)) ≡ ok (false, task_in_hand)
unfolding work work_at take_task scan
one_task_works = refl

Step-refines_example :
    BagStep none
      (All (Skipped 0 one_task.fibers) one_task.scheduler.queue)
      task_taken.workers
      (bag_of one_task)
      (bag_of task_taken)
Step-refines_example =
    Step-refines one_task task_taken one_task-IsValid
      (Step.runs 0 0 0 returns false (thread 0) task_in_hand refl one_task_works refl)

abbrev pinned : FiberAndThread
pinned = record { fiber = none; cb = some 3; thread = some 1 }

scan-Picked_example :
    (r : Scan) × (scan 0 (parked ∷ []) (pinned ∷ fiber_task 0 ∷ []) ≡ ok r)
    × Picked 0 (parked ∷ []) (pinned ∷ fiber_task 0 ∷ []) r
scan-Picked_example = scan-Picked 0 (parked ∷ []) (pinned ∷ fiber_task 0 ∷ []) (refl, (refl, tt))

abbrev alone : View
alone = record {
  scheduler = on_queue (cb_task 7 ∷ cb_task 8 ∷ pinned ∷ []);
  fibers = parked ∷ [];
  worker = thread 0;
}

steps-drained_example :
    (w : View) × (steps 0 65536 (5 * 2) alone ≡ ok (7 ∷ 8 ∷ [], w))
    × IsFree w
    × (w.scheduler.queue ≡ pinned ∷ [])
    × (w.scheduler.active_thread_count ≡ 0)
steps-drained_example =
    steps-drained 0 65536 (7 ∷ 8 ∷ []) (pinned ∷ []) alone (record { top = refl; cb = inl refl })
      refl

-- The fiber 2 is parked by the thread 0 while it is in the queue again: the thread 1 takes and enters
-- it, and the thread 0 then sets `HOLD` on the fiber that the thread 1 runs.
abbrev parked_twice : System
parked_twice = record {
  scheduler = on_queue (fiber_task 2 ∷ []);
  fibers = parked ∷ parked ∷ parked ∷ [];
  workers =
      record { thread_id = 0; pc = counted_fiber 2; idle_fiber = 0; cb_fiber = none }
      ∷ thread 1
      ∷ [];
}

abbrev held_while_running : System
held_while_running = record {
  scheduler = record {
    queue = [];
    active_thread_count = 1;
    idle_thread_count = 0;
    is_stopping = true;
    auto_stop = true;
  };
  fibers = parked ∷ parked ∷ parked ∷ [];
  workers =
      thread 0 ∷ record { thread_id = 1; pc = in_fiber 2; idle_fiber = 1; cb_fiber = none } ∷ [];
}

running_fiber_set_to_hold :
    run_all parked_twice ((1, returns) ∷ (1, returns) ∷ (0, returns) ∷ []) ≡ ok held_while_running
unfolding work work_at take_task scan dispatch_task dispatch_fiber enter swap_in settle_fiber
    schedule
running_fiber_set_to_hold = refl
