-- ===== src/Scheduler.antt =====
-- captain/scheduler.cpp, captain/include/scheduler.h: the queue of tasks and the threads on it.
-- A pointer to a fiber is its index in the list of fibers, a callback is a number. `run` of a thread
-- is cut where other threads can come between: `Pc` says where a thread stands. A step under the
-- lock is one step. `tickle` of the base class writes a log line only: what matters is whether it is
-- called.
mod Queue
pub mod Submission
pub mod Dispatch
mod Counts
mod Changes
pub mod System
mod Bag
mod Stages
mod Drain
mod Examples
use server_framework.Base.{
  ℕ, zero, suc, ◌+◌, ◌-◌, ◌==◌, Bool, true, false, not, ◌&&◌, ◌||◌, if◌then◌else◌, Option, none,
  some, List, [], ◌∷◌, ◌++◌, length, get_elem?, set, Outcome, ok, fail, null_pointer,
  assertion_failed, ◌>>=◌, ◌>>◌, guard, or_fail, size_sub,
}
use server_framework.Fibers.{
  State, Fiber, Slice, is_exec, is_ready, is_over, has_cb, new_fiber, reset, swap_in, leave,
}
use server_framework.Fibers

pub record FiberAndThread : Type 0 where
  pub fiber : Option ℕ
  pub cb : Option ℕ
  pub thread : Option ℕ

-- `FiberAndThread()`, with `-1` for the thread.
abbrev pub no_task : FiberAndThread
no_task = record { fiber = none; cb = none; thread = none }

pub record Scheduler : Type 0 where
  pub queue : List FiberAndThread
  pub active_thread_count : ℕ
  pub idle_thread_count : ℕ
  pub is_stopping : Bool
  pub auto_stop : Bool

-- `ft.fiber || ft.cb`
abbrev pub has_work : FiberAndThread → Bool
has_work ft = has_cb ft.fiber || has_cb ft.cb

abbrev pub is_empty {ℓ} : {A : Type ℓ} → List A → Bool
is_empty [] = true
is_empty (x ∷ xs) = false

-- `scheduleNoLock`, and `schedule` of one task: the flag says whether `tickle` is called.
pub schedule : Scheduler → FiberAndThread → Bool × Scheduler
schedule s ft =
    (is_empty s.queue, record s { queue = if has_work ft then s.queue ++ ft ∷ [] else s.queue })

-- `schedule(begin, end)`
pub schedule_all : Scheduler → List FiberAndThread → Bool × Scheduler
unfolding schedule
schedule_all s [] = (false, s)
schedule_all s (ft ∷ fts) =
    let one = schedule s ft in let rest = schedule_all one.1 fts in (one.0 || rest.0, rest.1)

-- `it->thread != -1 && it->thread != GetThreadId()`
abbrev pub other_thread : ℕ → Option ℕ → Bool
other_thread me none = false
other_thread me (some t) = not (t == me)

-- `it->fiber && it->fiber->getState() == EXEC`
abbrev pub is_running : List Fiber → Option ℕ → Bool
is_running fibers none = false
is_running fibers (some f) = elim (get_elem? fibers f) [ none ↦ false | some x ↦ is_exec x.state ]

-- What the scan of the queue finds: is a task left for another thread, which task is taken, and the
-- queue behind it.
pub record Scan : Type 0 where
  pub tickle_me : Bool
  pub taken : Option FiberAndThread
  pub left : List FiberAndThread

-- A task that the scan passes over.
abbrev pub passed : Bool → FiberAndThread → Scan → Scan
passed foreign ft r = record {
  tickle_me = foreign || r.tickle_me;
  taken = r.taken;
  left = ft ∷ r.left;
}

pub scan : ℕ → List Fiber → List FiberAndThread → Outcome Scan
scan me fibers [] = ok (record { tickle_me = false; taken = none; left = [] })
scan me fibers (ft ∷ fts) =
    let rest = scan me fibers fts in
    let foreign = other_thread me ft.thread in
    let here : Outcome Scan = do
      guard (has_work ft) assertion_failed
      if is_running fibers ft.fiber
          then (rest >>= λ r. ok (passed false ft r))
          else ok (record { tickle_me = false; taken = some ft; left = fts })
    in if foreign then (rest >>= λ r. ok (passed true ft r)) else here

-- Where a thread stands in `run`, with the task in its hand.
pub data Pc : Type 0 where
  at_top : Pc
  took : Option FiberAndThread → Pc
  in_fiber after_fiber counted_fiber : ℕ → Pc
  in_cb after_cb counted_cb : ℕ → Pc
  in_idle after_idle finished : Pc

pub record Worker : Type 0 where
  pub thread_id : ℕ
  pub pc : Pc
  pub idle_fiber : ℕ
  pub cb_fiber : Option ℕ

-- What one thread works on: the scheduler, the fibers, and where it stands.
pub record View : Type 0 where
  pub scheduler : Scheduler
  pub fibers : List Fiber
  pub worker : Worker

abbrev pub at_pc : View → Pc → View
at_pc v pc = record v { worker = record v.worker { pc = pc } }

-- The fiber under a pointer.
abbrev pub fiber_at : List Fiber → ℕ → Outcome Fiber
fiber_at fibers f = or_fail (get_elem? fibers f) null_pointer

abbrev pub put_fiber : View → ℕ → Fiber → View
put_fiber v f x = record v { fibers = set v.fibers f x }

abbrev pub count_off : View → View
count_off v = record v {
  scheduler = record v.scheduler {
    active_thread_count = size_sub v.scheduler.active_thread_count 1;
  };
}

-- The block under the lock at the top of the loop, and the tickle behind it.
pub take_task : View → Outcome (Bool × View)
take_task v = do
  r ← scan v.worker.thread_id v.fibers v.scheduler.queue
  let active : ℕ = elim r.taken [
    | none ↦ v.scheduler.active_thread_count
    | some ft ↦ v.scheduler.active_thread_count + 1
  ]
  ok (
    r.tickle_me,
    record v {
      scheduler = record v.scheduler { queue = r.left; active_thread_count = active };
      worker = record v.worker { pc = took r.taken };
    },
  )

-- `swapIn` of the fiber at `f`.
pub enter : View → ℕ → Pc → Outcome View
enter v f pc = do x ← fiber_at v.fibers f; y ← swap_in x; ok (at_pc (put_fiber v f y) pc)

-- `cb_fiber->reset(ft.cb)`, and `swapIn` of it.
pub enter_reused : View → ℕ → ℕ → Outcome View
enter_reused v c f = do
  x ← fiber_at v.fibers c
  y ← reset x (some f)
  enter (put_fiber v c y) c (in_cb c)

-- `cb_fiber.reset(new Fiber(ft.cb))`, and `swapIn` of it.
pub enter_created : ℕ → ℕ → View → ℕ → Outcome View
enter_created last_id default_size v f =
    let c = length v.fibers in
    let grown = record v {
      fibers = v.fibers ++ new_fiber last_id default_size (some f) 0 ∷ [];
      worker = record v.worker { cb_fiber = some c };
    } in
    enter grown c (in_cb c)

-- The callback of a task goes into the thread's own fiber for callbacks, or into a new one.
pub enter_cb : ℕ → ℕ → View → ℕ → Outcome View
enter_cb last_id default_size v f = elim v.worker.cb_fiber [
  | none ↦ enter_created last_id default_size v f
  | some c ↦ enter_reused v c f
]

-- The idle fiber, where there is no task.
pub enter_idle : View → Outcome View
enter_idle v = do
  x ← fiber_at v.fibers v.worker.idle_fiber
  let counted = record v {
    scheduler = record v.scheduler { idle_thread_count = v.scheduler.idle_thread_count + 1 };
  }
  let ends : Bool = elim x.state [ Fibers.State.term ↦ true | other ↦ false ]
  if ends then ok (at_pc v finished) else enter counted v.worker.idle_fiber in_idle

-- A task without a fiber that can run: its callback, or nothing.
pub dispatch_cb : ℕ → ℕ → View → Option ℕ → Outcome View
dispatch_cb last_id default_size v (some f) = enter_cb last_id default_size v f
dispatch_cb last_id default_size v none = ok (at_pc (count_off v) at_top)

pub dispatch_fiber : ℕ → ℕ → View → ℕ → Option ℕ → Outcome View
dispatch_fiber last_id default_size v f cb = do
  x ← fiber_at v.fibers f
  if is_over x.state then dispatch_cb last_id default_size v cb else enter v f (in_fiber f)

-- The three branches on the task `ft`; a task was taken, so the thread counts as active.
pub dispatch_task : ℕ → ℕ → View → FiberAndThread → Outcome View
dispatch_task last_id default_size v ft = elim ft.fiber [
  | none ↦ dispatch_cb last_id default_size v ft.cb
  | some f ↦ dispatch_fiber last_id default_size v f ft.cb
]

-- The running fiber gives the thread back.
pub leave_fiber : View → ℕ → Slice → Pc → Outcome View
leave_fiber v f slice pc = do x ← fiber_at v.fibers f; ok (at_pc (put_fiber v f (leave x slice)) pc)

abbrev pub fiber_task : ℕ → FiberAndThread
fiber_task f = record { fiber = some f; cb = none; thread = none }

abbrev pub on_hold : Fiber → Fiber
on_hold x = record x { state = Fibers.State.hold }

-- Behind `--m_activeThreadCount` of a task that is a fiber.
pub settle_fiber : View → ℕ → Outcome (Bool × View)
settle_fiber v f = do
  x ← fiber_at v.fibers f
  let again = schedule v.scheduler (fiber_task f)
  let held = if is_over x.state then v else put_fiber v f (on_hold x)
  if is_ready x.state
      then ok (again.0, at_pc (record v { scheduler = again.1 }) at_top)
      else ok (false, at_pc held at_top)

-- The same for the thread's fiber for callbacks.
pub settle_cb : View → ℕ → Outcome (Bool × View)
settle_cb v f = do
  x ← fiber_at v.fibers f
  let again = schedule v.scheduler (fiber_task f)
  let forget : View → View = λ w. record w { worker = record w.worker { cb_fiber = none } }
  let held = forget (put_fiber v f (on_hold x))
  let reused : Outcome View = do y ← reset x none; ok (put_fiber v f y)
  if is_ready x.state
      then ok (again.0, at_pc (forget (record v { scheduler = again.1 })) at_top)
      else (if is_over x.state
          then (reused >>= λ w. ok (false, at_pc w at_top))
          else ok (false, at_pc held at_top))

-- The idle fiber has given the thread back.
pub settle_idle : View → Outcome View
settle_idle v = do
  x ← fiber_at v.fibers v.worker.idle_fiber
  let counted = record v {
    scheduler = record v.scheduler { idle_thread_count = size_sub v.scheduler.idle_thread_count 1 };
  }
  ok (
      at_pc (if is_over x.state then counted else put_fiber counted v.worker.idle_fiber (on_hold x))
        at_top)

abbrev pub quiet : Outcome View → Outcome (Bool × View)
quiet m = m >>= λ w. ok (false, w)

-- One step of a thread from where it stands. `slice` is how the running fiber gives the thread back,
-- where it does.
pub work_at : ℕ → ℕ → Slice → View → Pc → Outcome (Bool × View)
work_at last_id default_size slice v at_top = take_task v
work_at last_id default_size slice v (took none) = quiet (enter_idle v)
work_at last_id default_size slice v (took (some ft)) =
    quiet (dispatch_task last_id default_size v ft)
work_at last_id default_size slice v (in_fiber f) = quiet (leave_fiber v f slice (after_fiber f))
work_at last_id default_size slice v (after_fiber f) =
    ok (false, at_pc (count_off v) (counted_fiber f))
work_at last_id default_size slice v (counted_fiber f) = settle_fiber v f
work_at last_id default_size slice v (in_cb f) = quiet (leave_fiber v f slice (after_cb f))
work_at last_id default_size slice v (after_cb f) = ok (false, at_pc (count_off v) (counted_cb f))
work_at last_id default_size slice v (counted_cb f) = settle_cb v f
work_at last_id default_size slice v in_idle =
    quiet (leave_fiber v v.worker.idle_fiber slice after_idle)
work_at last_id default_size slice v after_idle = quiet (settle_idle v)
work_at last_id default_size slice v finished = ok (false, v)

pub work : ℕ → ℕ → Slice → View → Outcome (Bool × View)
unfolding work_at
work last_id default_size slice v = work_at last_id default_size slice v v.worker.pc

-- `Scheduler::stopping`
unfoldable pub stopping : Scheduler → Bool
stopping s = s.auto_stop && s.is_stopping && is_empty s.queue && (s.active_thread_count == 0)
