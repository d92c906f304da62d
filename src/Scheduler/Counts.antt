-- ===== src/Scheduler/Counts.antt =====
-- The two counters of the scheduler: each thread counts as active from taking a task to counting it
-- off, and as idle while its idle fiber runs.
use server_framework.Base.{
  ℕ, ◌+◌, ◌≤◌, ◌≡◌, refl, sym, ap, ◌∙◌, Bool, false, none, some, ok, ok-injective, arith, Outcome,
}
use server_framework.Fibers.{Slice}
use server_framework.Scheduler.{
  FiberAndThread, Pc, at_top, took, in_fiber, after_fiber, counted_fiber, in_cb, after_cb,
  counted_cb, in_idle, after_idle, finished, View, at_pc, count_off, take_task, enter, work_at,
  enter_idle, settle_fiber, settle_cb, settle_idle, work, schedule,
}
use server_framework.Scheduler.Dispatch.{
  on_count, idling, Dispatched, dispatch_task-Dispatched, leave_fiber_same, quiet-ok,
}

-- A step that keeps both counts in line with where the thread stands.
pub record InLine (v w : View) : Type 0 where
  pub active :
      w.scheduler.active_thread_count + on_count v.worker.pc
      ≡ v.scheduler.active_thread_count + on_count w.worker.pc
  pub idle :
      w.scheduler.idle_thread_count + idling v.worker.pc
      ≡ v.scheduler.idle_thread_count + idling w.worker.pc

take_task-InLine :
    (v w : View) (t : Bool) → v.worker.pc ≡ at_top → take_task v ≡ ok (t, w) → InLine v w
unfolding take_task
take_task-InLine v w t e run = ground arith

enter_idle-InLine : (v w : View) → v.worker.pc ≡ took none → enter_idle v ≡ ok w → InLine v w
unfolding enter_idle enter
enter_idle-InLine v w e run = ground arith

settle_fiber-InLine :
    (v w : View) (f : ℕ) (t : Bool)
    → v.worker.pc ≡ counted_fiber f
    → settle_fiber v f ≡ ok (t, w)
    → InLine v w
unfolding settle_fiber schedule
settle_fiber-InLine v w f t e run = ground arith

settle_cb-InLine :
    (v w : View) (f : ℕ) (t : Bool)
    → v.worker.pc ≡ counted_cb f
    → settle_cb v f ≡ ok (t, w)
    → InLine v w
unfolding settle_cb schedule
settle_cb-InLine v w f t e run = ground arith

settle_idle-InLine :
    (v w : View)
    → v.worker.pc ≡ after_idle
    → 1 ≤ v.scheduler.idle_thread_count
    → settle_idle v ≡ ok w
    → InLine v w
unfolding settle_idle
settle_idle-InLine v w e h run = ground arith

Dispatched-InLine :
    (v w : View) (ft : FiberAndThread)
    → v.worker.pc ≡ took (some ft)
    → 1 ≤ v.scheduler.active_thread_count
    → Dispatched v w
    → InLine v w
Dispatched-InLine v w ft e h d = ground (arith, e)

same-InLine :
    (v w : View) (pc pc' : Pc)
    → v.worker.pc ≡ pc
    → (w.scheduler ≡ v.scheduler) × (w.worker.pc ≡ pc')
    → on_count pc ≡ on_count pc'
    → idling pc ≡ idling pc'
    → InLine v w
same-InLine v w pc pc' e s b i = ground arith

counted-InLine :
    (v w : View) (t : Bool) (pc pc' : Pc)
    → v.worker.pc ≡ pc
    → on_count pc ≡ 1
    → idling pc ≡ 0
    → on_count pc' ≡ 0
    → idling pc' ≡ 0
    → 1 ≤ v.scheduler.active_thread_count
    → ◌≡◌ {A = Outcome (Bool × View)} (ok (false, at_pc (count_off v) pc')) (ok (t, w))
    → InLine v w
counted-InLine v w t pc pc' e b i b' i' h run = ground arith

work_at-InLine :
    (last_id default_size : ℕ) (slice : Slice) (v w : View) (t : Bool) (pc : Pc)
    → v.worker.pc ≡ pc
    → on_count pc ≤ v.scheduler.active_thread_count
    → idling pc ≤ v.scheduler.idle_thread_count
    → work_at last_id default_size slice v pc ≡ ok (t, w)
    → InLine v w
unfolding work_at
work_at-InLine last_id default_size slice v w t at_top e b i run = take_task-InLine v w t e run
work_at-InLine last_id default_size slice v w t (took none) e b i run =
    enter_idle-InLine v w e (quiet-ok _ t w run)
work_at-InLine last_id default_size slice v w t (took (some ft)) e b i run =
    Dispatched-InLine v w ft e b
      (dispatch_task-Dispatched last_id default_size v w ft (quiet-ok _ t w run))
work_at-InLine last_id default_size slice v w t (in_fiber f) e b i run =
    same-InLine v w (in_fiber f) (after_fiber f) e
      (leave_fiber_same v w f slice (after_fiber f) (quiet-ok _ t w run)) refl refl
work_at-InLine last_id default_size slice v w t (after_fiber f) e b i run =
    counted-InLine v w t (after_fiber f) (counted_fiber f) e refl refl refl refl b run
work_at-InLine last_id default_size slice v w t (counted_fiber f) e b i run =
    settle_fiber-InLine v w f t e run
work_at-InLine last_id default_size slice v w t (in_cb f) e b i run =
    same-InLine v w (in_cb f) (after_cb f) e
      (leave_fiber_same v w f slice (after_cb f) (quiet-ok _ t w run)) refl refl
work_at-InLine last_id default_size slice v w t (after_cb f) e b i run =
    counted-InLine v w t (after_cb f) (counted_cb f) e refl refl refl refl b run
work_at-InLine last_id default_size slice v w t (counted_cb f) e b i run =
    settle_cb-InLine v w f t e run
work_at-InLine last_id default_size slice v w t in_idle e b i run =
    same-InLine v w in_idle after_idle e
      (leave_fiber_same v w v.worker.idle_fiber slice after_idle (quiet-ok _ t w run)) refl refl
work_at-InLine last_id default_size slice v w t after_idle e b i run =
    settle_idle-InLine v w e i (quiet-ok _ t w run)
work_at-InLine last_id default_size slice v w t finished e b i run =
    same-InLine v w finished finished e
      (
        ap (λ (r : Bool × View). r.1.scheduler) (sym (ok-injective run)),
        ap (λ (r : Bool × View). r.1.worker.pc) (sym (ok-injective run)) ∙ e,
      )
      refl refl

pub work-InLine :
    (last_id default_size : ℕ) (slice : Slice) (v w : View) (t : Bool)
    → on_count v.worker.pc ≤ v.scheduler.active_thread_count
    → idling v.worker.pc ≤ v.scheduler.idle_thread_count
    → work last_id default_size slice v ≡ ok (t, w)
    → InLine v w
unfolding work
work-InLine last_id default_size slice v w t b i run =
    work_at-InLine last_id default_size slice v w t v.worker.pc refl b i run
