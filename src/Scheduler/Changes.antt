-- ===== src/Scheduler/Changes.antt =====
-- What a step of a thread does to the queue: it takes one task out, or puts one at the end.
use server_framework.Base.{
  ℕ, ◌+◌, ◌≡◌, refl, sym, ap, ◌∙◌, subst, Bool, true, if◌then◌else◌, get_elem?, Option, none, some,
  List, [], ◌∷◌, ◌++◌, ◌⊎◌, inl, inr, All, ok, ok-injective, arith,
}
use server_framework.Fibers.{Slice, is_ready}
use server_framework.Scheduler.{
  FiberAndThread, Scan, Scheduler, Pc, at_top, took, in_fiber, after_fiber, counted_fiber, in_cb,
  after_cb, counted_cb, in_idle, after_idle, finished, View, has_work, scan, fiber_task, take_task,
  enter_idle, settle_fiber, settle_cb, settle_idle, work, work_at, schedule, enter,
}
use server_framework.Scheduler.Queue.{Skipped, scan-Picked}
use server_framework.Scheduler.Dispatch.{
  quiet-ok, Dispatched, dispatch_task-Dispatched, leave_fiber_same,
}

abbrev pub Queue : Type 0
Queue = List FiberAndThread

-- The fiber, where it is to be put back: it has yielded to be run again.
abbrev pub ready_at : View → ℕ → Option FiberAndThread
ready_at v f = elim (get_elem? v.fibers f) [
  | none ↦ none
  | some x ↦ if is_ready x.state then some (fiber_task f) else none
]

-- The task that a thread which stands at `pc` must put back, if any.
abbrev pub due_at : View → Pc → Option FiberAndThread
due_at v (counted_fiber f) = ready_at v f
due_at v (counted_cb f) = ready_at v f
due_at v _ = none

-- A thread at the top that takes no task finds none that it could take.
abbrev pub Rests : View → Pc → Type 0
Rests v at_top = All (Skipped v.worker.thread_id v.fibers) v.scheduler.queue
Rests v _ = Unit {0}

-- What a step from `pc` does to the queue. A task that is taken is in the hand of the thread.
pub data Change (v : View) (pc : Pc) (w : View) : Type 0 where
  kept : due_at v pc ≡ none → Rests v pc → w.scheduler.queue ≡ v.scheduler.queue → Change v pc w
  added :
      (ft : FiberAndThread)
      → due_at v pc ≡ some ft
      → has_work ft ≡ true
      → w.scheduler.queue ≡ v.scheduler.queue ++ ft ∷ []
      → Change v pc w
  removed :
      (ft : FiberAndThread) (before after : Queue)
      → due_at v pc ≡ none
      → v.scheduler.queue ≡ before ++ ft ∷ after
      → w.scheduler.queue ≡ before ++ after
      → w.worker.pc ≡ took (some ft)
      → Change v pc w

abbrev pub Changed : View → View → Type 0
Changed v w = Change v v.worker.pc w

take_steps :
    (v : View) (r : Scan)
    → scan v.worker.thread_id v.fibers v.scheduler.queue ≡ ok r
    → (w : View) × (take_task v ≡ ok (r.tickle_me, w))
      × (w.scheduler.queue ≡ r.left)
      × (w.worker.pc ≡ took r.taken)
unfolding take_task
take_steps v r e = (
  record v {
    scheduler = record v.scheduler {
      queue = r.left;
      active_thread_count = elim r.taken [
        | none ↦ v.scheduler.active_thread_count
        | some ft ↦ v.scheduler.active_thread_count + 1
      ];
    };
    worker = record v.worker { pc = took r.taken };
  },
  simp e,
  refl,
  refl,
)

pub take_task-Changed :
    (v w : View) (t : Bool)
    → All (λ ft. has_work ft ≡ true) v.scheduler.queue
    → take_task v ≡ ok (t, w)
    → Change v at_top w
take_task-Changed v w t h run =
    let (r, found, p) = scan-Picked v.worker.thread_id v.fibers v.scheduler.queue h in
    let (u, ran, left, pc) = take_steps v r found in
    let same : u ≡ w = ap (λ (x : Bool × View). x.1) (ok-injective (sym ran ∙ run)) in
    subst (Change v at_top) same (elim p.choice [
      | inl (none_taken, q, l, a) ↦
          kept refl (subst (All (Skipped v.worker.thread_id v.fibers)) (sym q) p.skipped)
            (left ∙ l ∙ sym q)
      | inr (ft, taken, f, q, l) ↦
          removed ft p.before p.after refl q (left ∙ l) (pc ∙ ap took taken)
    ])

-- The fiber is put back just if it is to be.
abbrev PutBack : View → ℕ → View → Type 0
PutBack v f w =
    ((ready_at v f ≡ none) × (w.scheduler.queue ≡ v.scheduler.queue))
    ⊎ ((ready_at v f ≡ some (fiber_task f))
        × (w.scheduler.queue ≡ v.scheduler.queue ++ fiber_task f ∷ []))

settle_fiber-Changed :
    (v w : View) (f : ℕ) (t : Bool) → settle_fiber v f ≡ ok (t, w) → PutBack v f w
unfolding settle_fiber schedule
settle_fiber-Changed v w f t run = ground arith

settle_cb-Changed : (v w : View) (f : ℕ) (t : Bool) → settle_cb v f ≡ ok (t, w) → PutBack v f w
unfolding settle_cb schedule
settle_cb-Changed v w f t run = ground arith

settle_idle-Changed : (v w : View) → settle_idle v ≡ ok w → w.scheduler.queue ≡ v.scheduler.queue
unfolding settle_idle
settle_idle-Changed v w run = ground arith

enter_idle-Changed : (v w : View) → enter_idle v ≡ ok w → w.scheduler.queue ≡ v.scheduler.queue
unfolding enter_idle enter
enter_idle-Changed v w run = ground arith

same_queue : (v w : View) → w.scheduler ≡ v.scheduler → w.scheduler.queue ≡ v.scheduler.queue
same_queue v w e = ap (λ (s : Scheduler). s.queue) e

dispatched : (v w : View) → Dispatched v w → w.scheduler.queue ≡ v.scheduler.queue
dispatched v w (inl d) = same_queue v w d.0
dispatched v w (inr d) = ap (λ (s : Scheduler). s.queue) d.0

work_at-Changed :
    (last_id default_size : ℕ) (slice : Slice) (v w : View) (t : Bool) (pc : Pc)
    → All (λ ft. has_work ft ≡ true) v.scheduler.queue
    → work_at last_id default_size slice v pc ≡ ok (t, w)
    → Change v pc w
unfolding work_at
work_at-Changed last_id default_size slice v w t at_top h run = take_task-Changed v w t h run
work_at-Changed last_id default_size slice v w t (took none) h run =
    kept refl tt (enter_idle-Changed v w (quiet-ok _ t w run))
work_at-Changed last_id default_size slice v w t (took (some ft)) h run =
    kept refl tt
      (dispatched v w (dispatch_task-Dispatched last_id default_size v w ft (quiet-ok _ t w run)))
work_at-Changed last_id default_size slice v w t (in_fiber f) h run =
    kept refl tt (same_queue v w (leave_fiber_same v w f slice _ (quiet-ok _ t w run)).0)
work_at-Changed last_id default_size slice v w t (after_fiber f) h run =
    kept refl tt (ap (λ (r : Bool × View). r.1.scheduler.queue) (sym (ok-injective run)))
work_at-Changed last_id default_size slice v w t (counted_fiber f) h run =
    elim (settle_fiber-Changed v w f t run) [
      | inl (due, e) ↦ kept due tt e
      | inr (due, e) ↦ added (fiber_task f) due refl e
    ]
work_at-Changed last_id default_size slice v w t (in_cb f) h run =
    kept refl tt (same_queue v w (leave_fiber_same v w f slice _ (quiet-ok _ t w run)).0)
work_at-Changed last_id default_size slice v w t (after_cb f) h run =
    kept refl tt (ap (λ (r : Bool × View). r.1.scheduler.queue) (sym (ok-injective run)))
work_at-Changed last_id default_size slice v w t (counted_cb f) h run =
    elim (settle_cb-Changed v w f t run) [
      | inl (due, e) ↦ kept due tt e
      | inr (due, e) ↦ added (fiber_task f) due refl e
    ]
work_at-Changed last_id default_size slice v w t in_idle h run =
    kept refl tt
      (same_queue v w (leave_fiber_same v w v.worker.idle_fiber slice _ (quiet-ok _ t w run)).0)
work_at-Changed last_id default_size slice v w t after_idle h run =
    kept refl tt (settle_idle-Changed v w (quiet-ok _ t w run))
work_at-Changed last_id default_size slice v w t finished h run =
    kept refl tt (ap (λ (r : Bool × View). r.1.scheduler.queue) (sym (ok-injective run)))

pub work-Changed :
    (last_id default_size : ℕ) (slice : Slice) (v w : View) (t : Bool)
    → All (λ ft. has_work ft ≡ true) v.scheduler.queue
    → work last_id default_size slice v ≡ ok (t, w)
    → Changed v w
unfolding work
work-Changed last_id default_size slice v w t h run =
    work_at-Changed last_id default_size slice v w t v.worker.pc h run
