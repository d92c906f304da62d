-- ===== src/Scheduler/Dispatch.antt =====
-- What the dispatch of a task comes to: a fiber runs and nothing is counted, or the task is dropped.
use server_framework.Base.{
  ℕ, ◌≡◌, sym, ap, ◌∙◌, Bool, Bool-cases, if◌then◌else◌, Option, none, some, ◌⊎◌, inl, inr, ok,
  ◌>>=◌, >>=-eq-ok, ok-injective, arith, Outcome,
}
use server_framework.Fibers.{Slice, is_over, reset}
use server_framework.Scheduler.{
  FiberAndThread, Pc, at_top, took, in_fiber, after_fiber, in_cb, after_cb, in_idle, after_idle,
  View, fiber_at, put_fiber, count_off, enter, enter_reused, enter_created, enter_cb, dispatch_cb,
  dispatch_fiber, quiet, dispatch_task, leave_fiber,
}

-- Has the thread taken a task, and not counted it off yet? A fiber that is counted off may still be
-- put back into the queue.
abbrev pub on_count : Pc → ℕ
on_count (took (some ft)) = 1
on_count (in_fiber f) = 1
on_count (after_fiber f) = 1
on_count (in_cb f) = 1
on_count (after_cb f) = 1
on_count _ = 0

abbrev pub idling : Pc → ℕ
idling in_idle = 1
idling after_idle = 1
idling _ = 0

-- `enter` runs a fiber and counts nothing.
pub enter_same :
    (v w : View) (f : ℕ) (pc : Pc)
    → enter v f pc ≡ ok w
    → (w.scheduler ≡ v.scheduler) × (w.worker.pc ≡ pc)
unfolding enter
enter_same v w f pc run = ground arith

enter_reused_same :
    (v w : View) (c f : ℕ)
    → enter_reused v c f ≡ ok w
    → (w.scheduler ≡ v.scheduler) × ((d : ℕ) × (w.worker.pc ≡ in_cb d))
unfolding enter_reused
enter_reused_same v w c f run =
    let (x, rest, found) =
      >>=-eq-ok (fiber_at v.fibers c)
        (λ x. reset x (some f) >>= λ y. enter (put_fiber v c y) c (in_cb c)) run in
    let (y, entered, again) =
      >>=-eq-ok (reset x (some f)) (λ y. enter (put_fiber v c y) c (in_cb c)) rest in
    let (same, pc) = enter_same (put_fiber v c y) w c (in_cb c) entered in (same, (c, pc))

enter_created_same :
    (last_id default_size : ℕ) (v w : View) (f : ℕ)
    → enter_created last_id default_size v f ≡ ok w
    → (w.scheduler ≡ v.scheduler) × ((d : ℕ) × (w.worker.pc ≡ in_cb d))
unfolding enter_created
enter_created_same last_id default_size v w f run =
    let (same, pc) = enter_same _ w _ _ run in (same, (_, pc))

enter_cb_same :
    (last_id default_size : ℕ) (v w : View) (f : ℕ)
    → enter_cb last_id default_size v f ≡ ok w
    → (w.scheduler ≡ v.scheduler) × ((c : ℕ) × (w.worker.pc ≡ in_cb c))
unfolding enter_cb
enter_cb_same last_id default_size v w f run = go v.worker.cb_fiber run
  where
    go :
        (o : Option ℕ)
        → elim o as (λ o. Outcome View) [
          | none ↦ enter_created last_id default_size v f
          | some c ↦ enter_reused v c f
        ]
          ≡ ok w
        → (w.scheduler ≡ v.scheduler) × ((c : ℕ) × (w.worker.pc ≡ in_cb c))
    go none run = enter_created_same last_id default_size v w f run
    go (some c) run = enter_reused_same v w c f run

-- A dispatched task runs, or is dropped and counted off.
abbrev pub Dispatched : View → View → Type 0
Dispatched v w =
    ((w.scheduler ≡ v.scheduler) × (on_count w.worker.pc ≡ 1) × (idling w.worker.pc ≡ 0))
    ⊎ ((w.scheduler ≡ (count_off v).scheduler) × (w.worker.pc ≡ at_top))

dispatch_cb-Dispatched :
    (last_id default_size : ℕ) (v w : View) (cb : Option ℕ)
    → dispatch_cb last_id default_size v cb ≡ ok w
    → Dispatched v w
unfolding dispatch_cb
dispatch_cb-Dispatched last_id default_size v w (some f) run =
    let (same, (c, pc)) = enter_cb_same last_id default_size v w f run in
    inl (same, ap on_count pc, ap idling pc)
dispatch_cb-Dispatched last_id default_size v w none run =
    let e = ok-injective run in
    inr (ap (λ (u : View). u.scheduler) (sym e), ap (λ (u : View). u.worker.pc) (sym e))

dispatch_fiber-Dispatched :
    (last_id default_size : ℕ) (v w : View) (f : ℕ) (cb : Option ℕ)
    → dispatch_fiber last_id default_size v f cb ≡ ok w
    → Dispatched v w
unfolding dispatch_fiber
dispatch_fiber-Dispatched last_id default_size v w f cb run =
    let (x, rest, found) =
      >>=-eq-ok (fiber_at v.fibers f)
        (λ x.
          if is_over x.state then dispatch_cb last_id default_size v cb else enter v f (in_fiber f))
        run in
    elim (Bool-cases (is_over x.state)) [
      | inl e ↦ dispatch_cb-Dispatched last_id default_size v w cb (
          sym (
            ap (λ b. if b then dispatch_cb last_id default_size v cb else enter v f (in_fiber f)) e)
          ∙ rest)
      | inr e ↦
          let (same, pc) = enter_same v w f (in_fiber f) (
            sym (
              ap (λ b. if b then dispatch_cb last_id default_size v cb else enter v f (in_fiber f))
                e)
            ∙ rest) in
          inl (same, ap on_count pc, ap idling pc)
    ]

pub dispatch_task-Dispatched :
    (last_id default_size : ℕ) (v w : View) (ft : FiberAndThread)
    → dispatch_task last_id default_size v ft ≡ ok w
    → Dispatched v w
unfolding dispatch_task
dispatch_task-Dispatched last_id default_size v w ft run = go ft.fiber run
  where
    go :
        (o : Option ℕ)
        → elim o as (λ o. Outcome View) [
          | none ↦ dispatch_cb last_id default_size v ft.cb
          | some f ↦ dispatch_fiber last_id default_size v f ft.cb
        ]
          ≡ ok w
        → Dispatched v w
    go none run = dispatch_cb-Dispatched last_id default_size v w ft.cb run
    go (some f) run = dispatch_fiber-Dispatched last_id default_size v w f ft.cb run

pub leave_fiber_same :
    (v w : View) (f : ℕ) (slice : Slice) (pc : Pc)
    → leave_fiber v f slice pc ≡ ok w
    → (w.scheduler ≡ v.scheduler) × (w.worker.pc ≡ pc)
unfolding leave_fiber
leave_fiber_same v w f slice pc run = ground arith

pub quiet-ok : (m : Outcome View) (t : Bool) (w : View) → quiet m ≡ ok (t, w) → m ≡ ok w
quiet-ok m t w run = ground arith
