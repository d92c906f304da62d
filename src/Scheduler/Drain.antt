-- ===== src/Scheduler/Drain.antt =====
-- A thread that is alone empties the queue of callbacks, in order.
use server_framework.Base.{
  ℕ, zero, suc, ◌*◌, ◌≡◌, refl, ap, ◌∙◌, subst, Bool, false, Option, none, some, get_elem?, List,
  [], ◌∷◌, ◌++◌, length, Outcome, ok, ◌>>=◌, arith, inr,
}
use server_framework.Fibers.{Fiber, Slice, returns, new_fiber, reset, swap_in, leave}
use server_framework.Fibers
use server_framework.Scheduler.{
  FiberAndThread, View, Pc, at_top, took, in_cb, after_cb, counted_cb, work, work_at, at_pc,
  count_off,
}
use server_framework.Scheduler.Stages.{
  cb_task, cb_tasks, IsFree, Stage, HasCbFiber-same, take_stage, dispatch-Stage, leave-Stage,
  count-Stage, settle-Stage,
}

abbrev one_call : Option ℕ → List ℕ
one_call none = []
one_call (some f) = f ∷ []

-- The callback that a fiber has.
abbrev call_of : Option Fiber → List ℕ
call_of none = []
call_of (some x) = one_call x.cb

call_of-some :
    (o : Option Fiber) (x : Fiber) (f : ℕ) → o ≡ some x → x.cb ≡ some f → call_of o ≡ f ∷ []
call_of-some o x f e h = ap call_of e ∙ ap one_call h

-- The callback that the thread's fiber for callbacks runs with the next step, where it is in it.
abbrev pub called_at : View → Pc → List ℕ
called_at v (in_cb c) = call_of (get_elem? v.fibers c)
called_at v _ = []

-- Steps of one thread whose fibers all return, with the callbacks that they run, in order.
pub steps : ℕ → ℕ → ℕ → View → Outcome (List ℕ × View)
unfolding work
steps last_id default_size zero v = ok ([], v)
steps last_id default_size (suc n) v = do
  r ← work last_id default_size returns v
  (more, w) ← steps last_id default_size n r.1
  ok (called_at v v.worker.pc ++ more, w)

steps_once :
    (last_id default_size n : ℕ) (t : Bool) (v w u : View) (pc : Pc) (calls more : List ℕ)
    → v.worker.pc ≡ pc
    → called_at v pc ≡ calls
    → work_at last_id default_size returns v pc ≡ ok (t, w)
    → steps last_id default_size n w ≡ ok (more, u)
    → steps last_id default_size (suc n) v ≡ ok (calls ++ more, u)
unfolding steps work
steps_once last_id default_size n t v w u pc calls more e called run rest =
    ap
      (λ pc. work_at last_id default_size returns v pc >>= λ r.
        steps last_id default_size n r.1 >>= λ m. ok (called_at v pc ++ m.0, m.1))
      e
    ∙ ap (λ m. m >>= λ r. steps last_id default_size n r.1 >>= λ m. ok (called_at v pc ++ m.0, m.1))
        run
    ∙ ap (λ m. m >>= λ m. ok (called_at v pc ++ m.0, m.1)) rest
    ∙ ap (λ cs. ok (cs ++ more, u)) called

-- Five steps take one callback from the queue and run it.
round :
    (last_id default_size n f : ℕ) (q : List FiberAndThread) (v : View)
    → IsFree v
    → v.scheduler.queue ≡ cb_task f ∷ q
    → (w : View) × IsFree w
      × (w.scheduler.queue ≡ q)
      × (w.scheduler.active_thread_count ≡ v.scheduler.active_thread_count)
      × ((more : List ℕ) (u : View)
          → steps last_id default_size n w ≡ ok (more, u)
          → steps last_id default_size (suc (suc (suc (suc (suc n))))) v ≡ ok (f ∷ more, u))
unfolding work_at
round last_id default_size n f q v free e =
    let (v1, ran1, pc1, cb1, fibers1, q1, active1) = take_stage v f q e in
    let (v2, c, ran2, (s2, has_cb)) =
      dispatch-Stage last_id default_size v1 f (HasCbFiber-same v v1 cb1 fibers1 free.cb) in
    let (v3, ran3, s3) = leave-Stage v2 c v1.scheduler.queue v1.scheduler.active_thread_count s2 in
    let s4 =
      count-Stage v3 c v1.scheduler.queue v.scheduler.active_thread_count
        (subst (λ a. Stage v3 (after_cb c) c Fibers.State.term v1.scheduler.queue a) active1 s3) in
    let v4 : View = at_pc (count_off v3) (counted_cb c) in
    let (v5, ran5, s5) = settle-Stage v4 c v1.scheduler.queue v.scheduler.active_thread_count s4 in
    (
      v5,
      record {
        top = s5.pc_is;
        cb = inr (c, s5.fiber, s5.cb_is, s5.found, (s5.has_stack, s5.state));
      },
      s5.queue_is ∙ q1,
      s5.active_is,
      λ more u rest.
          steps_once last_id default_size (suc (suc (suc (suc n)))) false v v1 u at_top []
            (f ∷ more) free.top refl ran1
            (steps_once last_id default_size (suc (suc (suc n))) false v1 v2 u
              (took (some (cb_task f))) [] (f ∷ more) pc1 refl (rw ran2 refl)
              (steps_once last_id default_size (suc (suc n)) false v2 v3 u (in_cb c) (f ∷ []) more
                s2.pc_is (call_of-some (get_elem? v2.fibers c) s2.fiber f s2.found has_cb)
                (rw ran3 refl)
                (steps_once last_id default_size (suc n) false v3 v4 u (after_cb c) [] more s3.pc_is
                  refl refl
                  (steps_once last_id default_size n false v4 v5 u (counted_cb c) [] more refl refl
                    ran5 rest)))),
    )

-- A thread at the top of its loop, alone, whose fiber for callbacks is absent or fresh and
-- whose fibers all return, has run just the first callbacks of the queue, in order, after five
-- steps each: it is at the top again with just the rest of the queue, its fiber for callbacks
-- ready to be used again, and as many threads count as active as before.
pub steps-drained :
    (last_id default_size : ℕ) (fs : List ℕ) (q : List FiberAndThread) (v : View)
    → IsFree v
    → v.scheduler.queue ≡ cb_tasks fs ++ q
    → (w : View) × (steps last_id default_size (5 * length fs) v ≡ ok (fs, w))
      × IsFree w
      × (w.scheduler.queue ≡ q)
      × (w.scheduler.active_thread_count ≡ v.scheduler.active_thread_count)
unfolding steps
steps-drained last_id default_size [] q v free e = (v, refl, free, e, refl)
steps-drained last_id default_size (f ∷ fs) q v free e =
    let (w, free', e', active, ran) =
      round last_id default_size (5 * length fs) f (cb_tasks fs ++ q) v free e in
    let (u, ran', free'', e'', active') = steps-drained last_id default_size fs q w free' e' in
    let five : 5 * suc (length fs) ≡ suc (suc (suc (suc (suc (5 * length fs))))) = omega arith in
    (
      u,
      ap (λ n. steps last_id default_size n v) five ∙ ran fs u ran',
      free'',
      e'',
      active' ∙ active,
    )
