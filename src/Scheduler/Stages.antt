-- ===== src/Scheduler/Stages.antt =====
-- One callback on its way through a thread, step by step: taken, put into the fiber for callbacks,
-- run, counted off and settled.
use server_framework.Base.{
  ℕ, ◌+◌, ◌≡◌, refl, ap, ◌∙◌, true, false, Option, none, some, List, [], ◌∷◌, ◌++◌, length,
  get_elem?, get_elem?-set_same, set, Outcome, ok, arith, ◌⊎◌, inl, inr,
}
use server_framework.Fibers.{Fiber, Slice, returns, new_fiber, reset, swap_in, leave}
use server_framework.Fibers
use server_framework.Scheduler.{
  FiberAndThread, View, Pc, at_top, took, in_cb, after_cb, counted_cb, scan, take_task, at_pc,
  count_off, dispatch_task, dispatch_cb, enter_cb, enter, enter_reused, enter_created, settle_cb,
  leave_fiber,
}

abbrev pub cb_task : ℕ → FiberAndThread
cb_task f = record { fiber = none; cb = some f; thread = none }

abbrev pub cb_tasks : List ℕ → List FiberAndThread
cb_tasks [] = []
cb_tasks (f ∷ fs) = cb_task f ∷ cb_tasks fs

-- A fiber for callbacks that can be used again.
abbrev pub IsFresh : Fiber → Type 0
IsFresh x = (x.has_stack ≡ true) × (x.state ≡ Fibers.State.init)

-- The thread has no fiber for callbacks, or one that can be used again.
abbrev pub HasCbFiber : View → Type 0
HasCbFiber v =
    (v.worker.cb_fiber ≡ none)
    ⊎ ((c : ℕ) × (x : Fiber) × (v.worker.cb_fiber ≡ some c)
        × (get_elem? v.fibers c ≡ some x)
        × IsFresh x)

pub record IsFree (v : View) : Type 0 where
  pub top : v.worker.pc ≡ at_top
  pub cb : HasCbFiber v

pub HasCbFiber-same :
    (v w : View)
    → w.worker.cb_fiber ≡ v.worker.cb_fiber
    → w.fibers ≡ v.fibers
    → HasCbFiber v
    → HasCbFiber w
HasCbFiber-same v w e fs (inl h) = inl (e ∙ h)
HasCbFiber-same v w e fs (inr (c, x, h, found, fresh)) =
    inr (c, x, e ∙ h, ap (λ l. get_elem? l c) fs ∙ found, fresh)

-- A view whose fiber for callbacks is at `c`, with its stack, in state `st`, while `queue` waits and
-- `active` threads are counted.
pub record Stage (v : View) (pc : Pc) (c : ℕ) (st : Fibers.State) (queue : List FiberAndThread)
    (active : ℕ) : Type 0 where
  pub pc_is : v.worker.pc ≡ pc
  pub cb_is : v.worker.cb_fiber ≡ some c
  pub fiber : Fiber
  pub found : get_elem? v.fibers c ≡ some fiber
  pub has_stack : fiber.has_stack ≡ true
  pub state : fiber.state ≡ st
  pub queue_is : v.scheduler.queue ≡ queue
  pub active_is : v.scheduler.active_thread_count ≡ active

get_elem?_last {ℓ} :
    {A : Type ℓ} (xs : List A) (y : A) → get_elem? (xs ++ y ∷ []) (length xs) ≡ some y
get_elem?_last [] y = refl
get_elem?_last (x ∷ xs) y = get_elem?_last xs y

enter-Stage :
    (v : View) (c : ℕ) (x : Fiber)
    → v.worker.cb_fiber ≡ some c
    → get_elem? v.fibers c ≡ some x
    → IsFresh x
    → (w : View) × (enter v c (in_cb c) ≡ ok w)
      × ((s : Stage w
            (in_cb c)
            c
            Fibers.State.exec
            v.scheduler.queue
            v.scheduler.active_thread_count)
          × (s.fiber.cb ≡ x.cb))
unfolding enter swap_in
enter-Stage v c x e found fresh = (
  record v {
    fibers = set v.fibers c (record x { state = Fibers.State.exec });
    worker = record v.worker { pc = in_cb c };
  },
  simp (found, fresh.1),
  (
    record {
      pc_is = refl;
      cb_is = e;
      fiber = record x { state = Fibers.State.exec };
      found = get_elem?-set_same v.fibers c _ found;
      has_stack = fresh.0;
      state = refl;
      queue_is = refl;
      active_is = refl;
    },
    refl,
  ),
)

pub leave-Stage :
    (v : View) (c : ℕ) (q : List FiberAndThread) (n : ℕ)
    → Stage v (in_cb c) c Fibers.State.exec q n
    → (w : View) × (leave_fiber v c returns (after_cb c) ≡ ok w)
      × Stage w (after_cb c) c Fibers.State.term q n
unfolding leave_fiber leave
leave-Stage v c q n s = (
  record v {
    fibers = set v.fibers c (record s.fiber { cb = none; state = Fibers.State.term });
    worker = record v.worker { pc = after_cb c };
  },
  simp (s.found),
  record {
    pc_is = refl;
    cb_is = s.cb_is;
    fiber = record s.fiber { cb = none; state = Fibers.State.term };
    found = get_elem?-set_same v.fibers c _ s.found;
    has_stack = s.has_stack;
    state = refl;
    queue_is = s.queue_is;
    active_is = s.active_is;
  },
)

pub settle-Stage :
    (v : View) (c : ℕ) (q : List FiberAndThread) (n : ℕ)
    → Stage v (counted_cb c) c Fibers.State.term q n
    → (w : View) × (settle_cb v c ≡ ok (false, w)) × Stage w at_top c Fibers.State.init q n
unfolding settle_cb reset
settle-Stage v c q n s = (
  record v {
    fibers = set v.fibers c (record s.fiber { cb = none; state = Fibers.State.init });
    worker = record v.worker { pc = at_top };
  },
  simp (s.found, s.state, s.has_stack),
  record {
    pc_is = refl;
    cb_is = s.cb_is;
    fiber = record s.fiber { cb = none; state = Fibers.State.init };
    found = get_elem?-set_same v.fibers c _ s.found;
    has_stack = s.has_stack;
    state = refl;
    queue_is = s.queue_is;
    active_is = s.active_is;
  },
)

pub take_stage :
    (v : View) (f : ℕ) (q : List FiberAndThread)
    → v.scheduler.queue ≡ cb_task f ∷ q
    → (w : View) × (take_task v ≡ ok (false, w))
      × (w.worker.pc ≡ took (some (cb_task f)))
      × (w.worker.cb_fiber ≡ v.worker.cb_fiber)
      × (w.fibers ≡ v.fibers)
      × (w.scheduler.queue ≡ q)
      × (w.scheduler.active_thread_count ≡ v.scheduler.active_thread_count + 1)
unfolding take_task scan
take_stage v f q e = (
  record v {
    scheduler = record v.scheduler {
      queue = q;
      active_thread_count = v.scheduler.active_thread_count + 1;
    };
    worker = record v.worker { pc = took (some (cb_task f)) };
  },
  rw e refl,
  refl,
  refl,
  refl,
  refl,
  refl,
)

create-Stage :
    (last_id default_size : ℕ) (v : View) (f : ℕ)
    → (w : View) × (c : ℕ) × (enter_created last_id default_size v f ≡ ok w)
      × ((s : Stage w
            (in_cb c)
            c
            Fibers.State.exec
            v.scheduler.queue
            v.scheduler.active_thread_count)
          × (s.fiber.cb ≡ some f))
unfolding enter_created new_fiber
create-Stage last_id default_size v f =
    let c = length v.fibers in
    let x : Fiber = new_fiber last_id default_size (some f) 0 in
    let grown : View = record v {
      fibers = v.fibers ++ x ∷ [];
      worker = record v.worker { cb_fiber = some c };
    } in
    let (w, run, called) = enter-Stage grown c x refl (get_elem?_last v.fibers x) (refl, refl) in
    (w, c, run, called)

reset_fresh :
    (x : Fiber) (cb : Option ℕ)
    → IsFresh x
    → reset x cb ≡ ok (record x { cb = cb; state = Fibers.State.init })
unfolding reset
reset_fresh x cb fresh = rw (fresh.0, fresh.1) refl

reuse_enters :
    (v : View) (f c : ℕ) (x : Fiber)
    → get_elem? v.fibers c ≡ some x
    → IsFresh x
    → enter_reused v c f
      ≡ enter
          (record v {
            fibers = set v.fibers c (record x { cb = some f; state = Fibers.State.init });
          })
          c
          (in_cb c)
unfolding enter_reused
reuse_enters v f c x found fresh = rw (found, reset_fresh x (some f) fresh) refl

reuse-Stage :
    (v : View) (f c : ℕ) (x : Fiber)
    → v.worker.cb_fiber ≡ some c
    → get_elem? v.fibers c ≡ some x
    → IsFresh x
    → (w : View) × (enter_reused v c f ≡ ok w)
      × ((s : Stage w
            (in_cb c)
            c
            Fibers.State.exec
            v.scheduler.queue
            v.scheduler.active_thread_count)
          × (s.fiber.cb ≡ some f))
reuse-Stage v f c x e found fresh =
    let y : Fiber = record x { cb = some f; state = Fibers.State.init } in
    let (w, run, stage) =
      enter-Stage (record v { fibers = set v.fibers c y }) c y e
        (get_elem?-set_same v.fibers c y found) (fresh.0, refl) in
    (w, reuse_enters v f c x found fresh ∙ run, stage)

enter_cb-none :
    (last_id default_size : ℕ) (v : View) (f : ℕ)
    → v.worker.cb_fiber ≡ none
    → enter_cb last_id default_size v f ≡ enter_created last_id default_size v f
unfolding enter_cb
enter_cb-none last_id default_size v f e =
    ap
      (λ (o : Option ℕ). elim o as (λ o. Outcome View) [
        | none ↦ enter_created last_id default_size v f
        | some c ↦ enter_reused v c f
      ])
      e

enter_cb-some :
    (last_id default_size : ℕ) (v : View) (f c : ℕ)
    → v.worker.cb_fiber ≡ some c
    → enter_cb last_id default_size v f ≡ enter_reused v c f
unfolding enter_cb
enter_cb-some last_id default_size v f c e =
    ap
      (λ (o : Option ℕ). elim o as (λ o. Outcome View) [
        | none ↦ enter_created last_id default_size v f
        | some c ↦ enter_reused v c f
      ])
      e

-- The task in the hand of the thread goes into its fiber for callbacks.
pub dispatch-Stage :
    (last_id default_size : ℕ) (v : View) (f : ℕ)
    → HasCbFiber v
    → (w : View) × (c : ℕ) × (dispatch_task last_id default_size v (cb_task f) ≡ ok w)
      × ((s : Stage w
            (in_cb c)
            c
            Fibers.State.exec
            v.scheduler.queue
            v.scheduler.active_thread_count)
          × (s.fiber.cb ≡ some f))
unfolding dispatch_task dispatch_cb
dispatch-Stage last_id default_size v f (inl e) =
    let (w, c, run, stage) = create-Stage last_id default_size v f in
    (w, c, enter_cb-none last_id default_size v f e ∙ run, stage)
dispatch-Stage last_id default_size v f (inr (c, x, e, found, fresh)) =
    let (w, run, stage) = reuse-Stage v f c x e found fresh in
    (w, c, enter_cb-some last_id default_size v f c e ∙ run, stage)

pub count-Stage :
    (v : View) (c : ℕ) (q : List FiberAndThread) (n : ℕ)
    → Stage v (after_cb c) c Fibers.State.term q (n + 1)
    → Stage (at_pc (count_off v) (counted_cb c)) (counted_cb c) c Fibers.State.term q n
count-Stage v c q n s = record {
  pc_is = refl;
  cb_is = s.cb_is;
  fiber = s.fiber;
  found = s.found;
  has_stack = s.has_stack;
  state = s.state;
  queue_is = s.queue_is;
  active_is = rw s.active_is (ground arith);
}
