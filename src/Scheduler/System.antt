-- ===== src/Scheduler/System.antt =====
-- All the threads of a scheduler, their fibers and the queue, and the steps they take: a thread runs
-- on, somebody puts a task into the queue, `start` and `stop` set the flags.
use server_framework.Base.{
  ℕ, ◌+◌, ◌≡◌, sym, ap, ◌∙◌, subst, Bool, true, Bool-cases, Option, none, some, List, [], ◌∷◌, ◌++◌,
  All, All-append, get_elem?, set, Outcome, ok, inl, inr, arith, or_fail, null_pointer, ◌>>=◌,
  >>=-eq-ok, ok-injective, Failure,
}
use server_framework.Base.Sums.{sum_of, sum_of-set, le-sum_of, sum_of-zero}
use server_framework.Fibers.{Fiber, Slice}
use server_framework.Scheduler.{
  FiberAndThread, Scheduler, Worker, View, has_work, schedule, work, stopping,
}
use server_framework.Scheduler.Dispatch.{on_count, idling}
use server_framework.Scheduler.Counts.{work-InLine}
use server_framework.Scheduler.Changes.{Changed, kept, added, removed, work-Changed}

pub record System : Type 0 where
  pub scheduler : Scheduler
  pub fibers : List Fiber
  pub workers : List Worker

abbrev pub view_of : System → Worker → View
view_of s w = record { scheduler = s.scheduler; fibers = s.fibers; worker = w }

abbrev pub put_back : System → ℕ → View → System
put_back s i v = record {
  scheduler = v.scheduler;
  fibers = v.fibers;
  workers = set s.workers i v.worker;
}

-- `start` and `stop` set the flags.
abbrev pub set_stopping : Bool → Scheduler → Scheduler
set_stopping b s = record s { is_stopping = b }

abbrev pub set_auto_stop : Scheduler → Scheduler
set_auto_stop s = record s { auto_stop = true }

-- The ids and the default size of a stack, and how the running fiber leaves, are the environment's.
pub data Step (s t : System) : Type 0 where
  runs :
      (last_id default_size i : ℕ) (slice : Slice) (tickled : Bool) (w : Worker) (v : View)
      → get_elem? s.workers i ≡ some w
      → work last_id default_size slice (view_of s w) ≡ ok (tickled, v)
      → t ≡ put_back s i v
      → Step s t
  submits :
      (ft : FiberAndThread) → t ≡ record s { scheduler = (schedule s.scheduler ft).1 } → Step s t
  flags : (b : Bool) → t ≡ record s { scheduler = set_stopping b s.scheduler } → Step s t
  auto_stops : t ≡ record s { scheduler = set_auto_stop s.scheduler } → Step s t

pub data Reach (s : System) : System → Type 0 where
  here : Reach s s
  next : {t u : System} → Reach s t → Step t u → Reach s u

-- One step of the thread at `i`, run.
abbrev pub run_on : System → ℕ → Slice → Outcome System
run_on s i slice = do
  w ← or_fail (get_elem? s.workers i) null_pointer
  r ← work 0 0 slice (view_of s w)
  ok (put_back s i r.1)

abbrev pub run_all : System → List (ℕ × Slice) → Outcome System
run_all s [] = ok s
run_all s (x ∷ xs) = run_on s x.0 x.1 >>= λ t. run_all t xs

or_fail-ok {ℓ} : {A : Type ℓ} (o : Option A) (e : Failure) (a : A) → or_fail o e ≡ ok a → o ≡ some a
or_fail-ok none e a h = cc
or_fail-ok (some b) e a h = ap some (ok-injective h)

pub run_on-Step : (s t : System) (i : ℕ) (slice : Slice) → run_on s i slice ≡ ok t → Step s t
run_on-Step s t i slice h =
    let (w, rest, found) =
      >>=-eq-ok (or_fail (get_elem? s.workers i) null_pointer)
        (λ w. work 0 0 slice (view_of s w) >>= λ r. ok (put_back s i r.1)) h in
    let (r, same, run) =
      >>=-eq-ok (work 0 0 slice (view_of s w)) (λ r. ok (put_back s i r.1)) rest in
    runs 0 0 i slice r.0 w r.1 (or_fail-ok _ null_pointer w found) run (sym (ok-injective same))

Reach-from : {s t u : System} → Step s t → Reach t u → Reach s u
Reach-from step here = next here step
Reach-from step (next r last) = next (Reach-from step r) last

pub run_all-Reach : (s t : System) (xs : List (ℕ × Slice)) → run_all s xs ≡ ok t → Reach s t
run_all-Reach s t [] h = subst (Reach s) (ok-injective h) here
run_all-Reach s t (x ∷ xs) h =
    let (u, rest, first) = >>=-eq-ok (run_on s x.0 x.1) (λ t. run_all t xs) h in
    Reach-from (run_on-Step s u x.0 x.1 first) (run_all-Reach u t xs rest)

-- The counters count the threads that have taken a task and not yet counted it off, and those whose
-- idle fiber runs. What is queued can be run.
pub record IsValid (s : System) : Type 0 where
  pub active : s.scheduler.active_thread_count ≡ sum_of (λ (w : Worker). on_count w.pc) s.workers
  pub idle : s.scheduler.idle_thread_count ≡ sum_of (λ (w : Worker). idling w.pc) s.workers
  pub queued : All (λ ft. has_work ft ≡ true) s.scheduler.queue

All-without :
    (before after : List FiberAndThread) (ft : FiberAndThread)
    → All (λ ft. has_work ft ≡ true) (before ++ ft ∷ after)
    → All (λ ft. has_work ft ≡ true) (before ++ after)
All-without [] after ft h = h.1
All-without (x ∷ xs) after ft h = (h.0, All-without xs after ft h.1)

Changed-HasWork :
    (v w : View)
    → Changed v w
    → All (λ ft. has_work ft ≡ true) v.scheduler.queue
    → All (λ ft. has_work ft ≡ true) w.scheduler.queue
Changed-HasWork v w (kept due rests e) h = subst (All (λ ft. has_work ft ≡ true)) (sym e) h
Changed-HasWork v w (added ft due x e) h =
    subst (All (λ ft. has_work ft ≡ true)) (sym e)
      (All-append (λ ft. has_work ft ≡ true) v.scheduler.queue (ft ∷ []) h (x, tt))
Changed-HasWork v w (removed ft before after due q q' pc) h =
    subst (All (λ ft. has_work ft ≡ true)) (sym q')
      (All-without before after ft (subst (All (λ ft. has_work ft ≡ true)) q h))

-- Where a thread moves, a sum over the threads moves with its summand.
sum_of_moved :
    (f : Worker → ℕ) (ws : List Worker) (i n n' : ℕ) (w w' : Worker)
    → get_elem? ws i ≡ some w
    → n ≡ sum_of f ws
    → n' + f w ≡ n + f w'
    → n' ≡ sum_of f (set ws i w')
sum_of_moved f ws i n n' w w' e h k = omega (arith, sum_of-set f ws i w w' e)

runs-IsValid :
    (s : System) (last_id default_size i : ℕ) (slice : Slice) (tickled : Bool) (w : Worker)
    (v : View)
    → get_elem? s.workers i ≡ some w
    → work last_id default_size slice (view_of s w) ≡ ok (tickled, v)
    → IsValid s
    → IsValid (put_back s i v)
runs-IsValid s last_id default_size i slice tickled w v e run h =
    let held = le-sum_of (λ (w : Worker). on_count w.pc) s.workers i w e in
    let idles = le-sum_of (λ (w : Worker). idling w.pc) s.workers i w e in
    let line =
      work-InLine last_id default_size slice (view_of s w) v tickled (omega (arith, h.active))
        (omega (arith, h.idle)) run in
    record {
      active =
          sum_of_moved (λ (w : Worker). on_count w.pc) s.workers i _ _ w v.worker e h.active
            line.active;
      idle =
          sum_of_moved (λ (w : Worker). idling w.pc) s.workers i _ _ w v.worker e h.idle line.idle;
      queued =
          Changed-HasWork (view_of s w) v
            (work-Changed last_id default_size slice (view_of s w) v tickled h.queued run) h.queued;
    }

submits-HasWork :
    (s : Scheduler) (ft : FiberAndThread)
    → All (λ ft. has_work ft ≡ true) s.queue
    → All (λ ft. has_work ft ≡ true) (schedule s ft).1.queue
unfolding schedule
submits-HasWork s ft h = elim (Bool-cases (has_work ft)) [
  | inl e ↦ rw e (All-append (λ ft. has_work ft ≡ true) s.queue (ft ∷ []) h (e, tt))
  | inr e ↦ rw e h
]

submits-IsValid :
    (s : System) (ft : FiberAndThread)
    → IsValid s
    → IsValid (record s { scheduler = (schedule s.scheduler ft).1 })
unfolding schedule
submits-IsValid s ft h = record {
  active = h.active;
  idle = h.idle;
  queued = submits-HasWork s.scheduler ft h.queued;
}

Step-IsValid : (s t : System) → Step s t → IsValid s → IsValid t
Step-IsValid s t (runs last_id default_size i slice tickled w v e run same) h =
    subst IsValid (sym same) (runs-IsValid s last_id default_size i slice tickled w v e run h)
Step-IsValid s t (submits ft same) h = subst IsValid (sym same) (submits-IsValid s ft h)
Step-IsValid s t (flags b same) h =
    subst IsValid (sym same) (record { active = h.active; idle = h.idle; queued = h.queued })
Step-IsValid s t (auto_stops same) h =
    subst IsValid (sym same) (record { active = h.active; idle = h.idle; queued = h.queued })

-- By any steps of any threads, with tasks submitted and flags set at any time, a well-formed
-- system stays well formed: the counter of active threads is the number of threads with a task
-- that they have taken and not yet counted off, the counter of idle threads the number of those
-- whose idle fiber runs, and every queued task can be run.
pub Reach-IsValid : {s t : System} → IsValid s → Reach s t → IsValid t
Reach-IsValid h here = h
Reach-IsValid h (next r step) = Step-IsValid _ _ step (Reach-IsValid h r)

stopping-cases :
    (s : Scheduler)
    → stopping s ≡ true
    → (s.auto_stop ≡ true) × (s.is_stopping ≡ true) × (s.queue ≡ []) × (s.active_thread_count ≡ 0)
unfolding stopping
stopping-cases s h = ground arith

-- From a well-formed system of threads, by any steps of any threads, with tasks submitted at
-- any time and the flags set at any time: wherever `stopping` says true the queue is empty and
-- no thread has a task that it has taken and not yet counted off. A thread that has counted its
-- fiber off may still be about to put it back.
pub Reach-stopping :
    {s t : System}
    → IsValid s
    → Reach s t
    → stopping t.scheduler ≡ true
    → (t.scheduler.queue ≡ []) × All (λ (w : Worker). on_count w.pc ≡ 0) t.workers
Reach-stopping {s} {t} h r stops =
    let (asked, asked', queue, active) = stopping-cases t.scheduler stops in
    (
      queue,
      sum_of-zero (λ (w : Worker). on_count w.pc) t.workers
          (sym (Reach-IsValid h r).active ∙ active),
    )
