-- ===== src/IoManager/Pass.antt =====
-- captain/iomanager.cpp: a pass of the loop of `idle` as a whole: the timers that are due, and the
-- reports of `epoll_wait`.
use server_framework.Base.{
  ℕ, ◌+◌, ◌≡◌, ◌≢◌, refl, ap, ◌∙◌, Bool, true, false, Option, none, some, List, [], ◌∷◌, ◌++◌,
  length, length-append, get_elem?, get_elem?-set_other, set, Outcome, ok, ◌>>=◌, or_fail,
  null_pointer, ◌==◌, ◌&&◌, ◌||◌, if◌then◌else◌, bit_and, arith,
}
use server_framework.Scheduler.{FiberAndThread, schedule_all}
use server_framework.IoManager.{
  Op, FdContext, IoManager, Task, Work, callback, fiber_of, registered, without_event,
  edge_triggered, op_leaving, event_read, event_write, real_events, ready_in,
}
use server_framework.IoManager.Invariant.{IsValid, one_if}
use server_framework.IoManager.Ready.{ready_in-Drained}
use server_framework.IoManager.Idle.{Loop, io_stopping, io_tickle, run_due}

-- An `epoll_event`: of the pipe, or of the context of a descriptor, with what is ready.
pub data Report : Type 0 where
  from_pipe : Report
  from_context : ℕ → ℕ → Report

-- `triggerEvent`: what is handed to `schedule`.
abbrev pub handed : Work → FiberAndThread
handed (callback c) = record { fiber = none; cb = some c; thread = none }
handed (fiber_of f) = record { fiber = some f; cb = none; thread = none }

-- The tasks that are given to the scheduler `self`, in order, and those given to others.
abbrev pub queued : ℕ → List Task → List FiberAndThread
queued self [] = []
queued self (t ∷ ts) =
    let rest = queued self ts in if t.given_to == self then handed t.work ∷ rest else rest

abbrev pub given_away : ℕ → List Task → List Task
given_away self [] = []
given_away self (t ∷ ts) =
    let rest = given_away self ts in if t.given_to == self then rest else t ∷ rest

module _ (epoll_ctl : Op → ℕ → ℕ → Bool) where
  -- The loop over the reports; what the pipe holds is read and dropped.
  pub ready_all : IoManager → List Report → Outcome (List Task × IoManager)
  ready_all m [] = ok ([], m)
  ready_all m (from_pipe ∷ reports) = ready_all m reports
  ready_all m (from_context fd ready ∷ reports) = do
    c ← or_fail (get_elem? m.fd_contexts fd) null_pointer
    (tasks, m1) ← ready_in epoll_ctl m fd c ready
    (more, m2) ← ready_all m1 reports
    ok (tasks ++ more, m2)

  -- A pass of the IOManager that is the scheduler `self`; it starts at `now`, and the `reports` come at
  -- `later`. The tasks are those for other schedulers; where there is no list, `idle` ends. The flag
  -- says whether the pipe is written to.
  unfoldable pub idle_pass :
      ℕ → ℕ → ℕ → ℕ → List Report → Loop → Outcome (Option (List Task) × Bool × Loop)
  idle_pass self now later probe reports l =
      let s = io_stopping now l in
      elim s.1.0 [
        | true ↦ ok (none, false, s.1.1)
        | false ↦ do
          (wanted, l1) ← run_due later probe s.1.1
          (tasks, io) ← ready_all l1.io reports
          let given = schedule_all l1.scheduler (queued self tasks)
          ok (
            some (given_away self tasks),
            (wanted || given.0) && io_tickle given.1,
            record l1 { io = io; scheduler = given.1 },
          )
      ]

  -- The table holds the descriptor, each event taken from the report is registered, one at least,
  -- and the system accepts what stays.
  pub record Fit (m : IoManager) (fd ready : ℕ) : Type 0 where
    pub context : FdContext
    pub here : get_elem? m.fd_contexts fd ≡ some context
    pub some_event : (bit_and context.events (real_events ready) == 0) ≡ false
    pub reads :
        registered (real_events ready) event_read ≡ true
        → registered context.events event_read ≡ true
    pub writes :
        registered (real_events ready) event_write ≡ true
        → registered context.events event_write ≡ true
    pub system :
        epoll_ctl
          (op_leaving (without_event context.events (real_events ready)))
          context.fd
          (edge_triggered (without_event context.events (real_events ready)))
        ≡ true

  abbrev pub Apart : ℕ → List Report → Type 0
  Apart fd [] = Unit {0}
  Apart fd (from_pipe ∷ reports) = Apart fd reports
  Apart fd (from_context g ready ∷ reports) = (fd ≢ g) × Apart fd reports

  -- Every report fits, and no two are of the same descriptor.
  abbrev pub AllFit : IoManager → List Report → Type 0
  AllFit m [] = Unit {0}
  AllFit m (from_pipe ∷ reports) = AllFit m reports
  AllFit m (from_context fd ready ∷ reports) =
      Fit m fd ready × (Apart fd reports × AllFit m reports)

  -- How many events the reports are of.
  abbrev pub asked : List Report → ℕ
  asked [] = 0
  asked (from_pipe ∷ reports) = asked reports
  asked (from_context fd ready ∷ reports) =
      one_if (registered (real_events ready) event_read)
      + one_if (registered (real_events ready) event_write)
      + asked reports

  AllFit-other :
      (m m' : IoManager) (fd : ℕ) (c : FdContext) (reports : List Report)
      → m'.fd_contexts ≡ set m.fd_contexts fd c
      → Apart fd reports
      → AllFit m reports
      → AllFit m' reports
  AllFit-other m m' fd c [] placed apart fits = tt
  AllFit-other m m' fd c (from_pipe ∷ reports) placed apart fits =
      AllFit-other m m' fd c reports placed apart fits
  AllFit-other m m' fd c (from_context g ready ∷ reports) placed apart fits =
      let f = fits.0 in
      (
        record {
          context = f.context;
          here =
              ap (λ cs. get_elem? cs g) placed
              ∙ get_elem?-set_other m.fd_contexts fd g c apart.0
              ∙ f.here;
          some_event = f.some_event;
          reads = f.reads;
          writes = f.writes;
          system = f.system;
        },
        (fits.1.0, AllFit-other m m' fd c reports placed apart.1 fits.1.1),
      )

  pub record Served (m : IoManager) (reports : List Report) : Type 0 where
    pub tasks : List Task
    pub after : IoManager
    pub run : ready_all m reports ≡ ok (tasks, after)
    pub as_many : length tasks ≡ asked reports
    pub counted : after.pending_event_count + length tasks ≡ m.pending_event_count
    pub valid : IsValid after

  one_more :
      (m m1 m2 : IoManager) (fd ready : ℕ) (reports : List Report) (c : FdContext)
      (tasks more : List Task)
      → get_elem? m.fd_contexts fd ≡ some c
      → ready_in epoll_ctl m fd c ready ≡ ok (tasks, m1)
      → ready_all m1 reports ≡ ok (more, m2)
      → ready_all m (from_context fd ready ∷ reports) ≡ ok (tasks ++ more, m2)
  unfolding ready_all
  one_more m m1 m2 fd ready reports c tasks more here first rest = simp (here, first, rest)

  pub ready_all-Served :
      (m : IoManager) (reports : List Report) → IsValid m → AllFit m reports → Served m reports
  unfolding ready_all
  ready_all-Served m [] v fits = record {
    tasks = [];
    after = m;
    run = refl;
    as_many = refl;
    counted = omega arith;
    valid = v;
  }
  ready_all-Served m (from_pipe ∷ reports) v fits =
      let s = ready_all-Served m reports v fits in
      record {
        tasks = s.tasks;
        after = s.after;
        run = s.run;
        as_many = s.as_many;
        counted = s.counted;
        valid = s.valid;
      }
  ready_all-Served m (from_context fd ready ∷ reports) v fits =
      let f = fits.0 in
      let (tasks, m1, first, many, drained) =
        ready_in-Drained epoll_ctl m fd ready f.context v f.here f.some_event f.reads f.writes
          f.system in
      let s =
        ready_all-Served m1 reports drained.valid
          (AllFit-other m m1 fd drained.context reports drained.placed fits.1.0 fits.1.1) in
      record {
        tasks = tasks ++ s.tasks;
        after = s.after;
        run = one_more m m1 s.after fd ready reports f.context tasks s.tasks f.here first s.run;
        as_many = omega (arith, length-append tasks s.tasks, many, s.as_many);
        counted = omega (arith, length-append tasks s.tasks, drained.counted, s.counted);
        valid = s.valid;
      }
