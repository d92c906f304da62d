-- ===== src/IoManager.antt =====
-- captain/iomanager.cpp, captain/include/iomanager.h: the table of registered events.
-- An event is its bit, a set of events the sum of theirs. A scheduler, a fiber and a callback are
-- numbers, a null pointer and an empty callback are `none`. A file descriptor is not negative.
-- `epoll_ctl` of the system is a parameter: is the call with this operation, descriptor and set of
-- events a success? A method that triggers events returns the tasks that it gives to the schedulers.
mod Invariant
mod Trigger
mod Registry
mod Growth
mod Adding
mod Drain
mod Ready
mod Idle
mod Pass
mod Together
mod Examples
use server_framework.Base.{
  ℕ, zero, suc, ◌+◌, ◌-◌, ◌*◌, ◌/◌, ◌^◌, bit_and, bit_or, Bool, true, false, not, leb, ◌==◌, ◌&&◌,
  if◌then◌else◌, Option, none, some, List, [], ◌∷◌, ◌++◌, length, get_elem?, set, take, Outcome, ok,
  fail, null_pointer, bad_access, assertion_failed, ◌>>=◌, ◌>>◌, guard, or_fail, size_sub,
}

abbrev pub event_read : ℕ
event_read = 1

abbrev pub event_write : ℕ
event_write = 4

pub data Op : Type 0 where
  epoll_ctl_add epoll_ctl_mod epoll_ctl_del : Op

pub record EventContext : Type 0 where
  pub scheduler : Option ℕ
  pub fiber : Option ℕ
  pub cb : Option ℕ

pub record FdContext : Type 0 where
  pub read : EventContext
  pub write : EventContext
  pub fd : ℕ
  pub events : ℕ

pub record IoManager : Type 0 where
  pub fd_contexts : List FdContext
  pub pending_event_count : ℕ

-- What a scheduler is given to run.
pub data Work : Type 0 where
  callback fiber_of : ℕ → Work

pub record Task : Type 0 where
  pub given_to : ℕ
  pub work : Work

abbrev pub no_context : EventContext
no_context = record { scheduler = none; fiber = none; cb = none }

-- `events & event`, as a condition.
abbrev pub registered : ℕ → ℕ → Bool
registered events event = not (bit_and events event == 0)

-- `events & ~event`
abbrev pub without_event : ℕ → ℕ → ℕ
without_event events event = bit_and events (2 ^ 32 - 1 - event)

-- `EPOLLET | events`
abbrev pub edge_triggered : ℕ → ℕ
edge_triggered events = bit_or (2 ^ 31) events

abbrev pub get_context : FdContext → ℕ → Outcome EventContext
get_context c event =
    if event == event_read
    then ok c.read
    else if event == event_write
    then ok c.write
    else fail assertion_failed

-- A write through the reference that `getContext` returned.
abbrev pub put_context : FdContext → ℕ → EventContext → FdContext
put_context c event ctx =
    if event == event_read then record c { read = ctx } else record c { write = ctx }

-- `schedule(&ctx.cb)` and `schedule(&ctx.fiber)`: the scheduler takes what the context holds, and no
-- task comes of an empty one.
abbrev pub take_work : ℕ → Option ℕ → Option ℕ → List Task
take_work s (some f) fiber = record { given_to = s; work = callback f } ∷ []
take_work s none (some f) = record { given_to = s; work = fiber_of f } ∷ []
take_work s none none = []

-- `ctx.scheduler` is null behind the call; the one of `cb` and `fiber` that was taken is empty.
abbrev pub left_after : EventContext → EventContext
left_after ctx = elim ctx.cb [
  | none ↦ record ctx { scheduler = none; fiber = none }
  | some f ↦ record ctx { scheduler = none; cb = none }
]

pub trigger_event : FdContext → ℕ → Outcome (List Task × FdContext)
trigger_event c event = do
  guard (registered c.events event) assertion_failed
  ctx ← get_context c event
  s ← or_fail ctx.scheduler null_pointer
  ok (
    take_work s ctx.cb ctx.fiber,
    put_context (record c { events = without_event c.events event }) event (left_after ctx),
  )

-- New contexts from the index `i` on.
pub new_contexts : ℕ → ℕ → List FdContext
new_contexts i zero = []
new_contexts i (suc n) =
    record { read = no_context; write = no_context; fd = i; events = 0 } ∷ new_contexts (i + 1) n

pub context_resize : List FdContext → ℕ → List FdContext
unfolding new_contexts
context_resize contexts size =
    take size contexts ++ new_contexts (length contexts) (size - length contexts)

-- The operation that leaves `events` registered.
abbrev pub op_leaving : ℕ → Op
op_leaving events = if events == 0 then epoll_ctl_del else epoll_ctl_mod

abbrev pub put_fd : IoManager → ℕ → FdContext → ℕ → IoManager
put_fd m fd c count = record m { fd_contexts = set m.fd_contexts fd c; pending_event_count = count }

module _ (epoll_ctl : Op → ℕ → ℕ → Bool) where
  -- `addEvent` on the context of `fd`. `here` is the scheduler and `current` the fiber of the
  -- thread, which is executing.
  pub add_in : Option ℕ → ℕ → IoManager → ℕ → FdContext → ℕ → Option ℕ → Outcome (Bool × IoManager)
  add_in here current m fd c event cb =
      let op = if c.events == 0 then epoll_ctl_add else epoll_ctl_mod in
      let events = bit_or c.events event in
      let added = do
        ctx ← get_context c event
        guard
            (elim ctx.scheduler [ none ↦ true | some s ↦ false ]
              && elim ctx.fiber [ none ↦ true | some f ↦ false ]
              && elim ctx.cb [ none ↦ true | some f ↦ false ])
            assertion_failed
        let ctx' : EventContext = record {
          scheduler = here;
          fiber = elim cb [ none ↦ some current | some f ↦ none ];
          cb = cb;
        }
        ok (
          true,
          put_fd m fd (put_context (record c { events = events }) event ctx')
              (m.pending_event_count + 1),
        )
      in do
        guard (not (registered c.events event)) assertion_failed
        if epoll_ctl op fd (edge_triggered events) then added else ok (false, m)

  -- `addEvent`: 0 is `true`, -1 is `false`. `fd * 1.5` is cut to a whole number.
  pub add_event : Option ℕ → ℕ → IoManager → ℕ → ℕ → Option ℕ → Outcome (Bool × IoManager)
  unfolding add_in context_resize
  add_event here current m fd event cb =
      let grown =
        if leb (length m.fd_contexts) fd
        then record m { fd_contexts = context_resize m.fd_contexts (fd * 3 / 2) }
        else m in
      do
        c ← or_fail (get_elem? grown.fd_contexts fd) bad_access
        add_in here current grown fd c event cb

  pub del_in : IoManager → ℕ → FdContext → ℕ → Outcome (Bool × IoManager)
  del_in m fd c event =
      let events = without_event c.events event in
      let deleted = do
        ctx ← get_context c event
        ok (
          true,
          put_fd m fd (put_context (record c { events = events }) event no_context)
              (size_sub m.pending_event_count 1),
        )
      in if not (registered c.events event)
        then ok (false, m)
        else if epoll_ctl (op_leaving events) fd (edge_triggered events)
        then deleted
        else ok (false, m)

  pub del_event : IoManager → ℕ → ℕ → Outcome (Bool × IoManager)
  unfolding del_in
  del_event m fd event =
      let found = do c ← or_fail (get_elem? m.fd_contexts fd) bad_access; del_in m fd c event
      in if leb (length m.fd_contexts) fd then ok (false, m) else found

  pub cancel_in : IoManager → ℕ → FdContext → ℕ → Outcome (Bool × List Task × IoManager)
  cancel_in m fd c event =
      let events = without_event c.events event in
      let cancelled = do
        (tasks, c') ← trigger_event c event
        ok (true, tasks, put_fd m fd c' (size_sub m.pending_event_count 1))
      in if not (registered c.events event)
        then ok (false, [], m)
        else if epoll_ctl (op_leaving events) fd (edge_triggered events)
        then cancelled
        else ok (false, [], m)

  pub cancel_event : IoManager → ℕ → ℕ → Outcome (Bool × List Task × IoManager)
  unfolding cancel_in
  cancel_event m fd event =
      let found = do c ← or_fail (get_elem? m.fd_contexts fd) bad_access; cancel_in m fd c event
      in if leb (length m.fd_contexts) fd then ok (false, [], m) else found

-- The events that `idle` takes from what `epoll_wait` reports: bit 1 is `EPOLLIN`, bit 4
-- `EPOLLOUT`, and 24 are `EPOLLERR` and `EPOLLHUP`.
abbrev pub real_events : ℕ → ℕ
real_events ready =
    let events = if registered ready 24 then bit_or ready 5 else ready in
    bit_or (if registered events 1 then event_read else 0)
      (if registered events 4 then event_write else 0)

-- `if(which & event) { triggerEvent(event); --m_pendingEventCount; }`, with the count beside it.
pub trigger_if : Bool → ℕ → FdContext → ℕ → Outcome (List Task × FdContext × ℕ)
trigger_if wanted event c count =
    let triggered = do (tasks, c') ← trigger_event c event; ok (tasks, c', size_sub count 1)
    in if wanted then triggered else ok ([], c, count)

module _ (epoll_ctl : Op → ℕ → ℕ → Bool) where
  pub cancel_all_in : IoManager → ℕ → FdContext → Outcome (Bool × List Task × IoManager)
  cancel_all_in m fd c =
      let cancelled = do
        (reads, c1, n1) ←
            trigger_if (registered c.events event_read) event_read c m.pending_event_count
        (writes, c2, n2) ← trigger_if (registered c1.events event_write) event_write c1 n1
        guard (c2.events == 0) assertion_failed
        ok (true, reads ++ writes, put_fd m fd c2 n2)
      in if c.events == 0
        then ok (false, [], m)
        else if epoll_ctl epoll_ctl_del fd 0
        then cancelled
        else ok (false, [], m)

  pub cancel_all : IoManager → ℕ → Outcome (Bool × List Task × IoManager)
  unfolding cancel_all_in
  cancel_all m fd =
      let found = do c ← or_fail (get_elem? m.fd_contexts fd) bad_access; cancel_all_in m fd c
      in if leb (length m.fd_contexts) fd then ok (false, [], m) else found

  -- One round of the loop of `idle` over the ready descriptors, but for the pipe's.
  pub ready_in : IoManager → ℕ → FdContext → ℕ → Outcome (List Task × IoManager)
  ready_in m fd c ready =
      let real = real_events ready in
      let left = without_event c.events real in
      let triggered = do
        (reads, c1, n1) ← trigger_if (registered real event_read) event_read c m.pending_event_count
        (writes, c2, n2) ← trigger_if (registered real event_write) event_write c1 n1
        ok (reads ++ writes, put_fd m fd c2 n2)
      in if bit_and c.events real == 0
        then ok ([], m)
        else if epoll_ctl (op_leaving left) c.fd (edge_triggered left)
        then triggered
        else ok ([], m)
