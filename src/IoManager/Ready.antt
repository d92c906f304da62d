-- ===== src/IoManager/Ready.antt =====
-- `cancelAll`, and the round of `idle` for a ready descriptor.
use server_framework.Base.{
  ℕ, ◌+◌, ◌-◌, ◌≤◌, ◌≡◌, refl, ap, ◌∙◌, Bool, true, false, some, List, ◌++◌, inl, inr, length,
  length-append, get_elem?, leb, ok, fail, assertion_failed, ◌==◌, ne→==, ◌≢◌, bit_and, arith,
  All-get_elem?,
}
use server_framework.IoManager.{
  Op, FdContext, IoManager, Task, registered, without_event, edge_triggered, op_leaving, event_read,
  event_write, put_fd, trigger_event, trigger_if, cancel_all, cancel_all_in, real_events, ready_in,
  epoll_ctl_del,
}
use server_framework.IoManager.Invariant.{IsContext, IsValid, count_of, one_if, count-le-total}
use server_framework.IoManager.Registry.{in_table}
use server_framework.IoManager.Drain.{trigger_if-RanIf, write_kept, Drained, both}

module _ (epoll_ctl : Op → ℕ → ℕ → Bool) where
  ready_steps :
      (m : IoManager) (fd ready : ℕ) (c c1 c2 : FdContext) (reads writes : List Task) (n1 n2 : ℕ)
      → (bit_and c.events (real_events ready) == 0) ≡ false
      → epoll_ctl
          (op_leaving (without_event c.events (real_events ready)))
          c.fd
          (edge_triggered (without_event c.events (real_events ready)))
        ≡ true
      → trigger_if (registered (real_events ready) event_read) event_read c m.pending_event_count
        ≡ ok (reads, c1, n1)
      → trigger_if (registered (real_events ready) event_write) event_write c1 n1
        ≡ ok (writes, c2, n2)
      → ready_in epoll_ctl m fd c ready ≡ ok (reads ++ writes, put_fd m fd c2 n2)
  unfolding ready_in
  ready_steps m fd ready c c1 c2 reads writes n1 n2 some_event system first second =
      simp (some_event, system, first, second)

  -- On a well-formed table, where the system accepts the new registration and every event that
  -- `idle` takes from the report on a descriptor is registered, one of them at least: the round
  -- of `idle` gives one task to a scheduler for each of these events, and as many events fewer
  -- are registered and pending; no other context changes, and the table is well formed again.
  pub ready_in-Drained :
      (m : IoManager) (fd ready : ℕ) (c : FdContext)
      → IsValid m
      → get_elem? m.fd_contexts fd ≡ some c
      → (bit_and c.events (real_events ready) == 0) ≡ false
      → (registered (real_events ready) event_read ≡ true → registered c.events event_read ≡ true)
      → (registered (real_events ready) event_write ≡ true → registered c.events event_write ≡ true)
      → epoll_ctl
          (op_leaving (without_event c.events (real_events ready)))
          c.fd
          (edge_triggered (without_event c.events (real_events ready)))
        ≡ true
      → (tasks : List Task) × (m' : IoManager) × (ready_in epoll_ctl m fd c ready ≡ ok (tasks, m'))
        × (length tasks
            ≡ one_if (registered (real_events ready) event_read)
              + one_if (registered (real_events ready) event_write))
        × Drained m fd c tasks m'
  ready_in-Drained m fd ready c v here some_event on1 on2 system =
      let b1 = registered (real_events ready) event_read in
      let b2 = registered (real_events ready) event_write in
      let (first, second, drained) = both b1 b2 m fd c v here on1 on2 in
      (
        first.tasks ++ second.tasks,
        put_fd m fd second.after (m.pending_event_count - one_if b1 - one_if b2),
        ready_steps m fd ready c first.after second.after first.tasks second.tasks
            (m.pending_event_count - one_if b1) (m.pending_event_count - one_if b1 - one_if b2)
            some_event system first.run second.run,
        omega (arith, length-append first.tasks second.tasks, first.as_many, second.as_many),
        drained,
      )

  cancel_all_steps :
      (m : IoManager) (fd : ℕ) (c c1 c2 : FdContext) (reads writes : List Task) (n1 n2 : ℕ)
      → get_elem? m.fd_contexts fd ≡ some c
      → leb (length m.fd_contexts) fd ≡ false
      → (c.events == 0) ≡ false
      → epoll_ctl epoll_ctl_del fd 0 ≡ true
      → trigger_if (registered c.events event_read) event_read c m.pending_event_count
        ≡ ok (reads, c1, n1)
      → trigger_if (registered c1.events event_write) event_write c1 n1 ≡ ok (writes, c2, n2)
      → c2.events ≡ 0
      → cancel_all epoll_ctl m fd ≡ ok (true, reads ++ writes, put_fd m fd c2 n2)
  unfolding cancel_all cancel_all_in
  cancel_all_steps m fd c c1 c2 reads writes n1 n2 here inside some_event system first second
        none_left =
      simp (here, inside, some_event, system, first, second, none_left)

  no_events : (c : FdContext) → IsContext c → count_of c ≡ 0 → c.events ≡ 0
  no_events c v e = elim v.known [
    | inl h ↦ h
    | inr (inl h) ↦ let k : count_of c ≡ 1 = ap events_count h in absurd (omega (arith, k, e))
    | inr (inr (inl h)) ↦ let k : count_of c ≡ 1 = ap events_count h in absurd (omega (arith, k, e))
    | inr (inr (inr h)) ↦ let k : count_of c ≡ 2 = ap events_count h in absurd (omega (arith, k, e))
  ]
    where
      events_count : ℕ → ℕ
      events_count e = one_if (registered e event_read) + one_if (registered e event_write)

  -- On a well-formed table, where the system accepts the removal, `cancelAll` of a descriptor
  -- with registered events returns true and gives one task to a scheduler for each of them; as
  -- many events fewer are pending, no other context changes, and the table is well formed
  -- again.
  pub cancel_all-Drained :
      (m : IoManager) (fd : ℕ) (c : FdContext)
      → IsValid m
      → get_elem? m.fd_contexts fd ≡ some c
      → c.events ≢ 0
      → epoll_ctl epoll_ctl_del fd 0 ≡ true
      → (tasks : List Task) × (m' : IoManager) × (cancel_all epoll_ctl m fd ≡ ok (true, tasks, m'))
        × (length tasks ≡ count_of c)
        × Drained m fd c tasks m'
  cancel_all-Drained m fd c v here some_event system =
      let b1 = registered c.events event_read in
      let b2 = registered c.events event_write in
      let valid = All-get_elem? IsContext m.fd_contexts fd v.contexts here in
      let (first, second, drained) = both b1 b2 m fd c v here (λ e. e) (λ e. e) in
      let kept = write_kept b1 c first.after valid first.remaining in
      (
        first.tasks ++ second.tasks,
        put_fd m fd second.after (m.pending_event_count - one_if b1 - one_if b2),
        cancel_all_steps m fd c first.after second.after first.tasks second.tasks
            (m.pending_event_count - one_if b1) (m.pending_event_count - one_if b1 - one_if b2) here
            (in_table m.fd_contexts fd here) (ne→== c.events 0 some_event) system first.run
            (rw kept second.run)
            (no_events second.after second.valid (omega (arith, first.counted, second.counted))),
        omega (arith, length-append first.tasks second.tasks, first.as_many, second.as_many),
        drained,
      )

  unasked_steps :
      (m : IoManager) (fd ready : ℕ) (c c1 : FdContext) (reads : List Task) (n1 : ℕ)
      → real_events ready ≡ 5
      → (bit_and c.events 5 == 0) ≡ false
      → epoll_ctl
          (op_leaving (without_event c.events 5))
          c.fd
          (edge_triggered (without_event c.events 5))
        ≡ true
      → trigger_if true event_read c m.pending_event_count ≡ ok (reads, c1, n1)
      → trigger_if true event_write c1 n1 ≡ fail assertion_failed
      → ready_in epoll_ctl m fd c ready ≡ fail assertion_failed
  unfolding ready_in
  unasked_steps m fd ready c c1 reads n1 real some_event system first second =
      simp (real, some_event, system, first, second)

  unregistered_write :
      (c : FdContext) (n : ℕ)
      → registered c.events event_write ≡ false
      → trigger_if true event_write c n ≡ fail assertion_failed
  unfolding trigger_if trigger_event
  unregistered_write c n off = simp off

  -- On a well-formed table, where the system accepts the removal and only the read event of a
  -- descriptor is registered: if `idle` takes both events from the report, as it does on an
  -- error, the assertion of `triggerEvent` fails.
  pub ready_unasked :
      (m : IoManager) (fd ready : ℕ) (c : FdContext)
      → IsValid m
      → get_elem? m.fd_contexts fd ≡ some c
      → real_events ready ≡ 5
      → c.events ≡ event_read
      → epoll_ctl
          (op_leaving (without_event c.events 5))
          c.fd
          (edge_triggered (without_event c.events 5))
        ≡ true
      → ready_in epoll_ctl m fd c ready ≡ fail assertion_failed
  ready_unasked m fd ready c v here real only system =
      let valid = All-get_elem? IsContext m.fd_contexts fd v.contexts here in
      let low : count_of c ≤ m.pending_event_count =
        omega (arith, count-le-total m.fd_contexts fd c here, v.counted) in
      let first =
        trigger_if-RanIf true event_read c m.pending_event_count valid (inl refl)
          (λ e. ap (λ x. registered x event_read) only) low in
      unasked_steps m fd ready c first.after first.tasks (m.pending_event_count - 1) real
        (ap (λ x. bit_and x 5 == 0) only) system first.run
        (unregistered_write first.after (m.pending_event_count - 1) (
          write_kept true c first.after valid first.remaining
          ∙ ap (λ x. registered x event_write) only))
