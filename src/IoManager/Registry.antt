-- ===== src/IoManager/Registry.antt =====
-- `addEvent`, `delEvent`, `cancelEvent` and `cancelAll` keep the table well formed.
use server_framework.Base.{
  ℕ, ◌+◌, ◌≤◌, ◌<◌, ◌≡◌, refl, sym, ap, subst, Bool, true, false, some, List, [], ◌∷◌, inl, inr,
  All-set, All-get_elem?, Bool-cases, length, get_elem?, get_elem?-ge, get_elem?-lt, set, leb,
  le→leb, leb→le, ok, size_sub, arith,
}
use server_framework.IoManager.{
  Op, EventContext, FdContext, IoManager, Task, no_context, registered, without_event,
  edge_triggered, op_leaving, event_read, event_write, put_fd, put_context, get_context,
  trigger_event, cancel_in, cancel_event, del_in, del_event,
}
use server_framework.IoManager.Invariant.{
  IsSlot, IsContext, IsValid, count_of, one_if, total-set, count-le-total, clear_read, clear_write,
}
use server_framework.IoManager.Trigger.{IsEvent, Triggered, trigger_event-Triggered, slot}

pub put_fd-IsValid :
    (m : IoManager) (fd : ℕ) (c c' : FdContext) (n : ℕ)
    → IsValid m
    → get_elem? m.fd_contexts fd ≡ some c
    → IsContext c'
    → n + count_of c ≡ m.pending_event_count + count_of c'
    → IsValid (put_fd m fd c' n)
put_fd-IsValid m fd c c' n v here v' counts = record {
  contexts = All-set IsContext m.fd_contexts fd c' v.contexts v';
  counted = omega (arith, total-set m.fd_contexts fd c c' here, v.counted);
}

pub in_table {ℓ} :
    {A : Type ℓ} (xs : List A) (i : ℕ) {x : A} → get_elem? xs i ≡ some x → leb (length xs) i ≡ false
in_table xs i e = elim (Bool-cases (leb (length xs) i)) [
  | inl out ↦ let gone = get_elem?-ge xs i (leb→le (length xs) i out) in cc (e, gone)
  | inr inside ↦ inside
]

-- The count of a registered event is not 0.
pub one_pending :
    (m : IoManager) (fd event : ℕ) (c : FdContext)
    → IsValid m
    → get_elem? m.fd_contexts fd ≡ some c
    → 1 ≤ count_of c
    → (size_sub m.pending_event_count 1) + 1 ≡ m.pending_event_count
one_pending m fd event c v here some_event =
    let low = count-le-total m.fd_contexts fd c here in
    let pos : 1 ≤ m.pending_event_count = omega (arith, low, v.counted) in
    rw (le→leb 1 m.pending_event_count pos) (omega arith)

module _ (epoll_ctl : Op → ℕ → ℕ → Bool) where
  cancel_steps :
      (m : IoManager) (fd event : ℕ) (c c' : FdContext) (tasks : List Task)
      → get_elem? m.fd_contexts fd ≡ some c
      → leb (length m.fd_contexts) fd ≡ false
      → registered c.events event ≡ true
      → epoll_ctl
          (op_leaving (without_event c.events event))
          fd
          (edge_triggered (without_event c.events event))
        ≡ true
      → trigger_event c event ≡ ok (tasks, c')
      → cancel_event epoll_ctl m fd event
        ≡ ok (true, tasks, put_fd m fd c' (size_sub m.pending_event_count 1))
  unfolding cancel_event cancel_in
  cancel_steps m fd event c c' tasks here inside on system run =
      simp (here, inside, on, system, run)

  -- On a well-formed table, where the system accepts the new registration, `cancelEvent` of a
  -- registered event returns true and gives the work that waited for the event to its
  -- scheduler, once; the event is no longer registered, one event fewer is pending, no other
  -- context changes, and the table is well formed again.
  pub cancel_event-Triggered :
      (m : IoManager) (fd event : ℕ) (c : FdContext)
      → IsValid m
      → get_elem? m.fd_contexts fd ≡ some c
      → IsEvent event
      → registered c.events event ≡ true
      → epoll_ctl
          (op_leaving (without_event c.events event))
          fd
          (edge_triggered (without_event c.events event))
        ≡ true
      → (task : Task) × (c' : FdContext) × (m' : IoManager) × (cancel_event epoll_ctl m fd event
          ≡ ok (true, task ∷ [], m'))
        × Triggered c event task c'
        × IsValid m'
        × (m'.fd_contexts ≡ set m.fd_contexts fd c')
        × (m'.pending_event_count + 1 ≡ m.pending_event_count)
  cancel_event-Triggered m fd event c v here is on system =
      let valid = All-get_elem? IsContext m.fd_contexts fd v.contexts here in
      let (task, c', run, t) = trigger_event-Triggered c event valid is on in
      let less = one_pending m fd event c v here (omega (arith, t.counted)) in
      (
        task,
        c',
        put_fd m fd c' (size_sub m.pending_event_count 1),
        cancel_steps m fd event c c' (task ∷ []) here (in_table m.fd_contexts fd here) on system
            run,
        t,
        put_fd-IsValid m fd c c' (size_sub m.pending_event_count 1) v here t.valid
            (omega (arith, t.counted, less)),
        refl,
        less,
      )

  unregistered_steps :
      (m : IoManager) (fd event : ℕ) (c : FdContext)
      → get_elem? m.fd_contexts fd ≡ some c
      → leb (length m.fd_contexts) fd ≡ false
      → registered c.events event ≡ false
      → (cancel_event epoll_ctl m fd event ≡ ok (false, [], m))
        × (del_event epoll_ctl m fd event ≡ ok (false, m))
  unfolding cancel_event cancel_in del_event del_in
  unregistered_steps m fd event c here inside off =
      (simp (here, inside, off), simp (here, inside, off))

  beyond_steps :
      (m : IoManager) (fd event : ℕ)
      → leb (length m.fd_contexts) fd ≡ true
      → (cancel_event epoll_ctl m fd event ≡ ok (false, [], m))
        × (del_event epoll_ctl m fd event ≡ ok (false, m))
  unfolding cancel_event del_event
  beyond_steps m fd event out = (simp out, simp out)

  del_steps :
      (m : IoManager) (fd event : ℕ) (c : FdContext) (ctx : EventContext)
      → get_elem? m.fd_contexts fd ≡ some c
      → leb (length m.fd_contexts) fd ≡ false
      → registered c.events event ≡ true
      → epoll_ctl
          (op_leaving (without_event c.events event))
          fd
          (edge_triggered (without_event c.events event))
        ≡ true
      → get_context c event ≡ ok ctx
      → del_event epoll_ctl m fd event
        ≡ ok (
          true,
          put_fd m fd
              (put_context (record c { events = without_event c.events event }) event no_context)
              (size_sub m.pending_event_count 1),
        )
  unfolding del_event del_in
  del_steps m fd event c ctx here inside on system run = simp (here, inside, on, system, run)

  -- On a well-formed table, where the system accepts the new registration, `delEvent` of a
  -- registered event returns true and runs nothing; the event's context is empty, the event is
  -- no longer registered, one event fewer is pending, no other context changes, and the table
  -- is well formed again.
  pub del_event-IsValid :
      (m : IoManager) (fd event : ℕ) (c : FdContext)
      → IsValid m
      → get_elem? m.fd_contexts fd ≡ some c
      → IsEvent event
      → registered c.events event ≡ true
      → epoll_ctl
          (op_leaving (without_event c.events event))
          fd
          (edge_triggered (without_event c.events event))
        ≡ true
      → (c' : FdContext) × (m' : IoManager) × (del_event epoll_ctl m fd event ≡ ok (true, m'))
        × (slot c' event ≡ no_context)
        × (registered c'.events event ≡ false)
        × IsValid m'
        × (m'.fd_contexts ≡ set m.fd_contexts fd c')
        × (m'.pending_event_count + 1 ≡ m.pending_event_count)
  del_event-IsValid m fd event c v here (inl is) on system =
      let valid = All-get_elem? IsContext m.fd_contexts fd v.contexts here in
      let reading : registered c.events event_read ≡ true =
        subst (λ x. registered c.events x ≡ true) is on in
      let (known, off, kept) = clear_read c.events valid.known in
      let c' = record c { events = without_event c.events event_read; read = no_context } in
      let less = one_pending m fd event c v here (omega (arith, ap one_if reading)) in
      (
        c',
        put_fd m fd c' (size_sub m.pending_event_count 1),
        rw is (
            del_steps m fd event_read c c.read here (in_table m.fd_contexts fd here) reading
              (subst
                (λ x.
                  epoll_ctl (op_leaving (without_event c.events x)) fd
                    (edge_triggered (without_event c.events x))
                  ≡ true)
                is system)
              refl),
        rw is refl,
        rw is off,
        put_fd-IsValid m fd c c' (size_sub m.pending_event_count 1) v here
            (record {
              known = known;
              reads = subst (λ b. IsSlot b no_context) (sym off) refl;
              writes = subst (λ b. IsSlot b c.write) (sym kept) valid.writes;
            })
            (omega (arith, less, ap one_if off, ap one_if kept, ap one_if reading)),
        refl,
        less,
      )
  del_event-IsValid m fd event c v here (inr is) on system =
      let valid = All-get_elem? IsContext m.fd_contexts fd v.contexts here in
      let writing : registered c.events event_write ≡ true =
        subst (λ x. registered c.events x ≡ true) is on in
      let (known, off, kept) = clear_write c.events valid.known in
      let c' = record c { events = without_event c.events event_write; write = no_context } in
      let less = one_pending m fd event c v here (omega (arith, ap one_if writing)) in
      (
        c',
        put_fd m fd c' (size_sub m.pending_event_count 1),
        rw is (
            del_steps m fd event_write c c.write here (in_table m.fd_contexts fd here) writing
              (subst
                (λ x.
                  epoll_ctl (op_leaving (without_event c.events x)) fd
                    (edge_triggered (without_event c.events x))
                  ≡ true)
                is system)
              refl),
        rw is refl,
        rw is off,
        put_fd-IsValid m fd c c' (size_sub m.pending_event_count 1) v here
            (record {
              known = known;
              reads = subst (λ b. IsSlot b c.read) (sym kept) valid.reads;
              writes = subst (λ b. IsSlot b no_context) (sym off) refl;
            })
            (omega (arith, less, ap one_if off, ap one_if kept, ap one_if writing)),
        refl,
        less,
      )

  -- `cancelEvent` and `delEvent` of an event that is not registered, on a descriptor in the
  -- table or beyond it, return false and change nothing.
  pub event_unregistered :
      (m : IoManager) (fd event : ℕ)
      → ((c : FdContext) → get_elem? m.fd_contexts fd ≡ some c → registered c.events event ≡ false)
      → (cancel_event epoll_ctl m fd event ≡ ok (false, [], m))
        × (del_event epoll_ctl m fd event ≡ ok (false, m))
  event_unregistered m fd event off = elim (Bool-cases (leb (length m.fd_contexts) fd)) [
    | inl out ↦ beyond_steps m fd event out
    | inr inside ↦
        let (c, here) =
          get_elem?-lt m.fd_contexts fd (ltb_of_not fd (length m.fd_contexts) inside) in
        unregistered_steps m fd event c here inside (off c here)
  ]
    where
      ltb_of_not : (a b : ℕ) → leb b a ≡ false → a < b
      ltb_of_not a b h = ground arith
