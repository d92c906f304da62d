-- ===== src/IoManager/Adding.antt =====
-- `addEvent`: the event is registered, in a table that grows where the descriptor is beyond it.
use server_framework.Base.{
  ℕ, zero, suc, ◌+◌, ◌*◌, ◌/◌, ◌≤◌, ◌<◌, ◌≡◌, refl, sym, ap, ◌∙◌, subst, Bool, true, false, Option,
  none, some, List, [], ◌∷◌, ◌⊎◌, inl, inr, All-get_elem?, Bool-cases, length, get_elem?,
  get_elem?-lt, set, leb, leb→le, ok, bit_or, arith,
}
use server_framework.IoManager.{
  Op, EventContext, FdContext, IoManager, no_context, registered, edge_triggered, event_read,
  event_write, put_fd, context_resize, add_in, add_event,
}
use server_framework.IoManager.Invariant.{IsSlot, IsEvents, IsContext, IsValid, one_if}
use server_framework.IoManager.Trigger.{IsEvent, slot}
use server_framework.IoManager.Registry.{put_fd-IsValid}
use server_framework.IoManager.Growth.{empty_context, resized-IsValid, resized-here}

set_read :
    (e : ℕ)
    → IsEvents e
    → registered e event_read ≡ false
    → IsEvents (bit_or e event_read)
      × (registered (bit_or e event_read) event_read ≡ true)
      × (registered (bit_or e event_read) event_write ≡ registered e event_write)
set_read e (inl h) off = rw h (inr (inl refl), refl, refl)
set_read e (inr (inl h)) off = cc (sym off ∙ ap (λ x. registered x event_read) h)
set_read e (inr (inr (inl h))) off = rw h (inr (inr (inr refl)), refl, refl)
set_read e (inr (inr (inr h))) off = cc (sym off ∙ ap (λ x. registered x event_read) h)

set_write :
    (e : ℕ)
    → IsEvents e
    → registered e event_write ≡ false
    → IsEvents (bit_or e event_write)
      × (registered (bit_or e event_write) event_write ≡ true)
      × (registered (bit_or e event_write) event_read ≡ registered e event_read)
set_write e (inl h) off = rw h (inr (inr (inl refl)), refl, refl)
set_write e (inr (inl h)) off = rw h (inr (inr (inr refl)), refl, refl)
set_write e (inr (inr (inl h))) off = cc (sym off ∙ ap (λ x. registered x event_write) h)
set_write e (inr (inr (inr h))) off = cc (sym off ∙ ap (λ x. registered x event_write) h)

-- What `addEvent` stores for the event: the callback, or else the fiber that runs.
abbrev pub waiting : ℕ → ℕ → Option ℕ → EventContext
waiting s current cb = record {
  scheduler = some s;
  fiber = elim cb [ none ↦ some current | some f ↦ none ];
  cb = cb;
}

waiting-IsSlot : (s current : ℕ) (cb : Option ℕ) → IsSlot true (waiting s current cb)
waiting-IsSlot s current none = (s, current, inr refl)
waiting-IsSlot s current (some f) = (s, f, inl refl)

abbrev read_added : FdContext → EventContext → FdContext
read_added c ctx = record c { events = bit_or c.events event_read; read = ctx }

abbrev write_added : FdContext → EventContext → FdContext
write_added c ctx = record c { events = bit_or c.events event_write; write = ctx }

module _ (epoll_ctl : Op → ℕ → ℕ → Bool) where
  abbrev pub Accepts : ℕ → Type 0
  Accepts fd = (op : Op) (events : ℕ) → epoll_ctl op fd events ≡ true

  read_steps :
      (s current : ℕ) (m : IoManager) (fd : ℕ) (c : FdContext) (cb : Option ℕ)
      → Accepts fd
      → registered c.events event_read ≡ false
      → c.read ≡ no_context
      → add_in epoll_ctl (some s) current m fd c event_read cb
        ≡ ok (true, put_fd m fd (read_added c (waiting s current cb)) (m.pending_event_count + 1))
  unfolding add_in
  read_steps s current m fd c cb accepts off idle =
      simp (off, idle, accepts _ (edge_triggered (bit_or c.events event_read)))

  write_steps :
      (s current : ℕ) (m : IoManager) (fd : ℕ) (c : FdContext) (cb : Option ℕ)
      → Accepts fd
      → registered c.events event_write ≡ false
      → c.write ≡ no_context
      → add_in epoll_ctl (some s) current m fd c event_write cb
        ≡ ok (true, put_fd m fd (write_added c (waiting s current cb)) (m.pending_event_count + 1))
  unfolding add_in
  write_steps s current m fd c cb accepts off idle =
      simp (off, idle, accepts _ (edge_triggered (bit_or c.events event_write)))

  -- What an `addEvent` that succeeds leaves.
  pub record Added (s current fd event : ℕ) (cb : Option ℕ) (m m' : IoManager) : Type 0 where
    pub valid : IsValid m'
    pub context : FdContext
    pub at_fd : get_elem? m'.fd_contexts fd ≡ some context
    pub stored : slot context event ≡ waiting s current cb
    pub on : registered context.events event ≡ true
    pub counted : m'.pending_event_count ≡ m.pending_event_count + 1

  get-set :
      (cs : List FdContext) (i : ℕ) (c d : FdContext)
      → get_elem? cs i ≡ some c
      → get_elem? (set cs i d) i ≡ some d
  get-set [] i c d e = cc
  get-set (x ∷ xs) zero c d e = refl
  get-set (x ∷ xs) (suc i) c d e = get-set xs i c d e

  add_in-Added :
      (s current : ℕ) (m : IoManager) (fd event : ℕ) (c : FdContext) (cb : Option ℕ)
      → IsValid m
      → get_elem? m.fd_contexts fd ≡ some c
      → IsEvent event
      → registered c.events event ≡ false
      → Accepts fd
      → (m' : IoManager) × (add_in epoll_ctl (some s) current m fd c event cb ≡ ok (true, m'))
        × Added s current fd event cb m m'
  add_in-Added s current m fd event c cb v here (inl is) off accepts =
      let valid = All-get_elem? IsContext m.fd_contexts fd v.contexts here in
      let free : registered c.events event_read ≡ false =
        subst (λ x. registered c.events x ≡ false) is off in
      let (known, on, kept) = set_read c.events valid.known free in
      let c' = read_added c (waiting s current cb) in
      (
        put_fd m fd c' (m.pending_event_count + 1),
        rw is (
            read_steps s current m fd c cb accepts free
              (subst (λ b. IsSlot b c.read) free valid.reads)),
        record {
          valid =
              put_fd-IsValid m fd c c' (m.pending_event_count + 1) v here
                (record {
                  known = known;
                  reads = subst (λ b. IsSlot b c'.read) (sym on) (waiting-IsSlot s current cb);
                  writes = subst (λ b. IsSlot b c.write) (sym kept) valid.writes;
                })
                (omega (arith, ap one_if on, ap one_if kept, ap one_if free));
          context = c';
          at_fd = get-set m.fd_contexts fd c c' here;
          stored = rw is refl;
          on = rw is on;
          counted = refl;
        },
      )
  add_in-Added s current m fd event c cb v here (inr is) off accepts =
      let valid = All-get_elem? IsContext m.fd_contexts fd v.contexts here in
      let free : registered c.events event_write ≡ false =
        subst (λ x. registered c.events x ≡ false) is off in
      let (known, on, kept) = set_write c.events valid.known free in
      let c' = write_added c (waiting s current cb) in
      (
        put_fd m fd c' (m.pending_event_count + 1),
        rw is (
            write_steps s current m fd c cb accepts free
              (subst (λ b. IsSlot b c.write) free valid.writes)),
        record {
          valid =
              put_fd-IsValid m fd c c' (m.pending_event_count + 1) v here
                (record {
                  known = known;
                  reads = subst (λ b. IsSlot b c.read) (sym kept) valid.reads;
                  writes = subst (λ b. IsSlot b c'.write) (sym on) (waiting-IsSlot s current cb);
                })
                (omega (arith, ap one_if on, ap one_if kept, ap one_if free));
          context = c';
          at_fd = get-set m.fd_contexts fd c c' here;
          stored = rw is refl;
          on = rw is on;
          counted = refl;
        },
      )

module _ (epoll_ctl : Op → ℕ → ℕ → Bool) where
  inside_steps :
      (s current : ℕ) (m : IoManager) (fd event : ℕ) (c : FdContext) (cb : Option ℕ)
      → leb (length m.fd_contexts) fd ≡ false
      → get_elem? m.fd_contexts fd ≡ some c
      → add_event epoll_ctl (some s) current m fd event cb
        ≡ add_in epoll_ctl (some s) current m fd c event cb
  unfolding add_event
  inside_steps s current m fd event c cb inside here = simp (inside, here)

  beyond_steps :
      (s current : ℕ) (m : IoManager) (fd event : ℕ) (c : FdContext) (cb : Option ℕ)
      → leb (length m.fd_contexts) fd ≡ true
      → get_elem? (context_resize m.fd_contexts (fd * 3 / 2)) fd ≡ some c
      → add_event epoll_ctl (some s) current m fd event cb
        ≡ add_in epoll_ctl
            (some s)
            current
            (record m { fd_contexts = context_resize m.fd_contexts (fd * 3 / 2) })
            fd
            c
            event
            cb
  unfolding add_event
  beyond_steps s current m fd event c cb out here = simp (out, here)

  -- On a well-formed table, where the system accepts the registration, `addEvent` of an event
  -- that is not registered returns success, for every descriptor in the table and for every
  -- descriptor from 2 on beyond it: the context of the descriptor holds the callback, or else
  -- the running fiber, the event is registered, one event more is pending, and the table is
  -- well formed again.
  pub add_event-Added :
      (s current : ℕ) (m : IoManager) (fd event : ℕ) (cb : Option ℕ)
      → IsValid m
      → IsEvent event
      → ((c : FdContext) → get_elem? m.fd_contexts fd ≡ some c → registered c.events event ≡ false)
      → (fd < length m.fd_contexts) ⊎ (2 ≤ fd)
      → Accepts epoll_ctl fd
      → (m' : IoManager) × (add_event epoll_ctl (some s) current m fd event cb ≡ ok (true, m'))
        × Added epoll_ctl s current fd event cb m m'
  add_event-Added s current m fd event cb v is off place accepts =
      elim (Bool-cases (leb (length m.fd_contexts) fd)) [
        | inl out ↦
            let low = leb→le (length m.fd_contexts) fd out in
            let two : 2 ≤ fd = elim place [ inl h ↦ absurd (omega arith) | inr h ↦ h ] in
            let grown = record m { fd_contexts = context_resize m.fd_contexts (fd * 3 / 2) } in
            let here = resized-here m.fd_contexts (fd * 3 / 2) fd low (omega arith) in
            let (m', run, added) =
              add_in-Added epoll_ctl s current grown fd event (empty_context fd) cb
                (resized-IsValid m (fd * 3 / 2) (omega arith) v) here is (none_on event is)
                accepts in
            (
              m',
              beyond_steps s current m fd event (empty_context fd) cb out here ∙ run,
              record {
                valid = added.valid;
                context = added.context;
                at_fd = added.at_fd;
                stored = added.stored;
                on = added.on;
                counted = added.counted;
              },
            )
        | inr inside ↦
            let (c, here) = get_elem?-lt m.fd_contexts fd (in_length inside) in
            let (m', run, added) =
              add_in-Added epoll_ctl s current m fd event c cb v here is (off c here) accepts in
            (m', inside_steps s current m fd event c cb inside here ∙ run, added)
      ]
    where
      in_length : {n k : ℕ} → leb n k ≡ false → k < n
      in_length h = ground arith

      none_on : (e : ℕ) → IsEvent e → registered 0 e ≡ false
      none_on e (inl h) = rw h refl
      none_on e (inr h) = rw h refl
