-- ===== src/IoManager/Trigger.antt =====
-- `triggerEvent` on a well-formed context: one task for the event, which is cleared.
use server_framework.Base.{
  ℕ, ◌+◌, ◌≡◌, refl, sym, ap, subst, true, false, ◌==◌, if◌then◌else◌, none, some, [], ◌∷◌, ◌⊎◌,
  inl, inr, ok, arith,
}
use server_framework.IoManager.{
  EventContext, FdContext, Task, Work, callback, fiber_of, no_context, registered, without_event,
  event_read, event_write, trigger_event,
}
use server_framework.IoManager.Invariant.{
  IsSlot, IsContext, count_of, one_if, clear_read, clear_write,
}

abbrev pub IsEvent : ℕ → Type 0
IsEvent event = (event ≡ event_read) ⊎ (event ≡ event_write)

abbrev pub slot : FdContext → ℕ → EventContext
slot c event = if event == event_read then c.read else c.write

-- The context of an event whose work is a task.
abbrev pub context_of : Task → EventContext
context_of task = elim task.work [
  | callback f ↦ record { scheduler = some task.given_to; fiber = none; cb = some f }
  | fiber_of f ↦ record { scheduler = some task.given_to; fiber = some f; cb = none }
]

-- The event is not registered any more, its one task has been given away, and the other event is as
-- it was.
pub record Triggered (c : FdContext) (event : ℕ) (task : Task) (c' : FdContext) : Type 0 where
  pub given : slot c event ≡ context_of task
  pub valid : IsContext c'
  pub counted : count_of c' + 1 ≡ count_of c
  pub cleared : registered c'.events event ≡ false
  pub remaining : c'.events ≡ without_event c.events event
  pub same_fd : c'.fd ≡ c.fd

abbrev read_cleared : FdContext → FdContext
read_cleared c = record c { events = without_event c.events event_read; read = no_context }

abbrev write_cleared : FdContext → FdContext
write_cleared c = record c { events = without_event c.events event_write; write = no_context }

abbrev task_of : ℕ → Work → Task
task_of s w = record { given_to = s; work = w }

trigger_read :
    (c : FdContext) (s : ℕ) (w : Work)
    → registered c.events event_read ≡ true
    → c.read ≡ context_of (task_of s w)
    → trigger_event c event_read ≡ ok (task_of s w ∷ [], read_cleared c)
unfolding trigger_event
trigger_read c s (callback f) on e = simp (on, e)
trigger_read c s (fiber_of f) on e = simp (on, e)

trigger_write :
    (c : FdContext) (s : ℕ) (w : Work)
    → registered c.events event_write ≡ true
    → c.write ≡ context_of (task_of s w)
    → trigger_event c event_write ≡ ok (task_of s w ∷ [], write_cleared c)
unfolding trigger_event
trigger_write c s (callback f) on e = simp (on, e)
trigger_write c s (fiber_of f) on e = simp (on, e)

-- The slot of a registered event holds a task.
slot_task :
    (ctx : EventContext) → IsSlot true ctx → (s : ℕ) × (w : Work) × (ctx ≡ context_of (task_of s w))
slot_task ctx (s, f, inl e) = (s, callback f, e)
slot_task ctx (s, f, inr e) = (s, fiber_of f, e)

pub trigger_event-Triggered :
    (c : FdContext) (event : ℕ)
    → IsContext c
    → IsEvent event
    → registered c.events event ≡ true
    → (task : Task) × (c' : FdContext) × (trigger_event c event ≡ ok (task ∷ [], c'))
      × Triggered c event task c'
trigger_event-Triggered c event v (inl is) on =
    let reading : registered c.events event_read ≡ true =
      subst (λ x. registered c.events x ≡ true) is on in
    let (s, w, e) = slot_task c.read (subst (λ b. IsSlot b c.read) reading v.reads) in
    let (known, off, kept) = clear_read c.events v.known in
    (
      task_of s w,
      read_cleared c,
      rw is (trigger_read c s w reading e),
      rw is (record {
        given = e;
        valid = record {
          known = known;
          reads = subst (λ b. IsSlot b no_context) (sym off) refl;
          writes = subst (λ b. IsSlot b c.write) (sym kept) v.writes;
        };
        counted = omega (arith, ap one_if off, ap one_if kept, ap one_if reading);
        cleared = off;
        remaining = refl;
        same_fd = refl;
      }),
    )
trigger_event-Triggered c event v (inr is) on =
    let writing : registered c.events event_write ≡ true =
      subst (λ x. registered c.events x ≡ true) is on in
    let (s, w, e) = slot_task c.write (subst (λ b. IsSlot b c.write) writing v.writes) in
    let (known, off, kept) = clear_write c.events v.known in
    (
      task_of s w,
      write_cleared c,
      rw is (trigger_write c s w writing e),
      rw is (record {
        given = e;
        valid = record {
          known = known;
          reads = subst (λ b. IsSlot b c.read) (sym kept) v.reads;
          writes = subst (λ b. IsSlot b no_context) (sym off) refl;
        };
        counted = omega (arith, ap one_if off, ap one_if kept, ap one_if writing);
        cleared = off;
        remaining = refl;
        same_fd = refl;
      }),
    )
