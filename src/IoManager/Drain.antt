-- ===== src/IoManager/Drain.antt =====
-- `triggerEvent` for either event, or for both in turn.
use server_framework.Base.{
  ℕ, ◌+◌, ◌-◌, ◌≤◌, ◌≡◌, refl, ap, ◌∙◌, Bool, true, false, if◌then◌else◌, some, List, [], ◌∷◌, ◌++◌,
  inl, inr, length, length-append, get_elem?, set, le→leb, ok, arith, All-get_elem?,
}
use server_framework.IoManager.{
  FdContext, IoManager, Task, registered, without_event, event_read, event_write, put_fd,
  trigger_event, trigger_if,
}
use server_framework.IoManager.Invariant.{
  IsContext, IsValid, count_of, one_if, count-le-total, clear_read,
}
use server_framework.IoManager.Trigger.{IsEvent, trigger_event-Triggered}
use server_framework.IoManager.Registry.{put_fd-IsValid}

-- What a conditional `triggerEvent` that asserts nothing wrong leaves.
pub record RanIf (b : Bool) (event : ℕ) (c : FdContext) (n : ℕ) : Type 0 where
  pub tasks : List Task
  pub after : FdContext
  pub run : trigger_if b event c n ≡ ok (tasks, after, n - one_if b)
  pub valid : IsContext after
  pub counted : count_of after + one_if b ≡ count_of c
  pub as_many : length tasks ≡ one_if b
  pub remaining : after.events ≡ (if b then without_event c.events event else c.events)

if_steps :
    (event : ℕ) (c c' : FdContext) (n : ℕ) (tasks : List Task)
    → trigger_event c event ≡ ok (tasks, c')
    → 1 ≤ n
    → trigger_if true event c n ≡ ok (tasks, c', n - 1)
unfolding trigger_if
if_steps event c c' n tasks run h = simp (run, le→leb 1 n h)

pub trigger_if-RanIf :
    (b : Bool) (event : ℕ) (c : FdContext) (n : ℕ)
    → IsContext c
    → IsEvent event
    → (b ≡ true → registered c.events event ≡ true)
    → count_of c ≤ n
    → RanIf b event c n
unfolding trigger_if
trigger_if-RanIf false event c n v is on h = record {
  tasks = [];
  after = c;
  run = ap (λ k. ok ([], c, k)) {y = n - 0} (omega arith);
  valid = v;
  counted = omega arith;
  as_many = refl;
  remaining = refl;
}
trigger_if-RanIf true event c n v is on h =
    let (task, c', run, t) = trigger_event-Triggered c event v is (on refl) in
    record {
      tasks = task ∷ [];
      after = c';
      run = if_steps event c c' n (task ∷ []) run (omega (arith, t.counted));
      valid = t.valid;
      counted = t.counted;
      as_many = refl;
      remaining = t.remaining;
    }

-- Triggering the read event leaves the write event.
pub write_kept :
    (b : Bool) (c c' : FdContext)
    → IsContext c
    → c'.events ≡ (if b then without_event c.events event_read else c.events)
    → registered c'.events event_write ≡ registered c.events event_write
write_kept false c c' v e = ap (λ x. registered x event_write) e
write_kept true c c' v e = ap (λ x. registered x event_write) e ∙ (clear_read c.events v.known).2

-- What a round over both events leaves: each task in `tasks` is of one event that has gone.
pub record Drained (m : IoManager) (fd : ℕ) (c : FdContext) (tasks : List Task) (m' : IoManager)
    : Type 0 where
  pub valid : IsValid m'
  pub context : FdContext
  pub placed : m'.fd_contexts ≡ set m.fd_contexts fd context
  pub fewer : count_of context + length tasks ≡ count_of c
  pub counted : m'.pending_event_count + length tasks ≡ m.pending_event_count

pub both :
    (b1 b2 : Bool) (m : IoManager) (fd : ℕ) (c : FdContext)
    → IsValid m
    → get_elem? m.fd_contexts fd ≡ some c
    → (b1 ≡ true → registered c.events event_read ≡ true)
    → (b2 ≡ true → registered c.events event_write ≡ true)
    → (first : RanIf b1 event_read c m.pending_event_count) × (second : RanIf b2 event_write
        first.after
        (m.pending_event_count - one_if b1))
      × Drained m fd c
          (first.tasks ++ second.tasks)
          (put_fd m fd second.after (m.pending_event_count - one_if b1 - one_if b2))
both b1 b2 m fd c v here on1 on2 =
    let valid = All-get_elem? IsContext m.fd_contexts fd v.contexts here in
    let low : count_of c ≤ m.pending_event_count =
      omega (arith, count-le-total m.fd_contexts fd c here, v.counted) in
    let first = trigger_if-RanIf b1 event_read c m.pending_event_count valid (inl refl) on1 low in
    let second =
      trigger_if-RanIf b2 event_write first.after (m.pending_event_count - one_if b1) first.valid
        (inr refl) (λ e. write_kept b1 c first.after valid first.remaining ∙ on2 e)
        (omega (arith, first.counted)) in
    let n = m.pending_event_count - one_if b1 - one_if b2 in
    let many : length (first.tasks ++ second.tasks) ≡ one_if b1 + one_if b2 =
      omega (arith, length-append first.tasks second.tasks, first.as_many, second.as_many) in
    (
      first,
      second,
      record {
        valid =
            put_fd-IsValid m fd c second.after n v here second.valid
              (omega (arith, first.counted, second.counted));
        context = second.after;
        placed = refl;
        fewer = omega (arith, first.counted, second.counted, many);
        counted = omega (arith, first.counted, second.counted, many);
      },
    )
