-- ===== src/Timer.antt =====
-- captain/timer.cpp, captain/include/timer.h: timers in an ordered set.
-- A timer is its address; `heap` is the memory that holds the timers. The set `m_timers` is the list
-- of its pointers in the order of the comparator. A callback is a number, an empty one is `none`.
-- The clock is an argument `now`. A method runs under the manager's lock, and is one step here;
-- `listExpiredCb` takes the lock twice, and is two steps.
pub mod Order
pub mod Invariant
mod Updates
pub mod Front
mod Split
mod Cuts
mod Expiry
pub mod Callbacks
mod Examples
use server_framework.Base.{
  ℕ, zero, suc, ◌+◌, ◌*◌, ◌%◌, ◌^◌, Bool, true, false, not, ltb, ◌==◌, ◌&&◌, ◌||◌, if◌then◌else◌,
  Option, none, some, List, [], ◌∷◌, take, drop, length, Outcome, ok, fail, bad_iterator, ◌>>=◌,
  or_fail, size_sub,
}

pub record Timer : Type 0 where
  pub recurring : Bool
  pub ms : ℕ
  pub next : ℕ
  pub cb : Option ℕ

pub record TimerManager : Type 0 where
  pub timers : List ℕ
  pub heap : ℕ → Timer
  pub tickled : Bool
  pub previous_time : ℕ

-- `Timer::Timer(ms, cb, recurring, manager)`
abbrev pub new_timer : ℕ → ℕ → Option ℕ → Bool → Timer
new_timer now ms cb recurring = record {
  recurring = recurring;
  ms = ms;
  next = (now + ms) % 2 ^ 64;
  cb = cb;
}

-- `Timer::Comparator` on pointers: by time, then by address.
pub before : (ℕ → Timer) → Option ℕ → Option ℕ → Bool
before heap none none = false
before heap none (some q) = true
before heap (some p) none = false
before heap (some p) (some q) =
    if ltb (heap p).next (heap q).next
    then true
    else if ltb (heap q).next (heap p).next
    then false
    else ltb p q

-- `*p = t`
pub assign : (ℕ → Timer) → ℕ → Timer → ℕ → Timer
assign heap p t q = if q == p then t else heap q

-- `std::set::insert`: an element that is neither before nor behind the new one stays alone.
pub insert : (ℕ → Timer) → ℕ → List ℕ → List ℕ
unfolding before
insert heap p [] = p ∷ []
insert heap p (q ∷ qs) =
    let rest = insert heap p qs in
    if before heap (some p) (some q)
    then p ∷ q ∷ qs
    else if before heap (some q) (some p)
    then q ∷ rest
    else q ∷ qs

-- `std::set::find`: the place of the element that is neither before nor behind `p`; `end()` is `none`.
pub find : (ℕ → Timer) → ℕ → List ℕ → Option ℕ
unfolding before
find heap p [] = none
find heap p (q ∷ qs) =
    let rest = find heap p qs in
    if before heap (some p) (some q) || before heap (some q) (some p)
    then elim rest [ none ↦ none | some i ↦ some (suc i) ]
    else some 0

pub erase_at : List ℕ → ℕ → List ℕ
erase_at [] i = []
erase_at (q ∷ qs) zero = qs
erase_at (q ∷ qs) (suc i) = q ∷ erase_at qs i

-- `std::set::erase` of an iterator: there is no element to erase at `end()`.
pub erase : List ℕ → Option ℕ → Outcome (List ℕ)
unfolding erase_at
erase ts it = do i ← or_fail it bad_iterator; ok (erase_at ts i)

-- `std::set::lower_bound`: how many elements are before `p`.
pub lower_bound : (ℕ → Timer) → ℕ → List ℕ → ℕ
unfolding before
lower_bound heap p [] = 0
lower_bound heap p (q ∷ qs) =
    let rest = lower_bound heap p qs in if before heap (some q) (some p) then suc rest else 0

-- `TimerManager::addTimer(val, lock)`; the flag says whether `onTimerInsertedAtFront` is called.
pub add_timer_locked : TimerManager → ℕ → Bool × TimerManager
unfolding insert
add_timer_locked m p =
    let timers = insert m.heap p m.timers in
    let at_front = elim timers [ [] ↦ false | q ∷ qs ↦ q == p ] && not m.tickled in
    (at_front, record m { timers = timers; tickled = if at_front then true else m.tickled })

-- `TimerManager::addTimer(ms, cb, recurring)`, where the new timer is placed at the address `p`.
pub add_timer : ℕ → ℕ → TimerManager → ℕ → Option ℕ → Bool → Bool × TimerManager
unfolding add_timer_locked assign
add_timer now p m ms cb recurring =
    let t = new_timer now ms cb recurring in
    add_timer_locked (record m { heap = assign m.heap p t }) p

-- `if(m_cb)`
abbrev pub is_set : Option ℕ → Bool
is_set none = false
is_set (some c) = true

-- `if(it == m_timers.end()) { return at_end; }`
abbrev pub unless_end {ℓ} : {A : Type ℓ} → Option ℕ → A → (ℕ → A) → A
unless_end none at_end at_place = at_end
unless_end (some i) at_end at_place = at_place i

pub cancel : TimerManager → ℕ → Outcome (Bool × TimerManager)
unfolding find erase assign
cancel m p =
    let heap = assign m.heap p (record (m.heap p) { cb = none }) in
    let erased = do
      timers ← erase m.timers (find heap p m.timers)
      ok (true, record m { timers = timers; heap = heap })
    in if is_set (m.heap p).cb then erased else ok (false, m)

pub refresh : ℕ → TimerManager → ℕ → Bool × TimerManager
unfolding find erase_at assign insert
refresh now m p =
    let t = m.heap p in
    let heap = assign m.heap p (record t { next = (now + t.ms) % 2 ^ 64 }) in
    let at_place : ℕ → Bool × TimerManager =
      λ i. (true, record m { timers = insert heap p (erase_at m.timers i); heap = heap }) in
    if not (is_set t.cb)
    then (false, m)
    else unless_end (find m.heap p m.timers) (false, m) at_place

-- The result, and whether `onTimerInsertedAtFront` is called.
pub reset : ℕ → TimerManager → ℕ → ℕ → Bool → Bool × Bool × TimerManager
unfolding find erase_at assign add_timer_locked
reset now m p ms from_now =
    let t = m.heap p in
    let start = if from_now then now else size_sub t.next t.ms in
    let moved = record t { ms = ms; next = (start + ms) % 2 ^ 64 } in
    let at_place : ℕ → Bool × Bool × TimerManager = λ i.
      let out = record m { timers = erase_at m.timers i; heap = assign m.heap p moved } in
      let (at_front, back) = add_timer_locked out p in (true, at_front, back) in
    if (ms == t.ms) && not from_now
    then (true, false, m)
    else if not (is_set t.cb)
    then (false, false, m)
    else unless_end (find m.heap p m.timers) (false, false, m) at_place

unfoldable pub get_next_timer : ℕ → TimerManager → ℕ × TimerManager
get_next_timer now m = (
  elim m.timers [
    | [] ↦ size_sub 0 1
    | p ∷ ps ↦ let next = (m.heap p).next in if ltb now next then size_sub next now else 0
  ],
  record m { tickled = false },
)

unfoldable pub detect_clock_rollover : ℕ → TimerManager → Bool × TimerManager
detect_clock_rollover now m = (
  ltb now m.previous_time && ltb now (size_sub m.previous_time (60 * 60 * 1000)),
  record m { previous_time = now },
)

-- `m_timers.empty()`
abbrev pub empty : List ℕ → Bool
empty [] = true
empty (p ∷ ps) = false

pub has_timer : TimerManager → Bool
has_timer m = not (empty m.timers)

-- `*m_timers.begin()`: there is no such element in an empty set.
abbrev pub first_timer : List ℕ → Outcome ℕ
first_timer [] = fail bad_iterator
first_timer (p ∷ ps) = ok p

-- `while(it != m_timers.end() && (*it)->m_next == now_ms) ++it`: how many steps.
pub skip_equal : (ℕ → Timer) → ℕ → List ℕ → ℕ
skip_equal heap now [] = 0
skip_equal heap now (q ∷ qs) =
    let rest = skip_equal heap now qs in if (heap q).next == now then suc rest else 0

-- A timer that has expired.
pub fired : ℕ → Timer → Timer
fired now t =
    if t.recurring then record t { next = (now + t.ms) % 2 ^ 64 } else record t { cb = none }

-- The last loop of `listExpiredCb`.
pub fire : ℕ → List ℕ → TimerManager → List (Option ℕ) × TimerManager
unfolding fired assign insert
fire now [] m = ([], m)
fire now (p ∷ ps) m =
    let t = m.heap p in
    let heap = assign m.heap p (fired now t) in
    let timers = if t.recurring then insert heap p m.timers else m.timers in
    let r = fire now ps (record m { heap = heap; timers = timers }) in (t.cb ∷ r.0, r.1)

-- How many timers expire: `probe` is the address of `now_timer`.
pub expired_count : ℕ → ℕ → Bool → TimerManager → ℕ
unfolding lower_bound skip_equal assign
expired_count now probe rollover m =
    let now_timer : Timer = record { recurring = false; ms = 0; next = now; cb = none } in
    let all_before = lower_bound (assign m.heap probe now_timer) probe m.timers in
    if rollover
    then length m.timers
    else all_before + skip_equal m.heap now (drop all_before m.timers)

-- `listExpiredCb` from the write lock on.
pub list_expired_locked : ℕ → ℕ → TimerManager → Outcome (List (Option ℕ) × TimerManager)
unfolding detect_clock_rollover expired_count fire
list_expired_locked now probe m =
    let (rollover, seen) = detect_clock_rollover now m in
    let it = expired_count now probe rollover seen in
    let expired = fire now (take it seen.timers) (record seen { timers = drop it seen.timers }) in
    let unless_early = do
      p ← first_timer seen.timers
      ok (if ltb now (seen.heap p).next then ([], seen) else expired)
    in if rollover then ok expired else unless_early

-- Both steps, where nothing comes between them.
pub list_expired_cb : ℕ → ℕ → TimerManager → Outcome (List (Option ℕ) × TimerManager)
unfolding list_expired_locked
list_expired_cb now probe m = if empty m.timers then ok ([], m) else list_expired_locked now probe m
