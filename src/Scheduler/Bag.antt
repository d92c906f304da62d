-- ===== src/Scheduler/Bag.antt =====
-- The queue as a bag of tasks: what a scheduler promises when the order of the queue is forgotten.
use mathlib.Core.List.{Perm, perm_middle}
use mathlib.Core.List.Perm
use mathlib.Core.Quot
use mathlib.Core.Quot.{Quot, Quot-set}
use server_framework.Base.{
  append-nil, ℕ, ◌≡◌, refl, sym, ap, ◌∙◌, subst, true, Bool-cases, if◌then◌else◌, Option, none,
  some, List, [], ◌∷◌, ◌++◌, get_elem?, get_elem?-set_same, inl, inr,
}
use server_framework.Scheduler.{FiberAndThread, Worker, View, took, has_work, schedule}
use server_framework.Scheduler.Changes.{due_at, Rests, Changed, kept, added, removed, work-Changed}
use server_framework.Scheduler.System.{
  System, view_of, put_back, Step, runs, submits, flags, auto_stops, IsValid,
}

abbrev pub Bag : Type 0
Bag = Quot (Perm {A = FiberAndThread})

abbrev pub bag_of : System → Bag
bag_of s = Quot.mk s.scheduler.queue

pub put : FiberAndThread → Bag → Bag
put ft = Quot.lift Quot-set (λ q. Quot.mk (ft ∷ q)) (λ q q' same. Quot.sound (Perm.cons ft same))

-- What the bag does, where the task `due` must be put in, if any, and where it may do nothing just
-- if it `rests`: nothing, the task is put in, or one is taken out, into the hand of one of the threads.
pub data BagStep (due : Option FiberAndThread) (rests : Type 0) (threads : List Worker) (b b' : Bag)
    : Type 0 where
  nothing : due ≡ none → rests → b' ≡ b → BagStep due rests threads b b'
  puts :
      (ft : FiberAndThread)
      → due ≡ some ft
      → has_work ft ≡ true
      → b' ≡ put ft b
      → BagStep due rests threads b b'
  takes :
      (ft : FiberAndThread) (i : ℕ) (w : Worker)
      → due ≡ none
      → b ≡ put ft b'
      → get_elem? threads i ≡ some w
      → w.pc ≡ took (some ft)
      → BagStep due rests threads b b'

-- What a step must put in: the fiber that a thread has counted off, where it is ready, or the task
-- that is submitted, where it can be run.
abbrev pub due_in : (s t : System) → Step s t → Option FiberAndThread
due_in s t (runs last_id default_size i slice tickled w v at run same) = due_at (view_of s w) w.pc
due_in s t (submits ft same) = if has_work ft then some ft else none
due_in s t (flags b same) = none
due_in s t (auto_stops same) = none

-- Only a thread at the top of its loop has to take a task, where there is one for it.
abbrev pub RestsIn : (s t : System) → Step s t → Type 0
RestsIn s t (runs last_id default_size i slice tickled w v at run same) = Rests (view_of s w) w.pc
RestsIn s t (submits ft same) = Unit {0}
RestsIn s t (flags b same) = Unit {0}
RestsIn s t (auto_stops same) = Unit {0}

put_middle :
    (before after : List FiberAndThread) (ft : FiberAndThread)
    → ◌≡◌ {A = Bag} (Quot.mk (before ++ ft ∷ after)) (put ft (Quot.mk (before ++ after)))
unfolding put
put_middle before after ft = Quot.sound (perm_middle before after)

put_last :
    (q : List FiberAndThread) (ft : FiberAndThread)
    → ◌≡◌ {A = Bag} (Quot.mk (q ++ ft ∷ [])) (put ft (Quot.mk q))
put_last q ft = put_middle q [] ft ∙ ap (λ q. put ft (Quot.mk q)) (append-nil q)

Changed-BagStep :
    (s : System) (v : View) (i : ℕ) (w : Worker)
    → get_elem? s.workers i ≡ some w
    → Changed (view_of s w) v
    → BagStep
        (due_at (view_of s w) w.pc)
        (Rests (view_of s w) w.pc)
        (put_back s i v).workers
        (bag_of s)
        (bag_of (put_back s i v))
Changed-BagStep s v i w at (kept due rests e) = nothing due rests (ap Quot.mk e)
Changed-BagStep s v i w at (added ft due h e) =
    puts ft due h (ap Quot.mk e ∙ put_last s.scheduler.queue ft)
Changed-BagStep s v i w at (removed ft before after due q q' pc) =
    takes ft i v.worker due
      (ap Quot.mk q ∙ put_middle before after ft ∙ ap (λ q. put ft (Quot.mk q)) (sym q'))
      (get_elem?-set_same s.workers i v.worker at) pc

submits-BagStep :
    (s : System) (ft : FiberAndThread)
    → BagStep
        (if has_work ft then some ft else none)
        (Unit {0})
        s.workers
        (bag_of s)
        (Quot.mk (schedule s.scheduler ft).1.queue)
unfolding schedule
submits-BagStep s ft = elim (Bool-cases (has_work ft)) [
  | inl e ↦ puts ft (ap (λ b. if b then some ft else none) e) e (
      ap (λ b. Quot.mk (if b then s.scheduler.queue ++ ft ∷ [] else s.scheduler.queue)) e
      ∙ put_last s.scheduler.queue ft)
  | inr e ↦
      nothing (ap (λ b. if b then some ft else none) e) tt
        (ap (λ b. Quot.mk (if b then s.scheduler.queue ++ ft ∷ [] else s.scheduler.queue)) e)
]

-- On a well-formed system every step, of any thread or from outside, does to the bag of queued
-- tasks, their order forgotten, what is due: a thread that settles a fiber which is ready puts
-- this fiber in, a submission puts in its task if it can be run, and no other step puts in
-- anything; any other step may take out one task, which is then in the hand of a thread, and a
-- thread at the top of its loop does nothing only if each queued task is for another thread or
-- runs already.
pub Step-refines :
    (s t : System)
    → IsValid s
    → (step : Step s t)
    → BagStep (due_in s t step) (RestsIn s t step) t.workers (bag_of s) (bag_of t)
Step-refines s t h (runs last_id default_size i slice tickled w v at run same) =
    subst
      (λ u.
        BagStep (due_at (view_of s w) w.pc) (Rests (view_of s w) w.pc) u.workers (bag_of s)
          (bag_of u))
      (sym same)
      (Changed-BagStep s v i w at
        (work-Changed last_id default_size slice (view_of s w) v tickled h.queued run))
Step-refines s t h (submits ft same) =
    subst
      (λ u.
        BagStep (if has_work ft then some ft else none) (Unit {0}) u.workers (bag_of s) (bag_of u))
      (sym same) (submits-BagStep s ft)
Step-refines s t h (flags b same) =
    subst (λ u. BagStep none (Unit {0}) u.workers (bag_of s) (bag_of u)) (sym same)
      (nothing refl tt refl)
Step-refines s t h (auto_stops same) =
    subst (λ u. BagStep none (Unit {0}) u.workers (bag_of s) (bag_of u)) (sym same)
      (nothing refl tt refl)
