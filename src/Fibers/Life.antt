-- ===== src/Fibers/Life.antt =====
-- The life of a fiber from its constructor to its destructor, one slice at a time.
use server_framework.Base.{
  ℕ, ◌≡◌, refl, ap, ◌∙◌, Bool, true, false, not, ◌&&◌, Bool-cases, inl, inr, Option, List, [], ◌∷◌,
  All, Outcome, ok, fail, assertion_failed, ◌>>=◌, guard,
}
use server_framework.Fibers.{
  State, Fiber, Slice, returns, throws, yields_ready, yields_hold, swaps_out, is_exec, is_over,
  is_idle, new_fiber, destroy, swap_in, leave,
}

-- `swapIn`, until the fiber gives the thread back.
abbrev pub resume : Fiber → Slice → Outcome Fiber
resume f slice = swap_in f >>= λ g. ok (leave g slice)

abbrev pub resume_all : Fiber → List Slice → Outcome Fiber
resume_all f [] = ok f
resume_all f (slice ∷ slices) = resume f slice >>= λ g. resume_all g slices

-- A slice that sets the state.
abbrev pub sets_state : Slice → Bool
sets_state swaps_out = false
sets_state _ = true

abbrev pub ends : Slice → Bool
ends returns = true
ends throws = true
ends _ = false

-- Is a fiber at its end behind these slices, where `old` is the answer without them?
abbrev pub ended : Bool → List Slice → Bool
ended old [] = old
ended old (slice ∷ slices) = ended (ends slice) slices

-- No slice comes behind one at whose end the fiber has ended.
abbrev pub lives : Bool → List Slice → Bool
lives over [] = true
lives over (slice ∷ slices) = not over && lives (ends slice) slices

-- A fiber with its own stack that does not run.
abbrev pub IsParked : Fiber → Type 0
IsParked f = (f.has_stack ≡ true) × (is_exec f.state ≡ false)

-- The fiber comes to its end with this slice, or is parked.
pub record Left (f : Fiber) (slice : Slice) (g : Fiber) : Type 0 where
  pub run : resume f slice ≡ ok g
  pub parked : IsParked g
  pub over : is_over g.state ≡ ends slice
  pub idle : is_idle g.state ≡ ends slice

resume-Left :
    (f : Fiber) (slice : Slice)
    → IsParked f
    → is_over f.state ≡ false
    → sets_state slice ≡ true
    → (g : Fiber) × Left f slice g
unfolding swap_in leave
resume-Left f returns h o e = (
  leave (record f { state = State.exec }) returns,
  record { run = rw (h.1, o) refl; parked = (h.0, refl); over = refl; idle = refl },
)
resume-Left f throws h o e = (
  leave (record f { state = State.exec }) throws,
  record { run = rw (h.1, o) refl; parked = (h.0, refl); over = refl; idle = refl },
)
resume-Left f yields_ready h o e = (
  leave (record f { state = State.exec }) yields_ready,
  record { run = rw (h.1, o) refl; parked = (h.0, refl); over = refl; idle = refl },
)
resume-Left f yields_hold h o e = (
  leave (record f { state = State.exec }) yields_hold,
  record { run = rw (h.1, o) refl; parked = (h.0, refl); over = refl; idle = refl },
)
resume-Left f swaps_out h o e = cc

resume_over :
    (f : Fiber) (slice : Slice)
    → IsParked f
    → is_over f.state ≡ true
    → resume f slice ≡ fail assertion_failed
unfolding swap_in
resume_over f slice h o = rw (h.1, o) refl

destroy_parked : (f : Fiber) → IsParked f → destroy f ≡ guard (is_idle f.state) assertion_failed
unfolding destroy
destroy_parked f h = rw h.0 refl

resume_all-destroy :
    (f : Fiber) (slices : List Slice)
    → IsParked f
    → All (λ slice. sets_state slice ≡ true) slices
    → (resume_all f slices >>= destroy)
      ≡ guard (lives (is_over f.state) slices && ended (is_idle f.state) slices) assertion_failed
resume_all-destroy f [] h a = destroy_parked f h
resume_all-destroy f (slice ∷ slices) h a = elim (Bool-cases (is_over f.state)) [
  | inl o ↦ rw (resume_over f slice h o, o) refl
  | inr o ↦
      let (g, left) = resume-Left f slice h o a.0 in
      rw (left.run, o)
        (resume_all-destroy g slices left.parked a.1
          ∙ ap (λ b. guard (lives b slices && ended (is_idle g.state) slices) assertion_failed)
              left.over
          ∙ ap (λ b. guard (lives (ends slice) slices && ended b slices) assertion_failed)
              left.idle)
]

-- A new fiber is swapped in any number of times, and each time returns, throws or yields, and
-- is then destroyed: it comes through all of it, its destructor's assertion included, exactly
-- if it is not swapped in again behind a time at which it returned or threw, and it was never
-- swapped in or the last time returned or threw. Otherwise an assertion fails.
pub new_fiber-destroy :
    (last_id default_size : ℕ) (cb : Option ℕ) (size : ℕ) (slices : List Slice)
    → All (λ slice. sets_state slice ≡ true) slices
    → (resume_all (new_fiber last_id default_size cb size) slices >>= destroy)
      ≡ guard (lives false slices && ended true slices) assertion_failed
unfolding new_fiber
new_fiber-destroy last_id default_size cb size slices a = resume_all-destroy _ slices (refl, refl) a

-- `swapOut` alone leaves the state, and the next `swapIn` fails.
pub swaps_out-swap_in :
    (f : Fiber) (slice : Slice)
    → IsParked f
    → is_over f.state ≡ false
    → (resume f swaps_out >>= λ g. resume g slice) ≡ fail assertion_failed
unfolding swap_in leave
swaps_out-swap_in f slice h o = rw (h.1, o) refl
