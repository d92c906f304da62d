-- ===== src/Fibers/Examples.antt =====
-- Fibers run, parked and destroyed.
use server_framework.Base.{
  ◌≡◌, refl, true, false, ◌&&◌, some, List, [], ◌∷◌, fail, assertion_failed, ◌>>=◌, guard,
}
use server_framework.Fibers.{
  State, Fiber, Slice, returns, yields_ready, yields_hold, swaps_out, new_fiber, destroy,
}
use server_framework.Fibers.Life.{
  resume, resume_all, lives, ended, new_fiber-destroy, swaps_out-swap_in,
}

abbrev hold_and_return : List Slice
hold_and_return = yields_hold ∷ yields_ready ∷ returns ∷ []

new_fiber-destroy_example :
    (resume_all (new_fiber 4 65536 (some 9) 0) hold_and_return >>= destroy)
    ≡ guard (lives false hold_and_return && ended true hold_and_return) assertion_failed
new_fiber-destroy_example =
    new_fiber-destroy 4 65536 (some 9) 0 hold_and_return (refl, (refl, (refl, tt)))

abbrev parked : Fiber
parked = record { id = 5; stack_size = 4096; state = State.ready; has_stack = true; cb = some 2 }

swaps_out-swap_in_example :
    (resume parked swaps_out >>= λ g. resume g returns) ≡ fail assertion_failed
swaps_out-swap_in_example = swaps_out-swap_in parked returns (refl, refl) refl
