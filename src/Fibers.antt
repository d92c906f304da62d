-- ===== src/Fibers.antt =====
-- captain/fiber.cpp, captain/include/fiber.h: the states of a fiber.
-- A callback is a number. The contexts of the system (`getcontext`, `swapcontext`) are not modelled:
-- the code of a fiber between two switches is its `Slice`, how it gives the thread back.
mod Life
mod Examples
use server_framework.Base.{
  ℕ, suc, ◌+◌, ◌==◌, Bool, true, false, not, ◌||◌, if◌then◌else◌, Option, none, some, Outcome, ok,
  assertion_failed, ◌>>=◌, ◌>>◌, guard,
}

pub data State : Type 0 where
  init hold exec term ready except : State

pub record Fiber : Type 0 where
  pub id : ℕ
  pub stack_size : ℕ
  pub state : State
  pub has_stack : Bool
  pub cb : Option ℕ

-- `m_state == …`
abbrev pub is_exec : State → Bool
is_exec exec = true
is_exec _ = false

abbrev pub is_ready : State → Bool
is_ready ready = true
is_ready _ = false

-- `TERM` or `EXCEPT`
abbrev pub is_over : State → Bool
is_over term = true
is_over except = true
is_over _ = false

-- `TERM`, `EXCEPT` or `INIT`
abbrev pub is_idle : State → Bool
is_idle term = true
is_idle except = true
is_idle init = true
is_idle _ = false

abbrev pub has_cb : Option ℕ → Bool
has_cb none = false
has_cb (some f) = true

-- `Fiber()`: the fiber that a thread starts with.
pub main_fiber : Fiber
main_fiber = record { id = 0; stack_size = 0; state = exec; has_stack = false; cb = none }

-- `Fiber(cb, stacksize)`, where the counter of ids is at `last_id` and `default_size` is configured.
unfoldable pub new_fiber : ℕ → ℕ → Option ℕ → ℕ → Fiber
new_fiber last_id default_size cb stack_size = record {
  id = suc last_id;
  stack_size = if stack_size == 0 then default_size else stack_size;
  state = init;
  has_stack = true;
  cb = cb;
}

-- The assertions of `~Fiber`.
pub destroy : Fiber → Outcome (Unit {0})
destroy f =
    if f.has_stack
    then guard (is_idle f.state) assertion_failed
    else (guard (not (has_cb f.cb)) assertion_failed >> guard (is_exec f.state) assertion_failed)

unfoldable pub reset : Fiber → Option ℕ → Outcome Fiber
reset f cb = do
  guard f.has_stack assertion_failed
  guard (is_idle f.state) assertion_failed
  ok (record f { cb = cb; state = init })

-- What runs next is the code behind the switch in which the fiber left. For one that has ended this
-- is the assertion behind the last `swapOut` of `MainFunc`, which is never to be reached.
abbrev pub resumed : Fiber → Outcome Fiber
resumed f = do guard (not (is_over f.state)) assertion_failed; ok (record f { state = exec })

unfoldable pub swap_in : Fiber → Outcome Fiber
swap_in f = do guard (not (is_exec f.state)) assertion_failed; resumed f

-- `call` does not look at the state.
pub call : Fiber → Outcome Fiber
call f = resumed f

-- How the code of a fiber gives the thread back: `m_cb` returns or throws, `YieldToReady`,
-- `YieldToHold`, or `swapOut` alone.
pub data Slice : Type 0 where
  returns throws yields_ready yields_hold swaps_out : Slice

-- `MainFunc` behind `m_cb`, the two yields, and `swapOut`.
unfoldable pub leave : Fiber → Slice → Fiber
leave f returns = record f { cb = none; state = term }
leave f throws = record f { state = except }
leave f yields_ready = record f { state = ready }
leave f yields_hold = record f { state = hold }
leave f swaps_out = f
