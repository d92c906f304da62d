-- ===== src/Sessions/Examples.antt =====
-- A socket that gives one byte after another, and a parser whose head is the first two bytes; the second
-- one is the length of the body.
use server_framework.Base.{ℕ, zero, suc, Bool, true, false, Option, none, some, List, [], ◌∷◌}

abbrev read_one : List ℕ → ℕ → Option (List ℕ) × List ℕ
read_one [] n = (none, [])
read_one (b ∷ bs) zero = (none, b ∷ bs)
read_one (b ∷ bs) (suc n) = (some (b ∷ []), bs)

abbrev pending : List ℕ → List ℕ
pending bs = bs

-- Is the head parsed, and the length of the body.
abbrev parse_two : Bool × ℕ → List ℕ → ℕ × (Bool × ℕ)
parse_two p (a ∷ n ∷ rest) = (2, (true, n))
parse_two p rest = (0, p)

abbrev no_error : Bool × ℕ → Bool
no_error p = false

abbrev has_head : Bool × ℕ → Bool
has_head p = p.0

abbrev body_size : Bool × ℕ → ℕ
body_size p = p.1
